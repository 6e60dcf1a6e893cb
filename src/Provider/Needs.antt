-- ===== src/Provider/Needs.antt =====
-- pkg/provider/helper.go: what a pod needs in the lower cluster before it can start there.
pub mod Secrets
use tensile_kube.Prelude.{
  String, Option, none, some, List, [], ◌∷◌, ◌++◌, ◌==◌, Bool, ◌&&◌, ◌||◌, if◌then◌else◌,
}
use tensile_kube.Prelude.Run.{Run, done, panic, ◌>>=◌}
use tensile_kube.Api.{Volume, Pod}
use tensile_kube.Util.Conversions.{is_default_token}

abbrev pub volumes_of : Option (List Volume) → List Volume
volumes_of none = []
volumes_of (some vs) = vs

-- The name in a `SecretRef`, which may be nil.
unfoldable pub ref_name : Option String → Run (List String)
ref_name none = panic
ref_name (some name) = done (name ∷ [])

-- The names that one volume adds: the first kind that it has counts.
unfoldable pub volume_secrets : Volume → Run (List String)
unfolding ref_name
volume_secrets v = elim v.secret [
  | some name ↦ if is_default_token v.name then done [] else done (name ∷ [])
  | none ↦ elim v.ceph_fs [
    | some ref ↦ ref_name ref
    | none ↦ elim v.cinder [
      | some ref ↦ ref_name ref
      | none ↦ elim v.rbd [ some ref ↦ ref_name ref | none ↦ done [] ]
    ]
  ]
]

unfoldable pub all_volume_secrets : List Volume → Run (List String)
unfolding volume_secrets
all_volume_secrets [] = done []
all_volume_secrets (v ∷ vs) = do
  names ← volume_secrets v
  rest ← all_volume_secrets vs
  done (names ++ rest)

unfoldable pub get_secrets : Pod → Run (List String)
unfolding all_volume_secrets
get_secrets pod = do
  names ← all_volume_secrets (volumes_of pod.spec.volumes)
  done (names ++ pod.spec.image_pull_secrets)

unfoldable pub volume_configmaps : List Volume → List String
volume_configmaps [] = []
volume_configmaps (v ∷ vs) = elim v.config_map [
  | none ↦ volume_configmaps vs
  | some name ↦ name ∷ volume_configmaps vs
]

unfoldable pub get_configmaps : Pod → List String
unfolding volume_configmaps
get_configmaps pod = volume_configmaps (volumes_of pod.spec.volumes)

unfoldable pub volume_pvcs : List Volume → List String
volume_pvcs [] = []
volume_pvcs (v ∷ vs) = elim v.persistent_volume_claim [
  | none ↦ volume_pvcs vs
  | some name ↦ name ∷ volume_pvcs vs
]

unfoldable pub get_pvcs : Pod → List String
unfolding volume_pvcs
get_pvcs pod = volume_pvcs (volumes_of pod.spec.volumes)

unfoldable pub pod_stopped : Pod → Bool
pod_stopped pod =
    (pod.status.phase == "Succeeded" || pod.status.phase == "Failed")
    && (pod.spec.restart_policy == "Never")
