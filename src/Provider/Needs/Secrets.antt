-- ===== src/Provider/Needs/Secrets.antt =====
-- pkg/provider/helper.go: when the secrets of a pod cannot be told.
use tensile_kube.Prelude.{◌≡◌, ◌↔◌, Bool, true, false, none, some, List, [], ◌∷◌, arith, any_by}
use tensile_kube.Prelude.Run.{panic}
use tensile_kube.Api.{Volume, Pod}
use tensile_kube.Provider.Needs.{
  volumes_of, ref_name, volume_secrets, all_volume_secrets, get_secrets,
}

-- The first of the kinds with a secret that a volume has is CephFS, Cinder or RBD, without a reference.
abbrev pub lacks_ref : Volume → Bool
lacks_ref v = elim v.secret [
  | some name ↦ false
  | none ↦ elim v.ceph_fs [
    | some (some name) ↦ false
    | some none ↦ true
    | none ↦ elim v.cinder [
      | some (some name) ↦ false
      | some none ↦ true
      | none ↦ elim v.rbd [ some none ↦ true | _ ↦ false ]
    ]
  ]
]

volume_secrets-lacks : (v : Volume) → (volume_secrets v ≡ panic) ↔ (lacks_ref v ≡ true)
unfolding volume_secrets ref_name
volume_secrets-lacks v = (λ h. ground arith, λ h. ground arith)

all_volume_secrets-lacks :
    (vs : List Volume) → (all_volume_secrets vs ≡ panic) ↔ (any_by lacks_ref vs ≡ true)
unfolding all_volume_secrets
all_volume_secrets-lacks [] = (λ h. ground arith, λ h. ground arith)
all_volume_secrets-lacks (v ∷ vs) = (
  λ h. ground (arith, volume_secrets-lacks v, all_volume_secrets-lacks vs),
  λ h. ground (arith, volume_secrets-lacks v, all_volume_secrets-lacks vs),
)

-- `getSecrets` panics exactly where a volume of CephFS, Cinder or RBD has no secret reference.
get_secrets-panic :
    (pod : Pod)
    → (get_secrets pod ≡ panic) ↔ (any_by lacks_ref (volumes_of pod.spec.volumes) ≡ true)
unfolding get_secrets
get_secrets-panic pod = (
  λ h. ground (arith, all_volume_secrets-lacks (volumes_of pod.spec.volumes)),
  λ h. ground (arith, all_volume_secrets-lacks (volumes_of pod.spec.volumes)),
)
