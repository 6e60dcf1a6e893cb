-- ===== src/Webhook/Inject.antt =====
-- `inject`, `skipInject` and `trySetNodeName` of pkg/webhook/hook.go.
pub mod Delivery
use tensile_kube.Prelude.{
  String, Bool, true, false, not, ◌&&◌, Option, none, some, List, [], ◌∷◌, ◌==◌, if◌then◌else◌,
}
use tensile_kube.Prelude.Dict.{Dict, insert, index_nil, make_if_nil}
use tensile_kube.Prelude.Run.{Run, done, panic, ◌>>=◌, Result, ok, err}
use tensile_kube.Api.{Affinity, Volume, PodSpec, Pod, ApiError}
use tensile_kube.Util.Consts.{Json, ClustersNodeSelection, selector_key, selected_node_key}
use tensile_kube.Webhook.Affinity.{inject_affinity}
use tensile_kube.Webhook.Selector.{inject_node_selector}
use tensile_kube.Webhook.Tolerations.{get_pod_tolerations}

abbrev is_nil_option {ℓ} : {A : Type ℓ} → Option A → Bool
is_nil_option none = true
is_nil_option (some a) = false

abbrev no_entries : Option (Dict String) → Bool
no_entries none = true
no_entries (some []) = true
no_entries (some (e ∷ m)) = false

unfoldable pub skip_inject : Pod → Bool
skip_inject pod =
    no_entries pod.spec.node_selector
    && (is_nil_option pod.spec.affinity && is_nil_option pod.spec.tolerations)

-- The pod's affinity afterwards, and what was taken from it.
unfoldable pub split_affinity :
    Option Affinity → List String → Run (Option Affinity × Option Affinity)
split_affinity none ignore_keys = done (none, none)
split_affinity (some a) ignore_keys = do
  (left, taken) ← inject_affinity a ignore_keys
  done (some left, taken)

-- The pod's node selector afterwards, and what was taken from it.
unfoldable pub split_selector :
    Option (Dict String) → List String → Option (Dict String) × Dict String
split_selector none ignore_keys = (none, [])
split_selector (some m) ignore_keys =
    let (left, final) = inject_node_selector m ignore_keys in (some left, final)

module _ (json : Json) where
  -- The end of `inject`, from the selection that is stored.
  unfoldable pub store_selection : Pod → ClustersNodeSelection → Pod
  store_selection pod cns = elim (json.marshal_selection cns) [
    | none ↦ pod
    | some text ↦ record pod {
      meta = record pod.meta {
        annotations = some (insert selector_key text (make_if_nil pod.meta.annotations));
      };
      spec = record pod.spec { tolerations = some (get_pod_tolerations pod.spec.tolerations) };
    }
  ]

  -- The pod with its constraints taken off, and the selection that holds them.
  unfoldable pub split_pod : Pod → List String → Run (Pod × ClustersNodeSelection)
  unfolding split_affinity split_selector
  split_pod pod ignore_keys = do
    (affinity, taken) ← split_affinity pod.spec.affinity ignore_keys
    let (selector, final) = split_selector pod.spec.node_selector ignore_keys
    done (
      record pod { spec = record pod.spec { affinity = affinity; node_selector = selector } },
      record { node_selector = some final; affinity = taken; tolerations = pod.spec.tolerations },
    )

  unfoldable pub inject : Pod → List String → Run Pod
  inject pod ignore_keys =
      if skip_inject pod
      then done pod
      else do (left, cns) ← split_pod pod ignore_keys; done (store_selection left cns)

-- The PVC lister: the annotations of a claim by its namespace and name, or an error.
abbrev pub PvcLister : Type 0
PvcLister = String → String → Result ApiError (Option (Dict String))

unfoldable pub get_node_name_from_pvc : PvcLister → String → String → String
get_node_name_from_pvc lister ns pvc_name = elim (lister ns pvc_name) [
  | err e ↦ ""
  | ok annotations ↦ index_nil selected_node_key annotations
]

abbrev claim_node : PvcLister → String → Volume → String
claim_node lister ns v = elim v.persistent_volume_claim [
  | none ↦ ""
  | some claim ↦ get_node_name_from_pvc lister ns claim
]

-- The node of the first claim that has one.
unfoldable pub first_node : PvcLister → String → List Volume → String
unfolding get_node_name_from_pvc
first_node lister ns [] = ""
first_node lister ns (v ∷ vs) =
    let rest = first_node lister ns vs in
    if claim_node lister ns v == "" then rest else claim_node lister ns v

unfoldable pub try_set_node_name : PvcLister → Pod → Pod
unfolding first_node
try_set_node_name lister pod = elim pod.spec.volumes [
  | none ↦ pod
  | some vs ↦
      (if first_node lister pod.meta.namespace vs == "" then pod else record pod {
        spec = record pod.spec { node_name = first_node lister pod.meta.namespace vs };
      })
]
