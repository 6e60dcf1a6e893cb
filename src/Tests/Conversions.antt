-- ===== src/Tests/Conversions.antt =====
-- The conversions between the clusters, at concrete pods.
use tensile_kube.Prelude.{
  String, ◌≡◌, refl, ◌↔◌, ◌⊎◌, ◌<◌, none, some, [], ◌∷◌, ◌==◌, if◌then◌else◌,
}
use tensile_kube.Prelude.Dict.{Dict, lookup, make_if_nil}
use tensile_kube.Prelude.Run.{done, panic}
use tensile_kube.Api.{Pod}
use tensile_kube.Util.Consts.{Json, virtual_pod_label, ClustersNodeSelection}
use tensile_kube.Util.Labels.{recover_labels}
use tensile_kube.Util.Conversions.{
  trim_pod, recover_selectors, get_updated_pod, written_pods, update_images,
}
use tensile_kube.Util.Conversions.Trips.{Stores, split_labels, trim_pod-round_trip}
use tensile_kube.Util.Conversions.Updates.{SameFrame, get_updated_pod-panic, get_updated_pod-frame}
use tensile_kube.Tests.{web_pod, web_spec, container, codec, no_selection, affinity_of, mixed_term}

abbrev json : Json
json = codec (split_labels web_pod ("tier" ∷ [])).0 no_selection

stored : Stores json (split_labels web_pod ("tier" ∷ [])).0
stored = record { text = "labels"; written = refl; nonempty = refl; read = refl }

trim_pod-round_trip_example :
    (labels : Dict String) × (recover_labels json
        (trim_pod json web_pod (some ("tier" ∷ []))).meta.labels
        (trim_pod json web_pod (some ("tier" ∷ []))).meta.annotations
      ≡ done (some labels))
    × ((j : String)
        → lookup j labels ≡ (
            if virtual_pod_label == j
            then some "true"
            else lookup j (make_if_nil web_pod.meta.labels)))
trim_pod-round_trip_example = trim_pod-round_trip json web_pod ("tier" ∷ []) stored

abbrev picky : ClustersNodeSelection
picky = record no_selection { affinity = some (affinity_of (mixed_term [])) }

picky_affinity :
    (recover_selectors web_spec (some picky)).affinity ≡ some (affinity_of (mixed_term []))
unfolding recover_selectors
picky_affinity = refl

abbrev two_containers : Pod
two_containers = record web_pod {
  spec = record web_spec { containers = container "web:1" ∷ container "log:1" ∷ [] };
}

get_updated_pod-panic_example :
    (get_updated_pod json two_containers web_pod none ≡ panic) ↔ ((0 < 0) ⊎ (1 < 2))
get_updated_pod-panic_example = get_updated_pod-panic json two_containers web_pod none

abbrev updated : Pod × Pod
updated = written_pods json web_pod web_pod (some ("tier" ∷ [])) [] (container "web:1" ∷ [])

updates : get_updated_pod json web_pod web_pod (some ("tier" ∷ [])) ≡ done updated
unfolding get_updated_pod update_images
updates = refl

get_updated_pod-frame_example : SameFrame web_pod web_pod updated.0
get_updated_pod-frame_example =
    get_updated_pod-frame json web_pod web_pod (some ("tier" ∷ [])) updated updates
