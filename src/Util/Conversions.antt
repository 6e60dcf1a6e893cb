-- ===== src/Util/Conversions.antt =====
-- pkg/util/conversions.go: what happens to a pod on its way into the lower cluster. A function that
-- writes through a pointer returns the new value.
pub mod Selectors
pub mod Trips
pub mod Updates
use text.Mathlib.Text.{starts_with}
use tensile_kube.Prelude.{
  String, Bool, not, Option, none, some, List, [], ◌∷◌, map, ◌==◌, if◌then◌else◌, filter_by,
}
use tensile_kube.Prelude.Dict.{Dict, insert, index, index_nil, make_if_nil}
use tensile_kube.Prelude.Run.{Run, done, panic, ◌>>=◌}
use tensile_kube.Api.{
  ObjectMeta, NodeSelector, NodeAffinity, Affinity, VolumeMount, Container, Volume, PodSpec, Pod,
  empty_status,
}
use tensile_kube.Util.Consts.{
  Json, ClustersNodeSelection, selector_key, virtual_pod_label, tripped_labels,
}
use tensile_kube.Util.Labels.{trim_labels}

-- The token volumes that Kubernetes mounts by itself.
abbrev pub is_default_token : String → Bool
is_default_token name = starts_with name "default-token"

unfoldable pub trim_object_meta : ObjectMeta → ObjectMeta
trim_object_meta meta = record meta {
  uid = "";
  resource_version = "";
  self_link = "";
  owner_references = [];
}

unfoldable pub trim_mounts : List VolumeMount → List VolumeMount
trim_mounts = filter_by (λ v. not (is_default_token v.name))

unfoldable pub trim_containers : List Container → List Container
unfolding trim_mounts
trim_containers = map (λ (c : Container). record c { volume_mounts = trim_mounts c.volume_mounts })

unfoldable pub trim_volumes : Option (List Volume) → List Volume
trim_volumes none = []
trim_volumes (some vols) = filter_by (λ v. not (is_default_token v.name)) vols

unfoldable pub convert_annotations : Json → Option (Dict String) → Option ClustersNodeSelection
unfolding index
convert_annotations json none = none
convert_annotations json (some annotation) =
    let val = index selector_key annotation in
    if val == "" then none else json.unmarshal_selection val

-- The node affinity of the pod, with the required part of the stored one.
merge_node_affinity : Option NodeAffinity → Option NodeAffinity → Option NodeAffinity
merge_node_affinity pod none = none
merge_node_affinity none (some stored) = some stored
merge_node_affinity (some na) (some stored) = some (record na { required = stored.required })

stored_node_affinity : Option Affinity → Option NodeAffinity
stored_node_affinity none = none
stored_node_affinity (some a) = a.node_affinity

unfoldable pub recover_affinity : Option Affinity → Option Affinity → Option Affinity
unfolding merge_node_affinity stored_node_affinity
recover_affinity none stored = stored
recover_affinity (some a) stored =
    some (record a {
      node_affinity = merge_node_affinity a.node_affinity (stored_node_affinity stored);
    })

unfoldable pub drop_required : Option Affinity → Option Affinity
drop_required none = none
drop_required (some a) = some (record a {
  node_affinity = elim a.node_affinity [
    | none ↦ none
    | some na ↦ some (record na { required = none })
  ];
})

prune_node_affinity : Option NodeAffinity → Option NodeAffinity
prune_node_affinity none = none
prune_node_affinity (some na) = elim na.required [
  | some r ↦ some na
  | none ↦ elim na.preferred [ none ↦ none | some p ↦ some na ]
]

-- An affinity with none of its three parts is no affinity.
prune_whole : Affinity → Option Affinity
prune_whole a = elim a.node_affinity [
  | some na ↦ some a
  | none ↦ elim a.pod_affinity [
    | some p ↦ some a
    | none ↦ elim a.pod_anti_affinity [ none ↦ none | some p ↦ some a ]
  ]
]

unfoldable pub prune_affinity : Option Affinity → Option Affinity
unfolding prune_node_affinity prune_whole
prune_affinity none = none
prune_affinity (some a) =
    prune_whole (record a { node_affinity = prune_node_affinity a.node_affinity })

unfoldable pub recover_selectors : PodSpec → Option ClustersNodeSelection → PodSpec
unfolding recover_affinity drop_required prune_affinity
recover_selectors spec (some cns) = record spec {
  node_selector = cns.node_selector;
  tolerations = cns.tolerations;
  affinity = prune_affinity (recover_affinity spec.affinity cns.affinity);
}
recover_selectors spec none = record spec {
  node_selector = none;
  tolerations = none;
  affinity = prune_affinity (drop_required spec.affinity);
}

module _ (json : Json) where
  -- The annotations after the tripped labels were stored; a codec error stores nothing.
  unfoldable pub store_tripped : Option (Dict String) → Dict String → Dict String
  store_tripped none annotations = annotations
  store_tripped (some tripped) annotations = elim (json.marshal_labels tripped) [
    | none ↦ annotations
    | some text ↦ insert tripped_labels text annotations
  ]

  unfoldable pub trim_pod : Pod → Option (List String) → Pod
  unfolding trim_object_meta trim_containers trim_volumes recover_selectors store_tripped
  trim_pod pod ignore_labels =
      let (tripped, labels) =
        trim_labels (insert virtual_pod_label "true" (make_if_nil pod.meta.labels)) ignore_labels in
      let spec = recover_selectors pod.spec (convert_annotations json pod.meta.annotations) in
      record {
        meta = record (trim_object_meta pod.meta) {
          labels = some labels;
          annotations = some (store_tripped tripped (make_if_nil pod.meta.annotations));
        };
        spec = record spec {
          containers = trim_containers pod.spec.containers;
          init_containers = trim_containers pod.spec.init_containers;
          volumes = some (trim_volumes pod.spec.volumes);
          node_name = "";
        };
        status = empty_status;
      }

-- `orig[i].Image = update[i].Image` for every `i` of `orig`; a short `update` panics.
unfoldable pub update_images : List Container → List Container → Run (List Container)
update_images [] us = done []
update_images (c ∷ cs) [] = panic
update_images (c ∷ cs) (u ∷ us) = do
  rest ← update_images cs us
  done (record c { image = u.image } ∷ rest)

-- `trimLabels` on a label map that may be nil, for its effect alone.
unfoldable pub trim_shared : Option (Dict String) → Option (List String) → Option (Dict String)
trim_shared none ignore_labels = none
trim_shared (some labels) ignore_labels = some (trim_labels labels ignore_labels).1

module _ (json : Json) where
  unfoldable pub updated_tolerations : Pod → Pod → Dict String → PodSpec
  unfolding index_nil
  updated_tolerations orig update annotations =
      if index_nil selector_key orig.meta.annotations == index_nil selector_key (some annotations)
      then orig.spec
      else elim (convert_annotations json (some annotations)) [
        | none ↦ orig.spec
        | some cns ↦ record orig.spec { tolerations = cns.tolerations }
      ]

  -- `orig` and `update` afterwards. They share one label map, so `trimLabels` changes both.
  unfoldable pub written_pods :
      Pod → Pod → Option (List String) → List Container → List Container → Pod × Pod
  unfolding updated_tolerations trim_shared
  written_pods orig update ignore_labels init_containers containers =
      let annotations = make_if_nil update.meta.annotations in
      let labels = trim_shared update.meta.labels ignore_labels in
      let spec = updated_tolerations orig update annotations in
      (
        record orig {
          meta = record orig.meta { labels = labels; annotations = some annotations };
          spec = record spec {
            init_containers = init_containers;
            containers = containers;
            active_deadline_seconds = update.spec.active_deadline_seconds;
          };
        },
        record update {
          meta = record update.meta { labels = labels; annotations = some annotations };
        },
      )

  unfoldable pub get_updated_pod : Pod → Pod → Option (List String) → Run (Pod × Pod)
  unfolding written_pods
  get_updated_pod orig update ignore_labels = do
    init_containers ← update_images orig.spec.init_containers update.spec.init_containers
    containers ← update_images orig.spec.containers update.spec.containers
    done (written_pods orig update ignore_labels init_containers containers)
