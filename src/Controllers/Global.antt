-- ===== src/Controllers/Global.antt =====
-- pkg/controllers/utils.go: the mark of the objects that the virtual kubelet has sent down, and what is
-- filtered from them on the way.
pub mod Filtered
use tensile_kube.Prelude.{
  String, Bool, true, false, ◌||◌, Option, none, some, List, [], ◌∷◌, map, ◌==◌, if◌then◌else◌,
}
use tensile_kube.Prelude.Dict.{Dict, insert, index_nil, make_if_nil}
use tensile_kube.Prelude.Run.{Result, ok, err}
use tensile_kube.Api.{
  ObjectMeta, NodeSelectorRequirement, NodeSelectorTerm, NodeSelector, Service,
  PersistentVolumeClaim, PersistentVolume, ApiError, not_found, already_exists, other,
}
use tensile_kube.Util.Consts.{global_label, selected_node_key, host_name_key, beta_host_name_key}
use tensile_kube.Util.Conversions.{trim_object_meta}

unfoldable pub is_object_global : ObjectMeta → Bool
unfolding index_nil
is_object_global obj = index_nil global_label obj.annotations == "true"

-- `m[k] = v` on annotations that are allocated where they are nil.
abbrev pub annotate : String → String → ObjectMeta → ObjectMeta
annotate k v meta = record meta { annotations = some (insert k v (make_if_nil meta.annotations)) }

unfoldable pub set_object_global : ObjectMeta → ObjectMeta
set_object_global obj = annotate global_label "true" obj

unfoldable pub check_global_label_equal : ObjectMeta → ObjectMeta → Bool
unfolding is_object_global
check_global_label_equal obj clone =
    if is_object_global obj then (if is_object_global clone then true else false) else false

unfoldable pub filter_common : ObjectMeta → ObjectMeta
unfolding set_object_global trim_object_meta
filter_common meta = set_object_global (trim_object_meta meta)

-- The result is the service, and whether the function returned nil. `marshal` is `json.Marshal`.
unfoldable pub filter_service : (Dict String → Option String) → Service → Service × Bool
unfolding filter_common
filter_service marshal service =
    let trimmed = record service {
      selector = none;
      cluster_ip = if service.cluster_ip == "None" then service.cluster_ip else "";
      meta = filter_common service.meta;
    } in
    elim service.selector [
      | none ↦ (trimmed, true)
      | some selector ↦ elim (marshal selector) [
        | none ↦ (trimmed, false)
        | some text ↦ (record trimmed { meta = annotate "labelSelector" text trimmed.meta }, true)
      ]
    ]

unfoldable pub rename_node : String → ObjectMeta → ObjectMeta
unfolding index_nil
rename_node host_ip meta =
    if index_nil selected_node_key meta.annotations == ""
    then meta
    else annotate selected_node_key host_ip meta

unfoldable pub filter_pvc :
    (String → Option String) → PersistentVolumeClaim → String → PersistentVolumeClaim × Bool
unfolding filter_common rename_node
filter_pvc marshal pvc host_ip =
    let trimmed = record pvc { selector = none; meta = filter_common pvc.meta } in
    elim pvc.selector [
      | none ↦ (record trimmed { meta = rename_node host_ip trimmed.meta }, true)
      | some selector ↦ elim (marshal selector) [
        | none ↦ (trimmed, false)
        | some text ↦ (
          record trimmed {
            meta = rename_node host_ip (annotate "labelSelector" text trimmed.meta);
          },
          true,
        )
      ]
    ]

abbrev pub is_host_key : String → Bool
is_host_key key = (key == host_name_key) || (key == beta_host_name_key)

unfoldable pub pin_host : String → NodeSelectorRequirement → NodeSelectorRequirement
pin_host host_ip r = if is_host_key r.key then record r { values = host_ip ∷ [] } else r

-- A nil list stays nil.
abbrev pub pin_all {ℓ} : {A : Type ℓ} → (A → A) → Option (List A) → Option (List A)
pin_all f none = none
pin_all f (some xs) = some (map f xs)

unfoldable pub pin_term : String → NodeSelectorTerm → NodeSelectorTerm
unfolding pin_host
pin_term host_ip t = record {
  match_expressions = pin_all (pin_host host_ip) t.match_expressions;
  match_fields = map (pin_host host_ip) t.match_fields;
}

unfoldable pub pin_affinity : String → Option (Option NodeSelector) → Option (Option NodeSelector)
unfolding pin_term
pin_affinity host_ip none = none
pin_affinity host_ip (some none) = some none
pin_affinity host_ip (some (some required)) =
    some (some (record { terms = pin_all (pin_term host_ip) required.terms }))

unfoldable pub filter_pv : PersistentVolume → String → PersistentVolume
unfolding pin_affinity trim_object_meta
filter_pv pv host_ip =
    let meta = trim_object_meta pv.meta in
    record pv {
      meta = record meta { annotations = some (make_if_nil meta.annotations) };
      node_affinity = pin_affinity host_ip pv.node_affinity;
    }

-- The answers of the namespace lister and of the creation; the result is whether the namespace is
-- created, and the error.
unfoldable pub ensure_namespace :
    {A B : Type 0} → Result ApiError A → Result ApiError B → Bool × Option ApiError
ensure_namespace (ok a) created = (false, none)
ensure_namespace (err not_found) (ok b) = (true, none)
ensure_namespace (err not_found) (err already_exists) = (true, none)
ensure_namespace (err not_found) (err e) = (true, some e)
ensure_namespace (err e) created = (false, some e)
