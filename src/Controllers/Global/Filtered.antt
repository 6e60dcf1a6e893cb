-- ===== src/Controllers/Global/Filtered.antt =====
-- What the filters leave.
use tensile_kube.Prelude.{
  String, ◌≡◌, refl, ap, ◌∙◌, true, Option, none, some, List, [], ◌∷◌, map, arith, eq_iff, ◌==◌,
  Option-cases, Bool-cases, inl, inr, if◌then◌else◌,
}
use tensile_kube.Prelude.Dict.{
  Dict, lookup, index, index_nil, make_if_nil, lookup-insert, index_nil-make_if_nil,
}
use tensile_kube.Api.{
  NodeSelector, ObjectMeta, NodeSelectorRequirement, NodeSelectorTerm, Service,
  PersistentVolumeClaim, PersistentVolume,
}
use tensile_kube.Util.Consts.{global_label, selected_node_key}
use tensile_kube.Util.Conversions.{trim_object_meta}
use tensile_kube.Controllers.Global.{
  is_object_global, set_object_global, filter_common, annotate, filter_service, rename_node,
  filter_pvc, pin_host, pin_all, pin_term, pin_affinity, filter_pv,
}

index_nil-annotate :
    (j k v : String) (meta : ObjectMeta)
    → index_nil j (annotate k v meta).annotations
      ≡ (if k == j then v else index_nil j meta.annotations)
unfolding index_nil index lookup
index_nil-annotate j k v meta = ground (
  arith,
  lookup-insert j k v (make_if_nil meta.annotations),
  index_nil-make_if_nil j meta.annotations,
)

index_nil-filter_common :
    (j : String) (meta : ObjectMeta)
    → index_nil j (filter_common meta).annotations
      ≡ (if global_label == j then "true" else index_nil j meta.annotations)
unfolding filter_common set_object_global trim_object_meta
index_nil-filter_common j meta = index_nil-annotate j global_label "true" (trim_object_meta meta)

-- A service goes down without its selector and its cluster address, unless it is headless; it is marked
-- as global, and its selector is in the annotation `labelSelector`.
filter_service_lem :
    (marshal : Dict String → Option String) (service : Service) (selector : Dict String)
    (text : String)
    → service.selector ≡ some selector
    → marshal selector ≡ some text
    → let (sent, fine) = filter_service marshal service in
      (fine ≡ true)
      × (sent.selector ≡ none)
      × (index_nil "labelSelector" sent.meta.annotations ≡ text)
      × (is_object_global sent.meta ≡ true)
      × (sent.cluster_ip ≡ (if service.cluster_ip == "None" then "None" else ""))
unfolding filter_service is_object_global
filter_service_lem marshal service selector text s m =
    let common = filter_common service.meta in
    rw (s, m, filter_service)
      (
        refl,
        refl,
        index_nil-annotate "labelSelector" "labelSelector" text common,
        ap (λ v. v == "true")
            (index_nil-annotate global_label "labelSelector" text common
              ∙ index_nil-filter_common global_label service.meta),
        ground (arith, eq_iff service.cluster_ip "None"),
      )

-- The renaming of the selected node, on annotations that are marked.
rename_node-marked :
    (host_ip node : String) (meta : ObjectMeta)
    → is_object_global meta ≡ true
    → index_nil selected_node_key meta.annotations ≡ node
    → (is_object_global (rename_node host_ip meta) ≡ true)
      × (index_nil selected_node_key (rename_node host_ip meta).annotations
          ≡ (if node == "" then "" else host_ip))
unfolding rename_node is_object_global
rename_node-marked host_ip node meta g e =
    let marked = index_nil-annotate global_label selected_node_key host_ip meta in
    let named = index_nil-annotate selected_node_key selected_node_key host_ip meta in
    elim (Bool-cases (node == "")) [
      | inl absent ↦ rw (e, absent) (g, e ∙ ground (arith, eq_iff node ""))
      | inr there ↦ rw (e, there) (ap (λ v. v == "true") marked ∙ g, named)
    ]

-- A claim that goes down without an error is marked as global, and names the lower node exactly where it
-- named a node before.
filter_pvc_lem :
    (marshal : String → Option String) (pvc : PersistentVolumeClaim) (host_ip : String)
    → (filter_pvc marshal pvc host_ip).1 ≡ true
    → let sent = (filter_pvc marshal pvc host_ip).0 in
      (is_object_global sent.meta ≡ true)
      × (index_nil selected_node_key sent.meta.annotations
          ≡ (if index_nil selected_node_key pvc.meta.annotations == "" then "" else host_ip))
unfolding filter_pvc is_object_global
filter_pvc_lem marshal pvc host_ip h =
    let common = filter_common pvc.meta in
    let node = index_nil selected_node_key pvc.meta.annotations in
    let marked : is_object_global common ≡ true =
      ap (λ v. v == "true") (index_nil-filter_common global_label pvc.meta) in
    let same = index_nil-filter_common selected_node_key pvc.meta in
    elim (Option-cases pvc.selector) [
      | inl missing ↦ rw (missing, filter_pvc) (rename_node-marked host_ip node common marked same)
      | inr (selector, found) ↦ elim (Option-cases (marshal selector)) [
        | inl failed ↦ ground arith
        | inr (text, written) ↦
            rw (found, written, filter_pvc)
              (rename_node-marked host_ip node (annotate "labelSelector" text common)
                (ap (λ v. v == "true") (index_nil-annotate global_label "labelSelector" text common)
                  ∙ marked)
                (index_nil-annotate selected_node_key "labelSelector" text common ∙ same))
      ]
    ]

pin_host-pin_host :
    (a b : String) (r : NodeSelectorRequirement) → pin_host b (pin_host a r) ≡ pin_host b r
unfolding pin_host
pin_host-pin_host a b r = ground arith

map_absorbs :
    {A : Type 0} (f g : A → A)
    → ((x : A) → f (g x) ≡ f x)
    → (xs : List A) → map f (map g xs) ≡ map f xs
map_absorbs f g h [] = refl
map_absorbs f g h (x ∷ xs) = cc (h x, map_absorbs f g h xs)

pin_all_absorbs :
    {A : Type 0} (f g : A → A) (o : Option (List A))
    → ((x : A) → f (g x) ≡ f x)
    → pin_all f (pin_all g o) ≡ pin_all f o
pin_all_absorbs f g none h = refl
pin_all_absorbs f g (some xs) h = ap some (map_absorbs f g h xs)

pin_term-pin_term : (a b : String) (t : NodeSelectorTerm) → pin_term b (pin_term a t) ≡ pin_term b t
unfolding pin_term
pin_term-pin_term a b t = cc (
  pin_all_absorbs (pin_host b) (pin_host a) t.match_expressions (pin_host-pin_host a b),
  map_absorbs (pin_host b) (pin_host a) (pin_host-pin_host a b) t.match_fields,
)

pin_affinity-pin_affinity :
    (a b : String) (o : Option (Option NodeSelector))
    → pin_affinity b (pin_affinity a o) ≡ pin_affinity b o
unfolding pin_affinity
pin_affinity-pin_affinity a b none = refl
pin_affinity-pin_affinity a b (some none) = refl
pin_affinity-pin_affinity a b (some (some r)) =
    ap (λ ts. some (some (record { terms = ts })))
      (pin_all_absorbs (pin_term b) (pin_term a) r.terms (pin_term-pin_term a b))

-- A volume that is pinned to one node and then to another is as if it had been pinned to the second one
-- alone.
filter_pv-filter_pv :
    (pv : PersistentVolume) (a b : String) → filter_pv (filter_pv pv a) b ≡ filter_pv pv b
unfolding filter_pv trim_object_meta
filter_pv-filter_pv pv a b = rw (pin_affinity-pin_affinity a b pv.node_affinity)
