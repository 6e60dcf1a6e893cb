-- ===== src/Webhook/Mutate/Avoided.antt =====
-- The node affinity of a pod that is created while nodes are frozen for its owner, from
-- `ReplacePodNodeNameNodeAffinity` through `inject`.
use tensile_kube.Prelude.{
  String, ◌≡◌, refl, ◌∙◌, true, false, Option, none, some, List, [], ◌∷◌, map, arith, eq_iff, ◌==◌,
  contains, Option-cases, inl, inr, Bool-cases,
}
use tensile_kube.Prelude.Run.{done}
use tensile_kube.Util.Consts.{Json, ClustersNodeSelection}
use tensile_kube.Api.{NodeSelectorRequirement, NodeSelectorTerm, NodeSelector, Affinity, Pod}
use tensile_kube.Util.Consts.{host_name_key}
use tensile_kube.Util.Replace.{is_host_requirement, replace_pod_node_name_node_affinity}
use tensile_kube.Util.Replace.Excludes.{Node, admits}
use tensile_kube.Webhook.Affinity.{list_of, is_nil, inject_affinity, required_of, is_empty_term}
use tensile_kube.Webhook.Affinity.Partition.{keeps}
use tensile_kube.Webhook.Affinity.Terms.{nonempty, left_term, stays, inject_affinity-split}
use tensile_kube.Webhook.Inject.{
  skip_inject, split_affinity, split_pod, store_selection, inject, PvcLister, try_set_node_name,
  first_node,
}
use tensile_kube.Webhook.Mutate.Barred.{
  can_avoid, bars, bars_terms, IsBarred, IsBarred-admits, bars_terms-fields, replace-IsBarred,
}

module _ (n : Node) where
  module _ (keys : List String) (ignored : contains host_name_key keys ≡ true) where
    host-stays :
        (me : NodeSelectorRequirement) → is_host_requirement me ≡ true → stays keys me ≡ true
    host-stays me h =
        let same : me.key ≡ host_name_key = (eq_iff me.key host_name_key).0 (ground arith) in
        rw (same, ignored) refl

    bars-keeps :
        (mes : List NodeSelectorRequirement)
        → bars n mes ≡ true
        → bars n (keeps (stays keys) mes) ≡ true
    bars-keeps [] h = h
    bars-keeps (me ∷ mes) h = elim (Bool-cases (is_host_requirement me)) [
      | inl host ↦ ground (arith, host-stays me host, bars-keeps mes)
      | inr another ↦ ground (arith, bars-keeps mes)
    ]

    left_term-full :
        (t : NodeSelectorTerm)
        → bars n (list_of t.match_expressions) ≡ true
        → (bars n (list_of (left_term (stays keys) t).match_expressions) ≡ true)
          × (is_empty_term (left_term (stays keys) t) ≡ false)
    left_term-full t h = elim (Option-cases t.match_expressions) [
      | inl missing ↦ ground arith
      | inr (mes, found) ↦
          let kept = bars-keeps mes (ground arith) in
          rw found (kept, full (keeps (stays keys) mes) kept)
    ]
      where
        full : (mes : List NodeSelectorRequirement) → bars n mes ≡ true → is_nil mes ≡ false
        full [] e = ground arith
        full (me ∷ mes) e = refl

    left_terms-full :
        (ts : List NodeSelectorTerm)
        → bars_terms n ts ≡ true
        → (bars_terms n (nonempty (map (left_term (stays keys)) ts)) ≡ true)
          × (is_nil (nonempty (map (left_term (stays keys)) ts)) ≡ is_nil ts)
    left_terms-full [] h = (refl, refl)
    left_terms-full (t ∷ ts) h =
        let (barred, full) = left_term-full t (ground arith) in
        let rest = (left_terms-full ts (ground arith)).0 in rw full (ground arith, refl)

    required_of-some :
        (ts : List NodeSelectorTerm)
        → bars_terms n ts ≡ true
        → is_nil ts ≡ false
        → (s : NodeSelector) × (required_of ts ≡ some s) × (s.terms ≡ some ts)
    unfolding required_of
    required_of-some [] h e = ground arith
    required_of-some (t ∷ ts) h e = (_, refl, refl)

    inject_affinity-IsBarred :
        (a : Affinity)
        → IsBarred n a
        → (left : Affinity) × (taken : Option Affinity) × (inject_affinity a keys
            ≡ done (left, taken))
          × (admits n left ≡ false)
    inject_affinity-IsBarred a (na, s, ts, found, required, there, some_term, barred) =
        let terms : list_of s.terms ≡ ts = rw there refl in
        let (after, same) = left_terms-full ts barred in
        let (left, e, listed) = required_of-some _ after (same ∙ some_term) in
        let split =
          inject_affinity-split a na s keys found required
            (rw terms (bars_terms-fields n ts barred)) in
        let na' = record na {
          required = required_of (nonempty (map (left_term (stays keys)) (list_of s.terms)));
        } in
        (
          record a { node_affinity = some na' },
          _,
          split,
          IsBarred-admits n (record a { node_affinity = some na' })
              (na', left, _, refl, rw terms e, listed, same ∙ some_term, after),
        )

module _ (json : Json) where
  store_selection-affinity :
      (pod : Pod) (cns : ClustersNodeSelection)
      → (store_selection json pod cns).spec.affinity ≡ pod.spec.affinity
  unfolding store_selection
  store_selection-affinity pod cns = elim (Option-cases (json.marshal_selection cns)) [
    | inl failed ↦ rw (failed, store_selection) refl
    | inr (text, stored) ↦ rw (stored, store_selection) refl
  ]

  skip_inject-affinity :
      (pod : Pod) (a : Affinity) → pod.spec.affinity ≡ some a → skip_inject pod ≡ false
  unfolding skip_inject
  skip_inject-affinity pod a set = ground arith

  inject-affinity :
      (pod : Pod) (keys : List String) (a left : Affinity) (taken : Option Affinity)
      → pod.spec.affinity ≡ some a
      → inject_affinity a keys ≡ done (left, taken)
      → (final : Pod) × (inject json pod keys ≡ done final) × (final.spec.affinity ≡ some left)
  unfolding inject split_pod split_affinity
  inject-affinity pod keys a left taken set split =
      rw (skip_inject-affinity pod a set, set, split) (_, refl, store_selection-affinity _ _)

  try_set_node_name-affinity :
      (lister : PvcLister) (pod : Pod)
      → (try_set_node_name lister pod).spec.affinity ≡ pod.spec.affinity
  unfolding try_set_node_name
  try_set_node_name-affinity lister pod = elim (Option-cases pod.spec.volumes) [
    | inl unset ↦ rw (unset, try_set_node_name) refl
    | inr (vs, there) ↦ elim (Bool-cases (first_node lister pod.meta.namespace vs == "")) [
      | inl nowhere ↦ rw (there, nowhere, try_set_node_name) refl
      | inr bound ↦ rw (there, bound, try_set_node_name) refl
    ]
  ]

  -- A pod whose affinity was replaced so as to avoid some nodes: what `inject` leaves of it does not admit
  -- a node that has the name of one of them.
  pub inject-replaced :
      (n : Node) (lister : PvcLister) (keys : List String) (owner : String) (names : List String)
      (pod clone : Pod)
      → contains host_name_key keys ≡ true
      → contains n.host names ≡ true
      → can_avoid pod.spec.affinity ≡ true
      → clone.spec.affinity
        ≡ some (replace_pod_node_name_node_affinity none owner 0 names pod.spec.affinity).0
      → (final : Pod) × (left : Affinity) × (inject json (try_set_node_name lister clone) keys
          ≡ done final)
        × (final.spec.affinity ≡ some left)
        × (admits n left ≡ false)
  inject-replaced n lister keys owner names pod clone ignored listed can set =
      let a = (replace_pod_node_name_node_affinity none owner 0 names pod.spec.affinity).0 in
      let (left, taken, split, ruled_out) =
        inject_affinity-IsBarred n keys ignored a
          (replace-IsBarred n none owner 0 names listed pod.spec.affinity can) in
      let (final, run, kept) =
        inject-affinity (try_set_node_name lister clone) keys a left taken
          (try_set_node_name-affinity lister clone ∙ set) split in
      (final, left, run, kept, ruled_out)
