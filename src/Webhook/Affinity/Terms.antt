-- ===== src/Webhook/Affinity/Terms.antt =====
-- `injectAffinity` on terms without match fields: what stays in the pod and what is stored.
use tensile_kube.Prelude.{
  String, ◌≡◌, refl, fun_ext, Bool, not, ◌&&◌, some, List, [], ◌∷◌, map, arith, eq_iff, ◌==◌,
  if◌then◌else◌, contains, filter_by, All, Bool-cases, inl, inr, ◌∙◌,
}
use tensile_kube.Prelude.Dict.{
  Dict, lookup, insert, index-some, index-none, lookup-nil, lookup-insert,
}
use tensile_kube.Prelude.Run.{done}
use tensile_kube.Api.{
  NodeSelectorRequirement, NodeSelectorTerm, NodeSelector, NodeAffinity, Affinity,
}
use tensile_kube.Webhook.Affinity.{
  label_map, is_ignored, list_of, nil_if_empty, keep_nil, is_empty_term, inject_term, inject_terms,
  required_of, taken_affinity, inject_required, inject_node_affinity, inject_affinity,
}
use tensile_kube.Webhook.Affinity.Partition.{keeps, takes, cut_expressions-filter}

lookup-label_map :
    (j : String) (vs : List String) (m : Dict String)
    → lookup j (label_map vs m) ≡ (if contains j vs then some j else lookup j m)
unfolding label_map
lookup-label_map j [] m = refl
lookup-label_map j (v ∷ vs) m =
    ground (arith, eq_iff v j, lookup-insert j v v m, lookup-label_map j vs (insert v v m))

-- `labelMap[key] != ""` holds of the ignored labels, but never of an empty one.
is_ignored_lem :
    (ignore_labels : List String) (key : String)
    → is_ignored ignore_labels key ≡ (contains key ignore_labels && not (key == ""))
unfolding is_ignored
is_ignored_lem ignore_labels key = elim (Bool-cases (contains key ignore_labels)) [
  | inl listed ↦
      rw
        (
          listed,
          index-some key key (label_map ignore_labels [])
              (lookup-label_map key ignore_labels [] ∙ rw listed),
        )
        refl
  | inr unlisted ↦
      rw
        (
          unlisted,
          index-none key (label_map ignore_labels [])
              (lookup-label_map key ignore_labels [] ∙ rw (unlisted, lookup-nil {V = String} key)),
        )
        refl
]

abbrev pub nonempty : List NodeSelectorTerm → List NodeSelectorTerm
nonempty = filter_by (λ t. not (is_empty_term t))

module _ (kept : NodeSelectorRequirement → Bool) where
  abbrev pub left_term : NodeSelectorTerm → NodeSelectorTerm
  left_term t = record {
    match_expressions = keep_nil t.match_expressions (keeps kept (list_of t.match_expressions));
    match_fields = [];
  }

  abbrev pub taken_term : NodeSelectorTerm → NodeSelectorTerm
  taken_term t = record {
    match_expressions = nil_if_empty (takes kept (list_of t.match_expressions));
    match_fields = [];
  }

  inject_term_lem :
      (t : NodeSelectorTerm)
      → t.match_fields ≡ []
      → inject_term kept t ≡ done (left_term t, taken_term t)
  unfolding inject_term
  inject_term_lem t h =
      let (c, run, left, taken, count) =
        cut_expressions-filter kept (list_of t.match_expressions) in
      rw (run, h, left, taken)

  inject_terms_lem :
      (ts : List NodeSelectorTerm)
      → All (λ t. t.match_fields ≡ []) ts
      → inject_terms kept ts ≡ done (nonempty (map left_term ts), nonempty (map taken_term ts))
  unfolding inject_terms
  inject_terms_lem [] h = refl
  inject_terms_lem (t ∷ ts) h = rw (inject_term_lem t h.0, inject_terms_lem ts h.1) (ground arith)

-- The test by which an expression stays in the pod.
abbrev pub stays : List String → NodeSelectorRequirement → Bool
stays ignore_labels r = contains r.key ignore_labels && not (r.key == "")

-- On a node affinity whose terms have no match fields, `injectAffinity` does not panic. It leaves in
-- the pod the expressions on ignored labels and returns the others, term by term and in order,
-- each without the terms that came out empty; where none is left, or none was taken, the
-- selector or the result is nil.
pub inject_affinity-split :
    (affinity : Affinity) (na : NodeAffinity) (s : NodeSelector) (ignore_labels : List String)
    → affinity.node_affinity ≡ some na
    → na.required ≡ some s
    → All (λ t. t.match_fields ≡ []) (list_of s.terms)
    → inject_affinity affinity ignore_labels
      ≡ done (
        record affinity {
          node_affinity = some (record na {
            required =
                required_of (nonempty (map (left_term (stays ignore_labels)) (list_of s.terms)));
          });
        },
        taken_affinity (nonempty (map (taken_term (stays ignore_labels)) (list_of s.terms))),
      )
unfolding inject_affinity
inject_affinity-split affinity na s ignore_labels e r h =
    let tests : (λ r. is_ignored ignore_labels r.key) ≡ stays ignore_labels =
      fun_ext (λ r. is_ignored_lem ignore_labels r.key) in
    rw (e, inject_node_affinity, r, inject_required, tests)
      (rw (inject_terms_lem (stays ignore_labels) (list_of s.terms) h))
