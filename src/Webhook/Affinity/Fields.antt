-- ===== src/Webhook/Affinity/Fields.antt =====
-- The loop over the match fields takes the count of the expressions from its index.
use tensile_kube.Prelude.{
  ℕ, ◌<◌, String, ◌≡◌, refl, Bool, false, some, List, [], ◌∷◌, ◌++◌, arith, length,
}
use tensile_kube.Prelude.Run.{bind-panic, panic}
use tensile_kube.Api.{NodeSelectorRequirement, NodeSelectorTerm, NodeAffinity, Affinity}
use tensile_kube.Webhook.Affinity.{
  Cut, start_cut, splice, cut_fields, list_of, inject_term, inject_terms, is_ignored,
  inject_required, inject_node_affinity, inject_affinity,
}
use tensile_kube.Webhook.Affinity.Partition.{takes, cut_expressions-filter}

module _ (kept : NodeSelectorRequirement → Bool) where
  -- The term has an expression to take, and its first match field is to be taken too.
  pub record Mixed (t : NodeSelectorTerm) : Type 0 where
    pub some_taken : 0 < length (takes kept (list_of t.match_expressions))
    pub field : NodeSelectorRequirement
    pub fields : List NodeSelectorRequirement
    pub first : t.match_fields ≡ field ∷ fields
    pub field_taken : kept field ≡ false

  cut_fields-panic :
      (n : ℕ) (f : NodeSelectorRequirement) (fs : List NodeSelectorRequirement) (c : Cut)
      → 0 < n
      → kept f ≡ false
      → cut_fields kept n 0 (f ∷ fs) c ≡ panic
  unfolding cut_fields splice
  cut_fields-panic n f fs c positive cut = ground arith

  inject_term-panic : (t : NodeSelectorTerm) → Mixed t → inject_term kept t ≡ panic
  unfolding inject_term
  inject_term-panic t m =
      let (c, run, left, taken, count) =
        cut_expressions-filter kept (list_of t.match_expressions) in
      let positive : 0 < c.count = omega (arith, count, m.some_taken) in
      rw
        (
          run,
          m.first,
          cut_fields-panic c.count m.field m.fields (start_cut (m.field ∷ m.fields)) positive
              m.field_taken,
        )
        refl

  inject_terms-panic :
      (before after : List NodeSelectorTerm) (t : NodeSelectorTerm)
      → Mixed t
      → inject_terms kept (before ++ (t ∷ after)) ≡ panic
  unfolding inject_terms
  inject_terms-panic [] after t m = rw (inject_term-panic t m)
  inject_terms-panic (b ∷ before) after t m =
      bind-panic (inject_term kept b) _ (λ x. rw (inject_terms-panic before after t m))

-- A term that has an expression off the ignored labels, and whose first match field is off them as
-- well, makes `injectAffinity` panic, wherever the term stands among the terms: the front part of
-- the deleted field's slice ends at a negative index.
pub inject_affinity-panic :
    (affinity : Affinity) (na : NodeAffinity) (ignore_labels : List String)
    (before after : List NodeSelectorTerm) (t : NodeSelectorTerm)
    → affinity.node_affinity ≡ some na
    → na.required ≡ some (record { terms = some (before ++ (t ∷ after)) })
    → Mixed (λ r. is_ignored ignore_labels r.key) t
    → inject_affinity affinity ignore_labels ≡ panic
unfolding inject_affinity
inject_affinity-panic affinity na ignore_labels before after t e r m =
    rw (e, inject_node_affinity, r, inject_required)
      (rw (inject_terms-panic (λ r. is_ignored ignore_labels r.key) before after t m))
