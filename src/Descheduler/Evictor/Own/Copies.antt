-- ===== src/Descheduler/Evictor/Own/Copies.antt =====
-- The evictor's own replacement of the affinity against the one of pkg/util/cache.go.
use tensile_kube.Prelude.{
  ℕ, String, ◌≡◌, refl, sym, subst, false, not, Option, none, some, List, [], ◌∷◌, filter_by, arith,
  ◌==◌, eq_iff, Bool-cases, inl, inr, Option-cases,
}
use tensile_kube.Api.{NodeSelectorRequirement, NodeSelectorTerm, Affinity}
use tensile_kube.Util.Cache.{GoCache}
use tensile_kube.Util.Replace.{
  CheckValidFunc, keeps_value, replace_values, replace_requirement, requirements_loop,
  get_node_selector_requirement, terms_loop, replace_pod_node_name_node_affinity,
}
use tensile_kube.Descheduler.Evictor.{
  PodEvictor, is_node_freeze, own_keeps_value, own_replace_requirement,
}
use tensile_kube.Descheduler.Evictor.Own.{
  own_requirements_loop, own_terms_loop, own_replace_terms, own_replace,
}

module _ {C : Type 0} (g : GoCache C) (pe : PodEvictor C) (now : ℕ) (node_name owner_id : String)
    (named : (node_name == "") ≡ false)
    (no_empty : is_node_freeze g pe.cache now "" owner_id pe.freeze_duration ≡ false) where
  -- The test of `EvictPod`, negated.
  abbrev thawed : CheckValidFunc
  thawed v owner expire = not (is_node_freeze g pe.cache now v owner expire)

  own_keeps_value-keeps_value :
      (v : String)
      → own_keeps_value g pe now node_name owner_id v
        ≡ keeps_value (some thawed) owner_id pe.freeze_duration (node_name ∷ []) v
  unfolding own_keeps_value keeps_value
  own_keeps_value-keeps_value v = elim (Bool-cases (v == "")) [
    | inl empty ↦
        let at_empty : is_node_freeze g pe.cache now v owner_id pe.freeze_duration ≡ false =
          subst (λ w. is_node_freeze g pe.cache now w owner_id pe.freeze_duration ≡ false)
            (sym ((eq_iff v "").0 empty)) no_empty in
        ground (arith, at_empty, eq_iff v node_name, eq_iff node_name v)
    | inr given ↦ ground (arith, given, eq_iff v node_name, eq_iff node_name v)
  ]

  kept-replace_values :
      (vs : List String)
      → filter_by (own_keeps_value g pe now node_name owner_id) vs
        ≡ replace_values (some thawed) owner_id pe.freeze_duration (node_name ∷ []) vs
  unfolding replace_values
  kept-replace_values [] = refl
  kept-replace_values (v ∷ vs) = rw (own_keeps_value-keeps_value v, kept-replace_values vs) refl

  own_requirements_loop-requirements_loop :
      (mes : List NodeSelectorRequirement) (count : ℕ)
      → own_requirements_loop g pe now node_name owner_id mes count
        ≡ requirements_loop (some thawed) owner_id pe.freeze_duration (node_name ∷ []) mes count
  unfolding own_requirements_loop requirements_loop own_replace_requirement replace_requirement
  own_requirements_loop-requirements_loop [] count = refl
  own_requirements_loop-requirements_loop (me ∷ mes) count =
      rw (kept-replace_values me.values, named, own_requirements_loop-requirements_loop mes) refl

  own_terms_loop-terms_loop :
      (terms : List NodeSelectorTerm) (count : ℕ)
      → own_terms_loop g pe now node_name owner_id terms count
        ≡ terms_loop (some thawed) owner_id pe.freeze_duration (node_name ∷ []) terms count
  unfolding own_terms_loop terms_loop get_node_selector_requirement
  own_terms_loop-terms_loop [] count = refl
  own_terms_loop-terms_loop (term ∷ terms) count = elim (Option-cases term.match_expressions) [
    | inl missing ↦ rw missing (own_terms_loop-terms_loop terms count)
    | inr (mes, present) ↦
        rw (present, own_requirements_loop-requirements_loop mes 0, own_terms_loop-terms_loop terms)
          refl
  ]

  -- For one node with a name, and where the empty name is not frozen for the owner, the evictor's own
  -- `replacePodNodeNameNodeAffinity` is the one of the package util with the test of `EvictPod` negated.
  own_replace-replace :
      (affinity : Option Affinity)
      → own_replace g pe now node_name owner_id affinity
        ≡ replace_pod_node_name_node_affinity
            (some thawed)
            owner_id
            pe.freeze_duration
            (node_name ∷ [])
            affinity
  unfolding own_replace own_replace_terms replace_pod_node_name_node_affinity
  own_replace-replace none = refl
  own_replace-replace (some affinity) = elim (Option-cases affinity.node_affinity) [
    | inl missing ↦ rw missing refl
    | inr (na, present) ↦ elim (Option-cases na.required) [
      | inl unset ↦ rw (present, unset) refl
      | inr (selector, required) ↦ elim (Option-cases selector.terms) [
        | inl empty ↦ rw (present, required, empty) refl
        | inr (terms, listed) ↦
            rw (present, required, listed, own_terms_loop-terms_loop terms 1) refl
      ]
    ]
  ]
