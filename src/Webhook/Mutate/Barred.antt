-- ===== src/Webhook/Mutate/Barred.antt =====
-- `ReplacePodNodeNameNodeAffinity` of pkg/util: when all terms of the new affinity rule a node out.
use tensile_kube.Prelude.{
  ℕ, String, ◌≡◌, refl, Bool, true, false, not, ◌&&◌, ◌||◌, Option, none, some, List, [], ◌∷◌,
  arith, if◌then◌else◌, contains, length, All, Option-cases, inl, inr, Bool-cases,
}
use tensile_kube.Api.{
  NodeSelectorRequirement, NodeSelectorTerm, NodeSelector, NodeAffinity, Affinity,
}
use tensile_kube.Util.Replace.{
  CheckValidFunc, is_host_requirement, replace_values, replace_requirement, requirements_loop,
  terms_loop, replace_required, replace_node_affinity, replace_pod_node_name_node_affinity,
}
use tensile_kube.Util.Replace.Excludes.{
  Node, meets_all, admits_any, admits, names_host, contains-append,
}
use tensile_kube.Webhook.Affinity.{list_of, is_nil}

-- Every term names the host in a `hostname NotIn` expression and has no fields.
abbrev pub all_avoidable : List NodeSelectorTerm → Bool
all_avoidable [] = true
all_avoidable (t ∷ ts) =
    elim t.match_expressions [ none ↦ false | some mes ↦ names_host mes && is_nil t.match_fields ]
    && all_avoidable ts

abbrev avoidable_terms : NodeSelector → Bool
avoidable_terms s = elim s.terms [ none ↦ false | some ts ↦ not (is_nil ts) && all_avoidable ts ]

-- There is no required node affinity, or one with terms, all of which can be made to avoid a node.
abbrev pub can_avoid : Option Affinity → Bool
can_avoid none = true
can_avoid (some a) = elim a.node_affinity [
  | none ↦ true
  | some na ↦ elim na.required [ none ↦ true | some s ↦ avoidable_terms s ]
]

module _ (n : Node) where
  -- A `hostname NotIn` expression rules the node out.
  abbrev pub bars : List NodeSelectorRequirement → Bool
  bars [] = false
  bars (me ∷ mes) = (is_host_requirement me && contains n.host me.values) || bars mes

  abbrev pub bars_terms : List NodeSelectorTerm → Bool
  bars_terms [] = true
  bars_terms (t ∷ ts) =
      is_nil t.match_fields && (bars (list_of t.match_expressions) && bars_terms ts)

  -- The terms of the required node affinity, of which there is one at least, all rule the node out.
  abbrev pub IsBarred : Affinity → Type 0
  IsBarred a =
      (na : NodeAffinity) × (s : NodeSelector) × (ts : List NodeSelectorTerm) × (a.node_affinity
        ≡ some na)
      × (na.required ≡ some s)
      × (s.terms ≡ some ts)
      × (is_nil ts ≡ false)
      × (bars_terms ts ≡ true)

  bars-meets_all : (mes : List NodeSelectorRequirement) → bars mes ≡ true → meets_all n mes ≡ false
  bars-meets_all [] h = ground arith
  bars-meets_all (me ∷ mes) h = ground (arith, bars-meets_all mes)

  bars_terms-admits_any :
      (ts : List NodeSelectorTerm) → bars_terms ts ≡ true → admits_any n ts ≡ false
  bars_terms-admits_any [] h = refl
  bars_terms-admits_any (t ∷ ts) h = elim (Option-cases t.match_expressions) [
    | inl missing ↦ ground arith
    | inr (mes, found) ↦ ground (arith, bars-meets_all mes, bars_terms-admits_any ts)
  ]

  pub bars_terms-fields :
      (ts : List NodeSelectorTerm)
      → bars_terms ts ≡ true
      → All (λ (t : NodeSelectorTerm). t.match_fields ≡ []) ts
  bars_terms-fields [] h = tt
  bars_terms-fields (t ∷ ts) h =
      (nil t.match_fields (ground arith), bars_terms-fields ts (ground arith))
    where
      nil : (fs : List NodeSelectorRequirement) → is_nil fs ≡ true → fs ≡ []
      nil [] e = refl
      nil (x ∷ xs) e = ground arith

  pub IsBarred-admits : (a : Affinity) → IsBarred a → admits n a ≡ false
  IsBarred-admits a (na, s, ts, found, required, there, some_term, barred) =
      rw (found, required, there) (bars_terms-admits_any ts barred)

  module _ (check : Option CheckValidFunc) (owner : String) (expire : ℕ) (names : List String)
      (listed : contains n.host names ≡ true) where
    bars-requirements_loop :
        (mes : List NodeSelectorRequirement) (count : ℕ)
        → names_host mes ≡ true
        → bars (requirements_loop check owner expire names mes count).0 ≡ true
    unfolding requirements_loop replace_requirement
    bars-requirements_loop [] count h = ground arith
    bars-requirements_loop (me ∷ mes) count h =
        let counted =
          if is_host_requirement me
          then length (replace_values check owner expire names me.values)
          else count in
        let added =
          contains-append n.host (replace_values check owner expire names me.values) names in
        elim (Bool-cases (is_host_requirement me)) [
          | inl host ↦ ground arith
          | inr another ↦
              let rest = bars-requirements_loop mes counted (ground arith) in ground arith
        ]

    bars_terms-terms_loop :
        (ts : List NodeSelectorTerm) (count : ℕ)
        → all_avoidable ts ≡ true
        → (bars_terms (terms_loop check owner expire names ts count).0 ≡ true)
          × (is_nil (terms_loop check owner expire names ts count).0 ≡ is_nil ts)
    unfolding terms_loop
    bars_terms-terms_loop [] count h = (refl, refl)
    bars_terms-terms_loop (t ∷ ts) count h = elim (Option-cases t.match_expressions) [
      | inl missing ↦ ground arith
      | inr (mes, found) ↦
          let last = (requirements_loop check owner expire names mes 0).1 in
          let first = bars-requirements_loop mes 0 (ground arith) in
          let rest = (bars_terms-terms_loop ts last (ground arith)).0 in
          rw found (ground arith, refl)
    ]

    pub replace-IsBarred :
        (affinity : Option Affinity)
        → can_avoid affinity ≡ true
        → IsBarred (replace_pod_node_name_node_affinity check owner expire names affinity).0
    unfolding replace_pod_node_name_node_affinity replace_node_affinity replace_required
    replace-IsBarred none can = (_, _, _, refl, refl, refl, refl, ground arith)
    replace-IsBarred (some a) can = elim (Option-cases a.node_affinity) [
      | inl missing ↦ rw missing (_, _, _, refl, refl, refl, refl, ground arith)
      | inr (na, found) ↦ elim (Option-cases na.required) [
        | inl unset ↦ rw (found, unset) (_, _, _, refl, refl, refl, refl, ground arith)
        | inr (s, required) ↦ elim (Option-cases s.terms) [
          | inl empty ↦ ground arith
          | inr (ts, there) ↦
              let (barred, same) = bars_terms-terms_loop ts 1 (ground arith) in
              rw (found, required, there) (_, _, _, refl, refl, refl, ground arith, barred)
        ]
      ]
    ]
