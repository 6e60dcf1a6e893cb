-- ===== src/Util/Replace/Excludes.antt =====
-- Which nodes the replaced affinity admits, by the meaning of a node affinity in Kubernetes: a node has to
-- match one of the terms, and a term without expressions and fields matches no node.
use tensile_kube.Prelude.{
  ℕ, String, ◌≡◌, ◌∙◌, refl, Bool, true, false, not, ◌&&◌, ◌||◌, Option, none, some, List, [], ◌∷◌,
  ◌++◌, arith, eq_iff, if◌then◌else◌, contains, filter_by, length, Option-cases, inl, inr,
}
use tensile_kube.Api.{NodeSelectorRequirement, NodeSelectorTerm, NodeSelector, Affinity}
use tensile_kube.Util.Replace.{
  CheckValidFunc, is_host_requirement, node_requirement, keeps_value, replace_values,
  replace_requirement, requirements_loop, terms_loop, replace_required, replace_node_affinity,
  replace_pod_node_name_node_affinity,
}

-- A node: its label `kubernetes.io/hostname`, and what else it meets: any other expression, among them
-- `hostname In _`, and any field.
pub record Node : Type 0 where
  pub host : String
  pub meets : NodeSelectorRequirement → Bool
  pub meets_field : NodeSelectorRequirement → Bool

abbrev is_nil {ℓ} : {A : Type ℓ} → List A → Bool
is_nil [] = true
is_nil (x ∷ xs) = false

abbrev pub meets_expression : Node → NodeSelectorRequirement → Bool
meets_expression n me =
    if is_host_requirement me then not (contains n.host me.values) else n.meets me

abbrev pub meets_all : Node → List NodeSelectorRequirement → Bool
meets_all n [] = true
meets_all n (me ∷ mes) = meets_expression n me && meets_all n mes

abbrev pub meets_fields : Node → List NodeSelectorRequirement → Bool
meets_fields n [] = true
meets_fields n (f ∷ fs) = n.meets_field f && meets_fields n fs

abbrev pub admits_term : Node → List NodeSelectorRequirement → List NodeSelectorRequirement → Bool
admits_term n mes fs = not (is_nil mes && is_nil fs) && (meets_all n mes && meets_fields n fs)

abbrev pub admits_any : Node → List NodeSelectorTerm → Bool
admits_any n [] = false
admits_any n (t ∷ ts) =
    elim t.match_expressions [
      | none ↦ admits_term n [] t.match_fields
      | some mes ↦ admits_term n mes t.match_fields
    ]
    || admits_any n ts

abbrev admits_selector : Node → Option NodeSelector → Bool
admits_selector n none = true
admits_selector n (some s) = elim s.terms [ none ↦ false | some ts ↦ admits_any n ts ]

abbrev pub admits : Node → Affinity → Bool
admits n a = elim a.node_affinity [ none ↦ true | some na ↦ admits_selector n na.required ]

abbrev pub names_host : List NodeSelectorRequirement → Bool
names_host [] = false
names_host (me ∷ mes) = is_host_requirement me || names_host mes

pub contains-append :
    (s : String) (xs ys : List String) → contains s (xs ++ ys) ≡ (contains s xs || contains s ys)
contains-append s [] ys = refl
contains-append s (x ∷ xs) ys = ground (arith, contains-append s xs ys)

pub contains-filter_by :
    (p : String → Bool) (s : String) (xs : List String)
    → contains s (filter_by p xs) ≡ (contains s xs && p s)
contains-filter_by p s [] = refl
contains-filter_by p s (x ∷ xs) = ground (arith, eq_iff x s, contains-filter_by p s xs)

module _ (names : List String) (n : Node) where
  -- What a term admits afterwards: what it did, but for a node to avoid where it names the host.
  abbrev pub still_admits_any : List NodeSelectorTerm → Bool
  still_admits_any [] = false
  still_admits_any (t ∷ ts) =
      elim t.match_expressions [
        | none ↦ false
        | some mes ↦
            admits_term n mes t.match_fields && not (contains n.host names && names_host mes)
      ]
      || still_admits_any ts

  abbrev still_admits_selector : Option NodeSelector → Bool
  still_admits_selector none = not (contains n.host names)
  still_admits_selector (some s) = elim s.terms [
    | none ↦ n.meets_field (node_requirement names)
    | some ts ↦ still_admits_any ts
  ]

  abbrev pub still_admits : Option Affinity → Bool
  still_admits none = not (contains n.host names)
  still_admits (some a) = elim a.node_affinity [
    | none ↦ not (contains n.host names)
    | some na ↦ still_admits_selector na.required
  ]

module _ (check : Option CheckValidFunc) (owner : String) (expire : ℕ) (names : List String)
    (n : Node)
    (known : (contains n.host names || keeps_value check owner expire names n.host) ≡ true) where
  values-replace :
      (vs : List String)
      → contains n.host (replace_values check owner expire names vs ++ names)
        ≡ (contains n.host vs || contains n.host names)
  unfolding replace_values
  values-replace vs =
      contains-append n.host (replace_values check owner expire names vs) names
      ∙ ground (arith, contains-filter_by (keeps_value check owner expire names) n.host vs)

  meets_all-requirements_loop :
      (mes : List NodeSelectorRequirement) (count : ℕ)
      → meets_all n (requirements_loop check owner expire names mes count).0
        ≡ (meets_all n mes && not (contains n.host names && names_host mes))
  unfolding requirements_loop replace_requirement
  meets_all-requirements_loop [] count = ground arith
  meets_all-requirements_loop (me ∷ mes) count =
      let counted =
        if is_host_requirement me
        then length (replace_values check owner expire names me.values)
        else count in
      ground (arith, values-replace me.values, meets_all-requirements_loop mes counted)

  is_nil-requirements_loop :
      (mes : List NodeSelectorRequirement) (count : ℕ)
      → is_nil (requirements_loop check owner expire names mes count).0 ≡ is_nil mes
  unfolding requirements_loop
  is_nil-requirements_loop [] count = refl
  is_nil-requirements_loop (me ∷ mes) count = refl

  admits_any-terms_loop :
      (ts : List NodeSelectorTerm) (count : ℕ)
      → admits_any n (terms_loop check owner expire names ts count).0 ≡ still_admits_any names n ts
  unfolding terms_loop
  admits_any-terms_loop [] count = refl
  admits_any-terms_loop (t ∷ ts) count = elim (Option-cases t.match_expressions) [
    | inl missing ↦ rw missing (admits_any-terms_loop ts count)
    | inr (mes, found) ↦ rw found (
        ground (
          arith,
          meets_all-requirements_loop mes 0,
          is_nil-requirements_loop mes 0,
          admits_any-terms_loop ts (requirements_loop check owner expire names mes 0).1,
        ))
  ]

  admits_selector-replace_required :
      (r : Option NodeSelector)
      → admits_selector n (some (replace_required check owner expire names r).0)
        ≡ still_admits_selector names n r
  unfolding replace_required
  admits_selector-replace_required none = ground arith
  admits_selector-replace_required (some s) = elim (Option-cases s.terms) [
    | inl missing ↦ ground arith
    | inr (ts, found) ↦ ground (arith, admits_any-terms_loop ts 1)
  ]

  -- For a node that is to be avoided, or that the check does not drop (`known`), the new affinity admits the
  -- node exactly where, without a node selector before, it is not to be avoided, and otherwise some term
  -- of the old selector that has expressions admitted it and, if it is to be avoided, has no `hostname
  -- NotIn` expression. A selector without a list of terms becomes one that asks for a field.
  pub admits-replace :
      (affinity : Option Affinity)
      → admits n (replace_pod_node_name_node_affinity check owner expire names affinity).0
        ≡ still_admits names n affinity
  unfolding replace_pod_node_name_node_affinity replace_node_affinity
  admits-replace none = ground arith
  admits-replace (some a) = elim (Option-cases a.node_affinity) [
    | inl missing ↦ rw missing (ground arith)
    | inr (na, found) ↦ rw found (admits_selector-replace_required na.required)
  ]
