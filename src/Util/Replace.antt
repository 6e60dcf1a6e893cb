-- ===== src/Util/Replace.antt =====
-- `ReplacePodNodeNameNodeAffinity` of pkg/util/cache.go: the node affinity of a re-created pod, with
-- the nodes to avoid. The affinity that is passed in is changed in place; the result is that value.
pub mod Excludes
use tensile_kube.Prelude.{
  ℕ, String, Bool, true, false, not, ◌&&◌, ◌||◌, Option, none, some, List, [], ◌∷◌, ◌++◌, ◌==◌,
  if◌then◌else◌, contains, filter_by, length,
}
use tensile_kube.Api.{
  NodeSelectorRequirement, NodeSelectorTerm, NodeSelector, NodeAffinity, Affinity,
}
use tensile_kube.Util.Consts.{host_name_key}

-- `CheckValidFunc`: node, owner and expire time.
abbrev pub CheckValidFunc : Type 0
CheckValidFunc = String → String → ℕ → Bool

-- `v1.NodeSelectorOpNotIn`
abbrev pub not_in : String
not_in = "NotIn"

abbrev pub node_requirement : List String → NodeSelectorRequirement
node_requirement names = record { key = host_name_key; operator = not_in; values = names }

-- `!(me.Key != nodeSelReq.Key || me.Operator != nodeSelReq.Operator)`
abbrev pub is_host_requirement : NodeSelectorRequirement → Bool
is_host_requirement me = (me.key == host_name_key) && (me.operator == not_in)

module _ (check : Option CheckValidFunc) (owner_id : String) (expire : ℕ)
    (names : List String) where
  -- The test of the loop over `me.Values`.
  unfoldable pub keeps_value : String → Bool
  keeps_value v =
      if contains v names
      then false
      else elim check [ none ↦ true | some f ↦ not (f v owner_id expire) && not (v == "") ]

  unfoldable pub replace_values : List String → List String
  replace_values = filter_by keeps_value

  unfoldable pub replace_requirement : NodeSelectorRequirement → NodeSelectorRequirement
  unfolding replace_values
  replace_requirement me =
      if is_host_requirement me
      then record me { values = replace_values me.values ++ names }
      else me

  -- `getNodeSelectorRequirement`, from the count that is reached so far.
  unfoldable pub requirements_loop :
      List NodeSelectorRequirement → ℕ → List NodeSelectorRequirement × ℕ
  unfolding replace_requirement
  requirements_loop [] count = ([], count)
  requirements_loop (me ∷ mes) count =
      let (rest, last) =
        requirements_loop mes
          (if is_host_requirement me then length (replace_values me.values) else count) in
      (replace_requirement me ∷ rest, last)

  unfoldable pub get_node_selector_requirement :
      List NodeSelectorRequirement → List NodeSelectorRequirement × ℕ
  unfolding requirements_loop
  get_node_selector_requirement mes = requirements_loop mes 0

  term_count : Option (List NodeSelectorRequirement) → ℕ → ℕ
  unfolding get_node_selector_requirement
  term_count none count = count
  term_count (some mes) count = (get_node_selector_requirement mes).1

  push_term : NodeSelectorTerm → List NodeSelectorTerm → List NodeSelectorTerm
  unfolding get_node_selector_requirement
  push_term term rest = elim term.match_expressions [
    | none ↦ rest
    | some mes ↦
        record term { match_expressions = some (get_node_selector_requirement mes).0 } ∷ rest
  ]

  -- The loop over the terms; a term without expressions is dropped.
  unfoldable pub terms_loop : List NodeSelectorTerm → ℕ → List NodeSelectorTerm × ℕ
  unfolding term_count push_term
  terms_loop [] count = ([], count)
  terms_loop (term ∷ terms) count =
      let (rest, last) = terms_loop terms (term_count term.match_expressions count) in
      (push_term term rest, last)

  abbrev fresh_selector : NodeSelector
  fresh_selector = record {
    terms =
        some (
          record { match_expressions = some (node_requirement names ∷ []); match_fields = [] }
          ∷ []);
  }

  abbrev field_selector : NodeSelector
  field_selector = record {
    terms =
        some (record { match_expressions = none; match_fields = node_requirement names ∷ [] } ∷ []);
  }

  unfoldable pub replace_required : Option NodeSelector → NodeSelector × ℕ
  unfolding terms_loop
  replace_required none = (fresh_selector, 1)
  replace_required (some s) = elim s.terms [
    | none ↦ (field_selector, 1)
    | some terms ↦ (record { terms = some (terms_loop terms 1).0 }, (terms_loop terms 1).1)
  ]

  unfoldable pub replace_node_affinity : Option NodeAffinity → NodeAffinity × ℕ
  unfolding replace_required
  replace_node_affinity none = (record { required = some fresh_selector; preferred = none }, 1)
  replace_node_affinity (some na) =
      let (selector, count) = replace_required na.required in
      (record na { required = some selector }, count)

  unfoldable pub replace_pod_node_name_node_affinity : Option Affinity → Affinity × ℕ
  unfolding replace_node_affinity
  replace_pod_node_name_node_affinity none = (
    record {
      node_affinity = some (record { required = some fresh_selector; preferred = none });
      pod_affinity = none;
      pod_anti_affinity = none;
    },
    1,
  )
  replace_pod_node_name_node_affinity (some affinity) =
      let (na, count) = replace_node_affinity affinity.node_affinity in
      (record affinity { node_affinity = some na }, count)
