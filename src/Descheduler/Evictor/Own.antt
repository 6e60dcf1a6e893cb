-- ===== src/Descheduler/Evictor/Own.antt =====
-- The functions of pkg/descheduler/evictions/evictions.go that `EvictPod` does not call:
-- `replacePodNodeNameNodeAffinity` with its `getNodeSelectorRequirement`, a copy of the functions of
-- pkg/util/cache.go for one node, and `evictPod`, which uses the eviction API.
pub mod Copies
use tensile_kube.Prelude.{
  ℕ, String, Bool, true, false, Option, none, some, List, [], ◌∷◌, length, filter_by, if◌then◌else◌,
}
use tensile_kube.Prelude.Run.{Result, ok, err}
use tensile_kube.Api.{
  NodeSelectorRequirement, NodeSelectorTerm, NodeSelector, NodeAffinity, Affinity, Pod, ApiError,
  other,
}
use tensile_kube.Util.Cache.{GoCache}
use tensile_kube.Util.Replace.{is_host_requirement, node_requirement}
use tensile_kube.Controllers.Common.{is_not_found}
use tensile_kube.Descheduler.Evictor.{PodEvictor, own_keeps_value, own_replace_requirement}

module _ {C : Type 0} (g : GoCache C) (pe : PodEvictor C) (now : ℕ)
    (node_name owner_id : String) where
  -- The loop over `term.MatchExpressions`, with the count so far.
  unfoldable pub own_requirements_loop :
      List NodeSelectorRequirement → ℕ → List NodeSelectorRequirement × ℕ
  unfolding own_keeps_value own_replace_requirement
  own_requirements_loop [] count = ([], count)
  own_requirements_loop (me ∷ mes) count =
      let (rest, last) = own_requirements_loop mes (
        if is_host_requirement me
        then length (filter_by (own_keeps_value g pe now node_name owner_id) me.values)
        else count) in
      (own_replace_requirement g pe now node_name owner_id me ∷ rest, last)

  -- The loop over the terms; a term without expressions is dropped.
  unfoldable pub own_terms_loop : List NodeSelectorTerm → ℕ → List NodeSelectorTerm × ℕ
  unfolding own_requirements_loop
  own_terms_loop [] count = ([], count)
  own_terms_loop (term ∷ terms) count = elim term.match_expressions [
    | none ↦ own_terms_loop terms count
    | some mes ↦
        let (expressions, number) = own_requirements_loop mes 0 in
        let (rest, last) = own_terms_loop terms number in
        (record term { match_expressions = some expressions } ∷ rest, last)
  ]

  abbrev own_selector : NodeSelector
  own_selector = record {
    terms = some (
        record {
          match_expressions = some (node_requirement (node_name ∷ []) ∷ []);
          match_fields = [];
        }
        ∷ []);
  }

  unfoldable pub own_replace_terms : NodeSelector → NodeSelector × ℕ
  unfolding own_terms_loop
  own_replace_terms selector = elim selector.terms [
    | none ↦ (
      record {
        terms = some (
            record {
              match_expressions = none;
              match_fields = node_requirement (node_name ∷ []) ∷ [];
            }
            ∷ []);
      },
      1,
    )
    | some terms ↦
        let (new_terms, count) = own_terms_loop terms 1 in
        (record { terms = some new_terms }, count)
  ]

  -- `replacePodNodeNameNodeAffinity`: the affinity as it is returned, and the count.
  unfoldable pub own_replace : Option Affinity → Affinity × ℕ
  unfolding own_replace_terms
  own_replace none = (
    record {
      node_affinity = some (record { required = some own_selector; preferred = none });
      pod_affinity = none;
      pod_anti_affinity = none;
    },
    1,
  )
  own_replace (some affinity) = elim affinity.node_affinity [
    | none ↦ (
      record affinity {
        node_affinity = some (record { required = some own_selector; preferred = none });
      },
      1,
    )
    | some na ↦ elim na.required [
      | none ↦
          (record affinity { node_affinity = some (record na { required = some own_selector }) }, 1)
      | some selector ↦
          let (new_selector, count) = own_replace_terms selector in
          (
            record affinity { node_affinity = some (record na { required = some new_selector }) },
            count,
          )
    ]
  ]

-- `policy.Eviction`, with its delete options; both are written out at each eviction.
pub record Eviction : Type 0 where
  pub api_version : String
  pub kind : String
  pub name : String
  pub namespace : String
  pub grace_period_seconds : ℕ
  pub propagation_policy : String

-- `evictPod`: the eviction that is sent, and the error. `kind` is a constant of the upstream
-- descheduler, and `too_many` is `apierrors.IsTooManyRequests`.
module _ (kind : String) (too_many : ApiError → Bool)
    (evict : Eviction → Result ApiError (Unit {0})) where
  abbrev pub eviction_of : Pod → String → Eviction
  eviction_of pod policy_group_version = record {
    api_version = policy_group_version;
    kind = kind;
    name = pod.meta.name;
    namespace = pod.meta.namespace;
    grace_period_seconds = 0;
    propagation_policy = "Foreground";
  }

  unfoldable pub evict_by_api : Pod → String → Bool → Option Eviction × Option ApiError
  evict_by_api pod policy_group_version true = (none, none)
  evict_by_api pod policy_group_version false = (
    some (eviction_of pod policy_group_version),
    elim (evict (eviction_of pod policy_group_version)) [
      | ok u ↦ none
      | err e ↦
          if too_many e
          then some (other "error when evicting pod (ignoring)")
          else if is_not_found e
          then some (other "pod not found when evicting")
          else some e
    ],
  )
