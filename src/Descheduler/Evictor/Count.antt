-- ===== src/Descheduler/Evictor/Count.antt =====
-- The count of evictions per node, when the evictions run one after the other.
use tensile_kube.Prelude.{
  ℕ, ◌+◌, ◌≤◌, ◌<◌, String, ◌≡◌, [], arith, eq_iff, ◌==◌, if◌then◌else◌, Bool-cases, inl, inr,
}
use tensile_kube.Prelude.Dict.{lookup-insert}
use tensile_kube.Api.{Pod}
use tensile_kube.Util.Cache.{GoCache}
use tensile_kube.Descheduler.Evictor.{
  PodEvictor, node_evicted, Answers, Outcome, evicted, not_recreated, limit_reached, failed,
  new_affinity, replace_pod, over_limit, count_eviction, freeze, evict_pod,
}

-- 1 for an eviction, and 0 for any other outcome.
abbrev pub one_if_evicted : Outcome → ℕ
one_if_evicted evicted = 1
one_if_evicted not_recreated = 0
one_if_evicted limit_reached = 0
one_if_evicted (failed e) = 0

one_if_evicted-le : (o : Outcome) → one_if_evicted o ≤ 1
one_if_evicted-le evicted = omega arith
one_if_evicted-le not_recreated = omega arith
one_if_evicted-le limit_reached = omega arith
one_if_evicted-le (failed e) = omega arith

module _ {C : Type 0} (g : GoCache C) where
  node_evicted-count_eviction :
      (o : Outcome) (node other : String) (pe : PodEvictor C)
      → node_evicted (count_eviction g o node pe) other ≡ (
          if node == other then node_evicted pe other + one_if_evicted o else node_evicted pe other)
  unfolding count_eviction node_evicted
  node_evicted-count_eviction evicted node other pe = ground (
    arith,
    eq_iff node other,
    lookup-insert other node (node_evicted pe node + 1) pe.nodepod_count,
  )
  node_evicted-count_eviction not_recreated node other pe = ground arith
  node_evicted-count_eviction limit_reached node other pe = ground arith
  node_evicted-count_eviction (failed e) node other pe = ground arith

  -- `EvictPod` adds one to the count of its node exactly when it reports success, and changes no other
  -- node's count.
  evict_pod-count :
      (answers : Answers) (now : ℕ) (pod : Pod) (node other : String) (pe : PodEvictor C)
      → node_evicted (evict_pod g answers now pod node pe).2 other ≡ (
          if node == other
          then node_evicted pe other + one_if_evicted (evict_pod g answers now pod node pe).0
          else node_evicted pe other)
  unfolding evict_pod
  evict_pod-count answers now pod node other pe =
      let frozen = freeze g now pod pe in
      let outcome = (replace_pod answers pod (new_affinity g frozen now pod)).0 in
      elim (Bool-cases (over_limit g pe node)) [
        | inl over ↦ rw over (ground arith)
        | inr under ↦ rw under (node_evicted-count_eviction outcome node other frozen)
      ]

  -- With a positive limit, evictions that run one after the other never take the count of a node past
  -- `maxPodsToEvict`, whatever the API server answers.
  pub evict_pod-le-limit :
      (answers : Answers) (now : ℕ) (pod : Pod) (node other : String) (pe : PodEvictor C)
      → 0 < pe.max_pods_to_evict
      → node_evicted pe other ≤ pe.max_pods_to_evict
      → node_evicted (evict_pod g answers now pod node pe).2 other ≤ pe.max_pods_to_evict
  unfolding evict_pod
  evict_pod-le-limit answers now pod node other pe positive within =
      let frozen = freeze g now pod pe in
      let outcome = (replace_pod answers pod (new_affinity g frozen now pod)).0 in
      elim (Bool-cases (over_limit g pe node)) [
        | inl over ↦ rw over within
        | inr under ↦ rw under (
            ground (
              arith,
              eq_iff node other,
              one_if_evicted-le outcome,
              node_evicted-count_eviction outcome node other frozen,
            ))
      ]

  -- At the limit `EvictPod` makes no call and changes nothing.
  evict_pod-limit_reached :
      (answers : Answers) (now : ℕ) (pod : Pod) (node : String) (pe : PodEvictor C)
      → 0 < pe.max_pods_to_evict
      → pe.max_pods_to_evict ≤ node_evicted pe node
      → evict_pod g answers now pod node pe ≡ (limit_reached, [], pe)
  unfolding evict_pod
  evict_pod-limit_reached answers now pod node pe positive full = ground arith
