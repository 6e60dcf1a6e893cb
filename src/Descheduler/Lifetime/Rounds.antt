-- ===== src/Descheduler/Lifetime/Rounds.antt =====
-- What a round of the descheduler evicts, and how many.
use tensile_kube.Prelude.{
  ℕ, zero, suc, ◌-◌, ◌%◌, ◌≤◌, ◌<◌, String, ◌≡◌, refl, ◌∙◌, sym, subst, Bool, ◌&&◌, ◌||◌, Option,
  none, some, List, [], ◌∷◌, arith, ◌==◌, ltb, nat_beq, filter_by, any_by, Bool-cases, inl, inr,
}
use tensile_kube.Prelude.Dict.{Dict, lookup}
use tensile_kube.Prelude.Run.{Result, ok}
use tensile_kube.Api.{Pod, ApiError}
use tensile_kube.Util.Cache.{GoCache}
use tensile_kube.Descheduler.Evictor.{
  PodEvictor, node_evicted, Answers, evict_pod, freeze, count_eviction,
}
use tensile_kube.Descheduler.Evictor.Count.{evict_pod-le-limit}
use tensile_kube.Descheduler.Lifetime.{
  new_pod_evictor, is_evictable, list_evictable_pods_on_node, is_unschedulable, old_pods,
  list_old_pods_on_node, evict_all, on_nodes, without_node, pod_life_time, next_round,
}

module _ (base : Pod → Bool) (now max_age : ℕ) where
  -- A pod that a round evicts: evictable, pending, and too old or unschedulable.
  abbrev pub is_due : Pod → Bool
  is_due pod =
      (base pod && (pod.status.phase == "Pending"))
      && (ltb max_age (now - pod.meta.creation_timestamp)
          || any_by (is_unschedulable base) pod.status.conditions)

  old_pods-filter_by :
      (pods : List Pod)
      → old_pods base now max_age (filter_by (is_evictable base) pods) ≡ filter_by is_due pods
  unfolding old_pods is_evictable
  old_pods-filter_by [] = refl
  old_pods-filter_by (pod ∷ pods) = ground (arith, old_pods-filter_by pods)

  -- The pods that are evicted on a node are exactly the listed ones that the upstream test allows, that
  -- are pending, and that are older than the limit or unschedulable, in the order of the list.
  list_old_pods-filter_by :
      (pods : List Pod) → list_old_pods_on_node base now max_age (ok pods) ≡ filter_by is_due pods
  unfolding list_old_pods_on_node list_evictable_pods_on_node
  list_old_pods-filter_by pods = old_pods-filter_by pods

pub node_evicted-new :
    {C : Type 0} (max : ℕ) (nodes : List String) (cache : Dict C) (node : String)
    → node_evicted (new_pod_evictor max nodes cache) node ≡ 0
unfolding node_evicted new_pod_evictor lookup
node_evicted-new max [] cache node = refl
node_evicted-new max (n ∷ nodes) cache node = ground (arith, node_evicted-new max nodes cache node)

module _ {C : Type 0} (g : GoCache C) (answers : Pod → Answers) (now : ℕ) where
  evict_pod-max :
      (pod : Pod) (node : String) (pe : PodEvictor C)
      → (evict_pod g (answers pod) now pod node pe).2.max_pods_to_evict ≡ pe.max_pods_to_evict
  unfolding evict_pod freeze count_eviction
  evict_pod-max pod node pe = ground arith

  evict_all-le-limit :
      (max : ℕ) (due : List (String × Pod)) (pe : PodEvictor C) (other : String)
      → 0 < max
      → pe.max_pods_to_evict ≡ max
      → node_evicted pe other ≤ max
      → (node_evicted (evict_all g answers now due pe) other ≤ max)
        × ((evict_all g answers now due pe).max_pods_to_evict ≡ max)
  unfolding evict_all
  evict_all-le-limit max [] pe other positive same within = (within, same)
  evict_all-le-limit max ((node, pod) ∷ due) pe other positive same within =
      let next = (evict_pod g (answers pod) now pod node pe).2 in
      evict_all-le-limit max due next other positive (evict_pod-max pod node pe ∙ same) (
        subst (λ m. node_evicted next other ≤ m) same
          (evict_pod-le-limit g (answers pod) now pod node other pe
            (subst (λ m. 0 < m) (sym same) positive)
            (subst (λ m. node_evicted pe other ≤ m) (sym same) within)))

  -- A whole round, with a new evictor, evicts at most `maxPodsToEvict` pods under the pointer of any
  -- node, when its evictions run one after the other, whatever the API server lists and answers.
  pub pod_life_time-le-limit :
      (base : Pod → Bool) (listed : String → Result ApiError (List Pod)) (fresh : Pod → String)
      (check_unschedulable : Bool) (max_age : Option ℕ) (nodes : List String) (max : ℕ)
      (cache : Dict C) (other : String)
      → 0 < max
      → node_evicted
          (pod_life_time g answers now base listed fresh check_unschedulable max_age nodes
            (new_pod_evictor max nodes cache))
          other
        ≤ max
  unfolding pod_life_time new_pod_evictor
  pod_life_time-le-limit base listed fresh check none nodes max cache other positive =
      ground (arith, node_evicted-new max nodes cache other)
  pod_life_time-le-limit base listed fresh check (some max_age) nodes max cache other positive =
      let fresh_evictor = new_pod_evictor max nodes cache in
      let first =
        evict_all-le-limit max (on_nodes g answers now base listed max_age nodes) fresh_evictor
          other positive refl (ground (arith, node_evicted-new max nodes cache other)) in
      elim (Bool-cases check) [
        | inl checks ↦
            rw (checks)
              (evict_all-le-limit max (without_node g answers now base listed fresh max_age)
                (evict_all g answers now (on_nodes g answers now base listed max_age nodes)
                  fresh_evictor)
                other positive first.1 first.0).0
        | inr skips ↦ rw (skips) first.0
      ]

-- The counter after a number of rounds.
abbrev pub after_rounds : ℕ → ℕ
after_rounds zero = 0
after_rounds (suc n) = (next_round (after_rounds n)).0

round_count : (c n : ℕ) → c ≡ n % 10 → (next_round c).0 ≡ suc n % 10
unfolding next_round
round_count c n h = ground arith

round_flag : (c n : ℕ) → c ≡ n % 10 → (next_round c).1 ≡ nat_beq (suc n % 10) 0
unfolding next_round
round_flag c n h = ground arith

-- The counter is the number of rounds modulo ten, and exactly every tenth round looks at the pods
-- without a node.
next_round-tenth :
    (n : ℕ) → (after_rounds n ≡ n % 10) × ((next_round (after_rounds n)).1 ≡ nat_beq (suc n % 10) 0)
unfolding next_round
next_round-tenth zero = (refl, refl)
next_round-tenth (suc n) =
    let same = (next_round-tenth n).0 in
    let counted = round_count (after_rounds n) n same in
    (counted, round_flag (next_round (after_rounds n)).0 (suc n) counted)
