-- ===== src/Descheduler/Lifetime.antt =====
-- pkg/descheduler/strategies/pod_lifetime.go, pkg/descheduler/pod/pods.go and the loop of
-- pkg/descheduler/descheduler.go: which pods are evicted in a round.
pub mod Rounds
use Prim.Native.String.{◌++◌ as ◌<>◌}
use tensile_kube.Prelude.{
  ℕ, ◌+◌, ◌-◌, ◌*◌, ◌%◌, String, Bool, true, false, ◌&&◌, ◌||◌, Option, none, some, List, [], ◌∷◌,
  ◌++◌, map, ◌==◌, if◌then◌else◌, ltb, nat_beq, filter_by, any_by,
}
use tensile_kube.Prelude.Dict.{Dict}
use tensile_kube.Prelude.Run.{Result, ok, err}
use tensile_kube.Api.{Condition, Pod, ApiError}
use tensile_kube.Util.Cache.{GoCache}
use tensile_kube.Descheduler.Evictor.{PodEvictor, Answers, evict_pod}

-- `NewPodEvictor` of pkg/descheduler/evictions/evictions.go; a node is the pointer that keys the counts.
-- `nodeNum`, which nothing reads, and the recorder of events are left out.
unfoldable pub new_pod_evictor : {C : Type 0} → ℕ → List String → Dict C → PodEvictor C
new_pod_evictor max_pods_to_evict nodes cache = record {
  max_pods_to_evict = max_pods_to_evict;
  nodepod_count = map (λ node. (node, 0)) nodes;
  freeze_duration = 300;
  cache = cache;
}

-- `ListPodsOnANode`. The library parses the text of the selector and prints it again, and `list` is the
-- API server's answer for pods of all namespaces.
unfoldable pub list_pods_on_a_node :
    {Selector : Type 0}
    → (String → Result ApiError Selector)
    → (Selector → String)
    → (String → Result ApiError (List Pod))
    → String
    → Result ApiError (List Pod)
list_pods_on_a_node parse print list node =
    elim (parse ("spec.nodeName=" <> node <> ",status.phase=" <> "Pending")) [
      | err e ↦ err e
      | ok selector ↦ elim (list (print selector)) [ err e ↦ err e | ok pods ↦ ok pods ]
    ]

-- `base` is the test of the upstream descheduler, with the flag for local storage.
module _ (base : Pod → Bool) where
  unfoldable pub is_evictable : Pod → Bool
  is_evictable pod =
      if base pod then (if pod.status.phase == "Pending" then true else false) else false

  -- `listed` is the API server's list of the pending pods on the node.
  unfoldable pub list_evictable_pods_on_node :
      Result ApiError (List Pod) → Result ApiError (List Pod)
  unfolding is_evictable
  list_evictable_pods_on_node (err e) = err e
  list_evictable_pods_on_node (ok pods) = ok (filter_by is_evictable pods)

  abbrev pub is_unschedulable : Condition → Bool
  is_unschedulable c =
      (c.type == "PodScheduled")
      && ((c.reason == "Unschedulable") || (c.reason == "SchedulerError"))

  -- The age is in seconds; no pod is made after `now`.
  unfoldable pub old_pods : ℕ → ℕ → List Pod → List Pod
  old_pods now max_age [] = []
  old_pods now max_age (pod ∷ pods) =
      let rest = old_pods now max_age pods in
      if ltb max_age (now - pod.meta.creation_timestamp)
      then pod ∷ rest
      else if any_by is_unschedulable pod.status.conditions
      then pod ∷ rest
      else rest

  unfoldable pub list_old_pods_on_node : ℕ → ℕ → Result ApiError (List Pod) → List Pod
  unfolding list_evictable_pods_on_node old_pods
  list_old_pods_on_node now max_age listed = elim (list_evictable_pods_on_node listed) [
    | err e ↦ []
    | ok pods ↦ old_pods now max_age pods
  ]

module _ {C : Type 0} (g : GoCache C) (answers : Pod → Answers) (now : ℕ) where
  -- The evictions, one after the other: each pod with the node whose count it is under.
  unfoldable pub evict_all : List (String × Pod) → PodEvictor C → PodEvictor C
  unfolding evict_pod
  evict_all [] pe = pe
  evict_all ((node, pod) ∷ rest) pe = evict_all rest (evict_pod g (answers pod) now pod node pe).2

  module _ (base : Pod → Bool) (listed : String → Result ApiError (List Pod)) where
    unfoldable pub on_nodes : ℕ → List String → List (String × Pod)
    unfolding list_old_pods_on_node
    on_nodes max_age [] = []
    on_nodes max_age (node ∷ nodes) =
        map (λ pod. (node, pod)) (list_old_pods_on_node base now max_age (listed node))
        ++ on_nodes max_age nodes

    -- The pods without a node; each is evicted for a node of its own, `fresh pod`.
    unfoldable pub without_node : (Pod → String) → ℕ → List (String × Pod)
    unfolding list_old_pods_on_node
    without_node fresh max_age =
        map (λ pod. (fresh pod, pod)) (list_old_pods_on_node base now (max_age * 3) (listed ""))

    unfoldable pub pod_life_time :
        (Pod → String) → Bool → Option ℕ → List String → PodEvictor C → PodEvictor C
    unfolding evict_all on_nodes without_node
    pod_life_time fresh check_unschedulable none nodes pe = pe
    pod_life_time fresh check_unschedulable (some max_age) nodes pe =
        let done_nodes = evict_all (on_nodes max_age nodes) pe in
        if check_unschedulable
        then evict_all (without_node fresh max_age) done_nodes
        else done_nodes

-- One round of the loop: the counter, and whether the pods without a node are looked at.
unfoldable pub next_round : ℕ → ℕ × Bool
next_round count =
    if nat_beq ((count + 1) % 10) 0 then ((count + 1) % 10, true) else (count + 1, false)
