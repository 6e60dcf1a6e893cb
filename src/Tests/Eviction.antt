-- ===== src/Tests/Eviction.antt =====
-- The evictor, at concrete pods and nodes.
use tensile_kube.Prelude.{ℕ, ◌≡◌, ◌+◌, ◌<◌, some, refl, [], ◌∷◌, arith}
use tensile_kube.Prelude.Dict.{Dict, lookup, insert}
use tensile_kube.Api.{Affinity}
use tensile_kube.Util.Cache.{add, get_freeze_time}
use tensile_kube.Util.Cache.Memory.{memory_cache}
use tensile_kube.Util.Replace.{node_requirement}
use tensile_kube.Descheduler.Evictor.{PodEvictor, is_node_freeze}
use tensile_kube.Descheduler.Evictor.Own.{own_replace}
use tensile_kube.Descheduler.Evictor.Concurrent.{Reach, concurrent_bound, concurrent_overrun}
use tensile_kube.Tests.{affinity_of}

-- With a limit of two and three workers, four pods are evicted.
overrun : Reach 2 3 (record { counted = 4; in_flight = 0 })
overrun = concurrent_overrun 2 3 1 refl (omega arith)

concurrent_overrun_example : Reach 2 3 (record { counted = 1 + 3; in_flight = 0 })
concurrent_overrun_example = concurrent_overrun 2 3 1 refl (omega arith)

concurrent_bound_example : 4 < 2 + 3
concurrent_bound_example = concurrent_bound 2 3 (omega arith) overrun

-- An evictor that has frozen one of the two nodes which a pod avoids.
abbrev frozen_evictor : PodEvictor (Dict ℕ)
frozen_evictor = record {
  max_pods_to_evict = 2;
  nodepod_count = [];
  freeze_duration = 300;
  cache = add memory_cache 90 "node-2" "owner-1" [];
}

abbrev avoided : Affinity
avoided = affinity_of (record {
  match_expressions = some (node_requirement ("node-2" ∷ "node-3" ∷ []) ∷ []);
  match_fields = [];
})

-- The frozen node is kept, and the other one dropped.
avoided_afterwards :
    own_replace memory_cache frozen_evictor 100 "node-1" "owner-1" (some avoided) ≡ (
      affinity_of (record {
        match_expressions = some (node_requirement ("node-2" ∷ "node-1" ∷ []) ∷ []);
        match_fields = [];
      }),
      1,
    )
unfolding own_replace is_node_freeze get_freeze_time lookup add insert
avoided_afterwards = refl
