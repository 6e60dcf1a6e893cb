-- ===== src/Tests/Loops.antt =====
-- The loop of the descheduler, when the third round finds one node only.
use tensile_kube.Prelude.{ℕ, ◌≡◌, ◌↔◌, ◌⊎◌, true, some, [], ◌∷◌, ltb, nat_beq, if◌then◌else◌}
use tensile_kube.Prelude.Run.{ok}
use tensile_kube.Api.{Pod}
use tensile_kube.Util.Cache.Memory.{memory_cache}
use tensile_kube.Descheduler.Loop.{Settings, Round, run_rounds}
use tensile_kube.Descheduler.Loop.Stops.{is_last, run_rounds-ends}
use tensile_kube.Tests.{web_pod, all_well}

abbrev pending_pod : Pod
pending_pod = record web_pod { status = record web_pod.status { phase = "Pending" } }

abbrev settings : Settings
settings = record {
  strategies =
      ("PodLifeTime", record { enabled = true; max_pod_life_time_seconds = some 300 }) ∷ [];
  max_pods_to_evict = 2;
  descheduling_interval = 30;
  base = λ p. true;
}

abbrev worlds : ℕ → Round
worlds k = record {
  now = 1000;
  ready_nodes = if ltb k 2 then ok ("node-1" ∷ "node-2" ∷ []) else ok ("node-1" ∷ []);
  listed = λ node. ok (pending_pod ∷ pending_pod ∷ pending_pod ∷ []);
  answers = λ p. all_well;
  fresh = λ p. "";
}

run_rounds-ends_example :
    ((fuel : ℕ) × ((run_rounds memory_cache settings fuel worlds 0 0 []).1 ≡ true))
    ↔ ((nat_beq 30 0 ≡ true) ⊎ ((k : ℕ) × (is_last (worlds k) ≡ true)))
run_rounds-ends_example = run_rounds-ends memory_cache settings worlds 0 []
