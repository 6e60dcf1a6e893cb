-- ===== src/Descheduler/Loop.antt =====
-- `Run` and `RunDeschedulerStrategies` of pkg/descheduler/descheduler.go: the start and the loop.
pub mod Stops
use tensile_kube.Prelude.{
  ℕ, zero, suc, ◌+◌, String, Bool, true, false, Option, none, some, List, [], ◌∷◌, ◌==◌,
  if◌then◌else◌, leb, nat_beq, length,
}
use tensile_kube.Prelude.Dict.{Dict, lookup}
use tensile_kube.Prelude.Run.{Result, ok, err}
use tensile_kube.Api.{Pod, ApiError, other}
use tensile_kube.Util.Cache.{GoCache}
use tensile_kube.Descheduler.Evictor.{PodEvictor, Answers}
use tensile_kube.Descheduler.Lifetime.{new_pod_evictor, pod_life_time, next_round}

pub record Strategy : Type 0 where
  pub enabled : Bool
  pub max_pod_life_time_seconds : Option ℕ

-- The policy file, and the flags.
pub record Settings : Type 0 where
  pub strategies : Dict Strategy
  pub max_pods_to_evict : ℕ
  pub descheduling_interval : ℕ
  pub base : Pod → Bool

-- What a round meets: the time, the ready nodes, the pods on a node, the answers to its evictions, and
-- the fresh pointer under which a pod without a node is evicted.
pub record Round : Type 0 where
  pub now : ℕ
  pub ready_nodes : Result ApiError (List String)
  pub listed : String → Result ApiError (List Pod)
  pub answers : Pod → Answers
  pub fresh : Pod → String

-- What a round leaves: the count, the freeze cache, the evictor of a round that got so far, and whether
-- the stop channel is closed.
pub record RoundEnd (C : Type 0) : Type 0 where
  pub count : ℕ
  pub cache : Dict C
  pub evictor : Option (PodEvictor C)
  pub stops : Bool

-- A missing key reads as the zero value, which is not enabled.
unfoldable pub strategy_of : Dict Strategy → Strategy
strategy_of strategies = elim (lookup "PodLifeTime" strategies) [
  | none ↦ record { enabled = false; max_pod_life_time_seconds = none }
  | some strategy ↦ strategy
]

module _ {C : Type 0} (g : GoCache C) (settings : Settings) where
  unfoldable pub run_strategies : Round → Bool → List String → PodEvictor C → PodEvictor C
  unfolding strategy_of pod_life_time
  run_strategies w check nodes evictor =
      let strategy = strategy_of settings.strategies in
      if strategy.enabled
      then pod_life_time g w.answers w.now settings.base w.listed w.fresh check
          strategy.max_pod_life_time_seconds nodes evictor
      else evictor

  -- The function that `wait.Until` calls.
  unfoldable pub run_round : Round → ℕ → Dict C → RoundEnd C
  unfolding run_strategies new_pod_evictor next_round
  run_round w count cache = elim w.ready_nodes [
    | err e ↦ record { count = count + 1; cache = cache; evictor = none; stops = true }
    | ok nodes ↦
        if leb (length nodes) 1
        then record { count = count + 1; cache = cache; evictor = none; stops = true }
        else (let evictor =
              run_strategies w (next_round count).1 nodes
                (new_pod_evictor settings.max_pods_to_evict nodes cache) in
            record {
              count = (next_round count).0;
              cache = evictor.cache;
              evictor = some evictor;
              stops = nat_beq settings.descheduling_interval 0;
            })
  ]

  -- The evictor of a round, before those of the rounds after it.
  abbrev pub push : Option (PodEvictor C) → List (PodEvictor C) → List (PodEvictor C)
  push none rest = rest
  push (some evictor) rest = evictor ∷ rest

  -- The first rounds of `wait.Until`, from one on: their evictors, and whether the channel was closed in one
  -- of them, which ends the loop. It looks at the channel before each round. The first argument is
  -- the number of rounds that are looked at; a loop without an end is seen through any number of them.
  unfoldable pub run_rounds : ℕ → (ℕ → Round) → ℕ → ℕ → Dict C → List (PodEvictor C) × Bool
  run_rounds zero worlds at count cache = ([], false)
  run_rounds (suc fuel) worlds at count cache =
      let end = run_round (worlds at) count cache in
      let (evictors, ended) = run_rounds fuel worlds (suc at) end.count end.cache in
      if end.stops then (push end.evictor [], true) else (push end.evictor evictors, ended)

-- The start: the client, the policy file and the version of the eviction API. `none` starts the loop;
-- a server without the eviction API ends `Run` with no error.
unfoldable pub start_error :
    Result ApiError (Unit {0})
    → Result ApiError (Option (Dict Strategy))
    → Result ApiError String
    → Option (Option ApiError)
start_error (err e) policy version = some (some e)
start_error (ok u) (err e) version = some (some e)
start_error (ok u) (ok none) version = some (some (other "deschedulerPolicy is nil"))
start_error (ok u) (ok (some policy)) (err e) = some (some e)
start_error (ok u) (ok (some policy)) (ok version) = if version == "" then some none else none
