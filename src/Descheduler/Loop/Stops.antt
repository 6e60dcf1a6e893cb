-- ===== src/Descheduler/Loop/Stops.antt =====
-- When the loop of the descheduler ends, and what its rounds evict.
use tensile_kube.Prelude.{
  ℕ, zero, suc, ◌+◌, ◌≤◌, String, ◌≡◌, ◌∙◌, sym, ap, subst, ◌||◌, ◌↔◌, ◌⊎◌, inl, inr, refl, Bool,
  true, Option, none, some, List, arith, leb, nat_beq, length, Bool-cases,
}
use tensile_kube.Prelude.Dict.{Dict}
use tensile_kube.Prelude.Run.{Result, ok, err}
use tensile_kube.Api.{ApiError}
use tensile_kube.Util.Cache.{GoCache}
use tensile_kube.Descheduler.Evictor.{PodEvictor, node_evicted}
use tensile_kube.Descheduler.Loop.{Settings, Round, run_round, run_rounds}

-- The ready nodes cannot be listed, or there is one at most.
abbrev pub is_last : Round → Bool
is_last w = elim w.ready_nodes [ err e ↦ true | ok nodes ↦ leb (length nodes) 1 ]

module _ {C : Type 0} (g : GoCache C) (settings : Settings) where
  run_round-stops :
      (w : Round) (count : ℕ) (cache : Dict C)
      → (run_round g settings w count cache).stops
        ≡ (is_last w || nat_beq settings.descheduling_interval 0)
  unfolding run_round
  run_round-stops w count cache = go w.ready_nodes refl
    where
      go :
          (r : Result ApiError (List String))
          → w.ready_nodes ≡ r
          → (run_round g settings w count cache).stops
            ≡ (is_last w || nat_beq settings.descheduling_interval 0)
      go (err e) f = rw (f) refl
      go (ok nodes) f = elim (Bool-cases (leb (length nodes) 1)) [
        | inl few ↦ rw (f, few) refl
        | inr more ↦ rw (f, more) refl
      ]

  moved :
      (worlds : ℕ → Round) (m n : ℕ)
      → m ≡ n
      → (is_last (worlds m) || nat_beq settings.descheduling_interval 0) ≡ true
      → (is_last (worlds n) || nat_beq settings.descheduling_interval 0) ≡ true
  moved worlds m n same h =
      subst (λ n. (is_last (worlds n) || nat_beq settings.descheduling_interval 0) ≡ true) same h

  at_zero :
      (worlds : ℕ → Round) (k : ℕ)
      → is_last (worlds k) ≡ true
      → (is_last (worlds (k + 0)) || nat_beq settings.descheduling_interval 0) ≡ true
  at_zero worlds k last = moved worlds k (k + 0) (omega arith) (ground arith)

  -- The run from a round on ends with the next round that stops it.
  stops_by :
      (worlds : ℕ → Round) (k at count : ℕ) (cache : Dict C)
      → (is_last (worlds (k + at)) || nat_beq settings.descheduling_interval 0) ≡ true
      → (run_rounds g settings (suc k) worlds at count cache).1 ≡ true
  unfolding run_rounds
  stops_by worlds zero at count cache h =
      rw (run_round-stops (worlds at) count cache ∙ moved worlds _ at (omega arith) h, run_rounds)
        refl
  stops_by worlds (suc k) at count cache h =
      let end = run_round g settings (worlds at) count cache in
      let later =
        stops_by worlds k (suc at) end.count end.cache (moved worlds _ _ (omega arith) h) in
      elim (Bool-cases end.stops) [
        | inl stop ↦ rw (stop, run_rounds) refl
        | inr goes ↦ rw (goes, run_rounds) later
      ]

  ends_by :
      (worlds : ℕ → Round) (fuel at count : ℕ) (cache : Dict C)
      → (run_rounds g settings fuel worlds at count cache).1 ≡ true
      → (nat_beq settings.descheduling_interval 0 ≡ true) ⊎ ((k : ℕ) × (is_last (worlds k) ≡ true))
  unfolding run_rounds
  ends_by worlds zero at count cache h = cc
  ends_by worlds (suc fuel) at count cache h =
      let end = run_round g settings (worlds at) count cache in
      elim (Bool-cases end.stops) [
        | inl stop ↦
            stopped (worlds at) at (sym (run_round-stops (worlds at) count cache) ∙ stop) refl
        | inr goes ↦ ends_by worlds fuel (suc at) end.count end.cache (rw (goes, run_rounds) at h)
      ]
    where
      stopped :
          (w : Round) (k : ℕ)
          → (is_last w || nat_beq settings.descheduling_interval 0) ≡ true
          → worlds k ≡ w
          → (nat_beq settings.descheduling_interval 0 ≡ true)
            ⊎ ((k : ℕ) × (is_last (worlds k) ≡ true))
      stopped w k h same = elim (Bool-cases (is_last w)) [
        | inl last ↦ inr (k, ap is_last same ∙ last)
        | inr early ↦ inl (ground arith)
      ]

  -- The loop ends exactly where no interval is set, or some round cannot list the ready nodes or finds one
  -- node at most.
  pub run_rounds-ends :
      (worlds : ℕ → Round) (count : ℕ) (cache : Dict C)
      → ((fuel : ℕ) × ((run_rounds g settings fuel worlds 0 count cache).1 ≡ true)) ↔ (
          (nat_beq settings.descheduling_interval 0 ≡ true)
          ⊎ ((k : ℕ) × (is_last (worlds k) ≡ true)))
  run_rounds-ends worlds count cache = (
    λ (fuel, h). ends_by worlds fuel 0 count cache h,
    λ e. elim e [
      | inl once ↦ (1, stops_by worlds 0 0 count cache (ground arith))
      | inr (k, last) ↦ (suc k, stops_by worlds k 0 count cache (at_zero worlds k last))
    ],
  )

  -- No node, under the pointer that keys its count, has lost more pods than allowed.
  abbrev pub IsWithin : String → PodEvictor C → Type 0
  IsWithin node evictor = node_evicted evictor node ≤ settings.max_pods_to_evict

  -- The evictor of a round, if it has one.
  abbrev Fine : String → Option (PodEvictor C) → Type 0
  Fine node none = Unit
  Fine node (some evictor) = IsWithin node evictor
