-- ===== src/Descheduler/Evictor/Concurrent.antt =====
-- `PodLifeTime` evicts the pods of a node with up to 64 workers at once. `EvictPod` tests the count under
-- the read lock, lets it go, calls the API server, and adds one under the write lock, so a worker's
-- test and its increment are two steps, between which other workers step.
use tensile_kube.Prelude.{ℕ, zero, suc, ◌+◌, ◌≤◌, ◌<◌, ◌≡◌, refl, subst, false, arith}
use tensile_kube.Descheduler.Evictor.{limit_test}

-- The evictions counted on the node, and the workers between their test and their increment.
pub record Progress : Type 0 where
  pub counted : ℕ
  pub in_flight : ℕ

module _ (limit workers : ℕ) where
  -- One worker's step: it passes the test of `EvictPod`, or it ends with or without an eviction.
  pub data Step (s : Progress) : Progress → Type 0 where
    start :
        limit_test limit s.counted ≡ false
        → s.in_flight < workers
        → Step s (record s { in_flight = suc s.in_flight })
    finish :
        (n : ℕ) → s.in_flight ≡ suc n → Step s (record { counted = suc s.counted; in_flight = n })
    fail : (n : ℕ) → s.in_flight ≡ suc n → Step s (record s { in_flight = n })

  pub data Reach : Progress → Type 0 where
    idle : Reach (record { counted = 0; in_flight = 0 })
    next : {s t : Progress} → Reach s → Step s t → Reach t

  Step-bounded :
      {s t : Progress}
      → 0 < limit
      → Step s t
      → s.counted + s.in_flight < limit + workers
      → t.counted + t.in_flight < limit + workers
  Step-bounded positive (start test free) h = ground arith
  Step-bounded positive (finish n some_worker) h = omega arith
  Step-bounded positive (fail n some_worker) h = omega arith

  Reach-bounded : {s : Progress} → 0 < limit → Reach s → s.counted + s.in_flight < limit + workers
  Reach-bounded positive idle = omega arith
  Reach-bounded positive (next r st) = Step-bounded positive st (Reach-bounded positive r)

  -- With a positive `maxPodsToEvict`, however the workers interleave, fewer than that many plus the number
  -- of workers are evicted from the node. With 0 there is no limit.
  pub concurrent_bound : {s : Progress} → 0 < limit → Reach s → s.counted < limit + workers
  concurrent_bound positive r = omega (arith, Reach-bounded positive r)

  -- Below the limit one worker after the other evicts one pod.
  one_by_one : (n : ℕ) → 0 < workers → n < limit → Reach (record { counted = n; in_flight = 0 })
  one_by_one zero some_worker h = idle
  one_by_one (suc n) some_worker h =
      let before = one_by_one n some_worker (omega arith) in
      next (next before (start (ground arith) (omega arith))) (finish 0 refl)

  started :
      (n k : ℕ)
      → limit ≡ suc n
      → 0 < workers
      → k ≤ workers
      → Reach (record { counted = n; in_flight = k })
  started n zero l some_worker h = one_by_one n some_worker (omega arith)
  started n (suc k) l some_worker h =
      next (started n k l some_worker (omega arith)) (start (ground arith) (omega arith))

  finished :
      (j n m : ℕ)
      → m ≡ j + n
      → Reach (record { counted = n; in_flight = j })
      → Reach (record { counted = m; in_flight = 0 })
  finished zero n m e r =
      let same : n ≡ m = omega arith in
      subst (λ (x : ℕ). Reach (record { counted = x; in_flight = 0 })) same r
  finished (suc j) n m e r = finished j (suc n) m (omega arith) (next r (finish j refl))

  -- The bound is met: with a limit of `n + 1` there is an interleaving after which `n` plus the number
  -- of workers are evicted and none is in flight, so that two workers already pass the limit.
  pub concurrent_overrun :
      (n : ℕ)
      → limit ≡ suc n
      → 0 < workers
      → Reach (record { counted = n + workers; in_flight = 0 })
  concurrent_overrun n l some_worker =
      finished workers n (n + workers) (omega arith) (started n workers l some_worker (omega arith))
