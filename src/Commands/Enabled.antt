-- ===== src/Commands/Enabled.antt =====
-- cmd/provider/main.go: how many workers of each kind the flag `enable-controllers` starts.
use tensile_kube.Prelude.{
  ℕ, zero, suc, ◌+◌, ◌*◌, String, ◌≡◌, refl, sym, ◌∙◌, ap, subst, true, false, Bool-cases, inl, inr,
  Option, none, some, nat_beq, List, [], ◌∷◌, ◌++◌, map, arith, eq_iff, ◌==◌, if◌then◌else◌, All,
}
use tensile_kube.Prelude.Strings.{lacks, join, split-join}
use native.Mathlib.Nat.{zero-mul, suc-mul, mul-zero, mul-add}
use tensile_kube.Commands.{
  common_controller, pv_controller, service_controller, Controller, Worker, config_map_worker,
  secret_worker, service_worker, endpoints_worker, pvc_client_worker, pv_client_worker,
  pvc_master_worker, pv_master_worker, Action, started, Synced, start_workers, run_common,
  run_services, run_volumes, run, named, enabled_controllers, run_all, run_controller,
}

-- The name in the flag that brings the worker in; the common controller's needs none.
abbrev name_of : Worker → Option String
name_of config_map_worker = none
name_of secret_worker = none
name_of service_worker = some "ServiceControllers"
name_of endpoints_worker = some "ServiceControllers"
name_of pvc_client_worker = some "PVControllers"
name_of pv_client_worker = some "PVControllers"
name_of pvc_master_worker = some "PVControllers"
name_of pv_master_worker = some "PVControllers"

abbrev worker_index : Worker → ℕ
worker_index config_map_worker = 0
worker_index secret_worker = 1
worker_index service_worker = 2
worker_index endpoints_worker = 3
worker_index pvc_client_worker = 4
worker_index pv_client_worker = 5
worker_index pvc_master_worker = 6
worker_index pv_master_worker = 7

abbrev starts : Worker → Action → ℕ
starts w (started v) = if nat_beq (worker_index v) (worker_index w) then 1 else 0
starts w a = 0

-- How often the worker is started.
abbrev pub count_of : Worker → List Action → ℕ
count_of w [] = 0
count_of w (a ∷ acts) = starts w a + count_of w acts

abbrev occurrences : String → List String → ℕ
occurrences name [] = 0
occurrences name (n ∷ ns) = (if n == name then 1 else 0) + occurrences name ns

-- How often the flag asks for the worker.
abbrev pub asked : Worker → List String → ℕ
asked w names = elim (name_of w) [ none ↦ 1 | some name ↦ occurrences name names ]

count_of-append :
    (w : Worker) (acts bs : List Action) → count_of w (acts ++ bs) ≡ count_of w acts + count_of w bs
count_of-append w [] bs = omega arith
count_of-append w (a ∷ acts) bs = omega (arith, count_of-append w acts bs)

count_of-start_workers :
    (w : Worker) (n : ℕ) (ws : List Worker)
    → count_of w (start_workers n ws) ≡ n * count_of w (map started ws)
unfolding start_workers
count_of-start_workers w zero ws = sym (zero-mul _)
count_of-start_workers w (suc n) ws = omega (
  arith,
  count_of-append w (map started ws) (start_workers n ws),
  count_of-start_workers w n ws,
  suc-mul n (count_of w (map started ws)),
)

abbrev workers_of : Controller → List Worker
workers_of common_controller = config_map_worker ∷ secret_worker ∷ []
workers_of service_controller = service_worker ∷ endpoints_worker ∷ []
workers_of pv_controller =
    pvc_client_worker ∷ pv_client_worker ∷ pvc_master_worker ∷ pv_master_worker ∷ []

abbrev brings : Worker → Controller → ℕ
brings w c = count_of w (map started (workers_of c))

abbrev bring : Worker → List Controller → ℕ
bring w [] = 0
bring w (c ∷ cs) = brings w c + bring w cs

abbrev pub all_synced : Synced
all_synced = record { upper = true; lower = true }

count_of-run :
    (w : Worker) (n : ℕ) (c : Controller) → count_of w (run all_synced n c) ≡ n * brings w c
unfolding run run_common run_services run_volumes
count_of-run w n common_controller =
    omega (arith, count_of-start_workers w n (workers_of common_controller))
count_of-run w n service_controller =
    omega (arith, count_of-start_workers w n (workers_of service_controller))
count_of-run w n pv_controller =
    omega (arith, count_of-start_workers w n (workers_of pv_controller))

count_of-run_all :
    (w : Worker) (n : ℕ) (cs : List Controller)
    → count_of w (run_all all_synced n cs) ≡ n * bring w cs
unfolding run_all
count_of-run_all w n [] = sym (mul-zero n)
count_of-run_all w n (c ∷ cs) = omega (
  arith,
  count_of-append w (run all_synced n c) (run_all all_synced n cs),
  count_of-run w n c,
  count_of-run_all w n cs,
  mul-add n (brings w c) (bring w cs),
)

-- Whether the flag's name asks for the worker.
abbrev asks : Worker → String → ℕ
asks w name = elim (name_of w) [ none ↦ 0 | some wanted ↦ if name == wanted then 1 else 0 ]

named_volumes : (name : String) → (name == "PVControllers") ≡ true → named name ≡ pv_controller ∷ []
unfolding named
named_volumes name h = rw (h) refl

named_services :
    (name : String)
    → (name == "PVControllers") ≡ false
    → (name == "ServiceControllers") ≡ true
    → named name ≡ service_controller ∷ []
unfolding named
named_services name h k = rw (h, k) refl

named_other :
    (name : String)
    → (name == "PVControllers") ≡ false
    → (name == "ServiceControllers") ≡ false
    → named name ≡ []
unfolding named
named_other name h k = rw (h, k) refl

-- The name asks for the workers of the controllers that it names.
bring-append : (w : Worker) (cs ds : List Controller) → bring w (cs ++ ds) ≡ bring w cs + bring w ds
bring-append w [] ds = omega arith
bring-append w (c ∷ cs) ds = omega (arith, bring-append w cs ds)

bring-named : (w : Worker) (name : String) → bring w (named name) ≡ asks w name
bring-named w name = elim (Bool-cases (name == "PVControllers")) [
  | inl volumes ↦
      ap (bring w) (named_volumes name volumes)
      ∙ asks_volumes w ((eq_iff name "PVControllers").0 volumes)
  | inr others ↦ elim (Bool-cases (name == "ServiceControllers")) [
    | inl services ↦
        ap (bring w) (named_services name others services)
        ∙ asks_services w ((eq_iff name "ServiceControllers").0 services)
    | inr unknown ↦ ap (bring w) (named_other name others unknown) ∙ asks_other w others unknown
  ]
]
  where
    asks_volumes :
        (w : Worker) → name ≡ "PVControllers" → bring w (pv_controller ∷ []) ≡ asks w name
    asks_volumes service_worker e = subst (λ n. 0 ≡ asks service_worker n) (sym e) refl
    asks_volumes w e = subst (λ n. bring w (pv_controller ∷ []) ≡ asks w n) (sym e) refl

    asks_services :
        (w : Worker) → name ≡ "ServiceControllers" → bring w (service_controller ∷ []) ≡ asks w name
    asks_services service_worker e = subst (λ n. 1 ≡ asks service_worker n) (sym e) refl
    asks_services w e = subst (λ n. bring w (service_controller ∷ []) ≡ asks w n) (sym e) refl

    asks_other :
        (w : Worker)
        → (name == "PVControllers") ≡ false
        → (name == "ServiceControllers") ≡ false
        → 0 ≡ asks w name
    asks_other service_worker h k = ground arith
    asks_other w h k = ground arith

asks_empty : (w : Worker) (name : String) → name ≡ "" → asks w name ≡ 0
asks_empty service_worker name e = subst (λ n. asks service_worker n ≡ 0) (sym e) refl
asks_empty w name e = subst (λ n. asks w n ≡ 0) (sym e) refl

asked-cons :
    (w : Worker) (name : String) (names : List String)
    → asked w (name ∷ names) ≡ asks w name + asked w names
asked-cons service_worker name names = omega arith
asked-cons w name names = omega arith

bring-enabled_controllers :
    (w : Worker) (names : List String)
    → bring w (common_controller ∷ enabled_controllers names) ≡ asked w names
unfolding enabled_controllers
bring-enabled_controllers service_worker [] = refl
bring-enabled_controllers w [] = refl
bring-enabled_controllers w (name ∷ names) = elim (Bool-cases (name == "")) [
  | inl empty ↦ rw (empty) (
      omega (
        arith,
        bring-enabled_controllers w names,
        asked-cons w name names,
        asks_empty w name ((eq_iff name "").0 empty),
      ))
  | inr other ↦ rw (other) (
      omega (
        arith,
        bring-enabled_controllers w names,
        asked-cons w name names,
        bring-append w (named name) (enabled_controllers names),
        bring-named w name,
      ))
]

-- With the caches filled, each worker of the controllers for volumes and for services is started as often
-- as the flag lists their controller, and those of the common controller once, times the number of
-- workers: a name that is listed twice runs twice, and a name that is none is passed over.
pub count_of-run_controller :
    (w : Worker) (workers : ℕ) (name : String) (names : List String)
    → All (λ n. lacks "," n ≡ true) (name ∷ names)
    → count_of w (run_controller all_synced workers (join "," (name ∷ names)))
      ≡ workers * asked w (name ∷ names)
unfolding run_controller
count_of-run_controller w workers name names h = rw (split-join "," name names h) (
    count_of-run_all w workers (common_controller ∷ enabled_controllers (name ∷ names))
    ∙ ap (λ n. workers * n) (bring-enabled_controllers w (name ∷ names)))
