-- ===== src/Commands.antt =====
-- The commands: which controllers cmd/provider/main.go starts, and with which workers (`Run` of
-- pkg/controllers); the version of cmd/descheduler/app/version.go; the options of cmd/webhook/app.
pub mod Enabled
pub mod Process
pub mod Versions
use Prim.Native.String.{◌++◌ as ◌<>◌}
use tensile_kube.Prelude.{
  ℕ, zero, suc, String, Bool, true, false, not, ◌&&◌, Option, none, some, List, [], ◌∷◌, ◌++◌, map,
  ◌==◌, if◌then◌else◌,
}
use tensile_kube.Prelude.Strings.{split, trim}
use tensile_kube.Prelude.Run.{Run, done, panic}

pub data Controller : Type 0 where
  common_controller pv_controller service_controller : Controller

-- The workers, by the function that each repeats.
pub data Worker : Type 0 where
  config_map_worker secret_worker : Worker
  service_worker endpoints_worker : Worker
  pvc_client_worker pv_client_worker pvc_master_worker pv_master_worker : Worker

-- What `Run` does: `gc` once, `gc` every three minutes, or a worker.
pub data Action : Type 0 where
  gc_once : Action
  gc_repeated : Action
  started : Worker → Action

-- Whether the caches of the upper and of the lower cluster are filled before the stop signal comes.
pub record Synced : Type 0 where
  pub upper : Bool
  pub lower : Bool

unfoldable pub start_workers : ℕ → List Worker → List Action
start_workers zero ws = []
start_workers (suc n) ws = map started ws ++ start_workers n ws

-- The common controller does not wait for the caches of the lower cluster.
unfoldable pub run_common : Synced → ℕ → List Action
unfolding start_workers
run_common synced workers =
    if not synced.upper
    then []
    else gc_once ∷ start_workers workers (config_map_worker ∷ secret_worker ∷ [])

unfoldable pub run_services : Synced → ℕ → List Action
unfolding start_workers
run_services synced workers =
    if not synced.upper
    then []
    else if not synced.lower
    then []
    else gc_repeated ∷ start_workers workers (service_worker ∷ endpoints_worker ∷ [])

unfoldable pub run_volumes : Synced → ℕ → List Action
unfolding start_workers
run_volumes synced workers =
    if not synced.upper
    then []
    else if not synced.lower
    then []
    else gc_once
      ∷ start_workers workers
          (pvc_client_worker ∷ pv_client_worker ∷ pvc_master_worker ∷ pv_master_worker ∷ [])

unfoldable pub run : Synced → ℕ → Controller → List Action
unfolding run_common run_services run_volumes
run synced workers common_controller = run_common synced workers
run synced workers pv_controller = run_volumes synced workers
run synced workers service_controller = run_services synced workers

-- The switch of `RunController`; any other name is skipped.
unfoldable pub named : String → List Controller
named name =
    if name == "PVControllers"
    then pv_controller ∷ []
    else if name == "ServiceControllers"
    then service_controller ∷ []
    else []

unfoldable pub enabled_controllers : List String → List Controller
unfolding named
enabled_controllers [] = []
enabled_controllers (name ∷ names) =
    let rest = enabled_controllers names in if name == "" then rest else named name ++ rest

unfoldable pub run_all : Synced → ℕ → List Controller → List Action
unfolding run
run_all synced workers [] = []
run_all synced workers (c ∷ cs) = run synced workers c ++ run_all synced workers cs

-- `RunController` with the flag `enable-controllers`.
unfoldable pub run_controller : Synced → ℕ → String → List Action
unfolding enabled_controllers run_all split
run_controller synced workers enable_controllers =
    run_all synced workers (common_controller ∷ enabled_controllers (split "," enable_controllers))

-- `splitVersion`: `strings.Split` has a part at 0 always, and one at 1 only behind a dot.
unfoldable pub split_version : String → Run (String × String)
unfolding split
split_version version = if version == "" then done ("", "") else elim (split "." version) [
  | [] ↦ panic
  | major ∷ parts ↦ elim parts [ [] ↦ panic | minor ∷ rest ↦ done (trim "v" major, minor <> "+") ]
]

-- The options of the webhook's server: whether it serves HTTPS, and `Validate`, where `to4` is whether
-- the address parses as one of IPv4.
unfoldable pub serves_https : String → String → Bool
serves_https tls_cert tls_key = not (tls_cert == "") && not (tls_key == "")

unfoldable pub validate : (String → Bool) → String → Option String
validate to4 address = if to4 address then none else some (address <> " is not a valid IP address")
