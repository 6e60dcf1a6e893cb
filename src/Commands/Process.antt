-- ===== src/Commands/Process.antt =====
-- The processes: the signal handler of pkg/util/k8s.go, `Run` and `getTLSConfig` of
-- cmd/webhook/app/server.go, `main` of cmd/provider, and `Get` of cmd/descheduler/app/version.go.
use Prim.Native.String.{◌++◌ as ◌<>◌}
use tensile_kube.Prelude.{
  ℕ, String, Bool, true, false, Option, none, some, List, [], ◌∷◌, ◌==◌, if◌then◌else◌,
}
use tensile_kube.Prelude.Strings.{split}
use tensile_kube.Prelude.Int.{pos}
use tensile_kube.Prelude.Strconv.{itoa}
use tensile_kube.Prelude.Run.{Run, done, panic, ◌>>=◌, Result, ok, err}
use tensile_kube.Api.{ApiError, other}
use tensile_kube.Provider.Setup.{InitConfig, VirtualK8s, new_virtual_k8s}
use tensile_kube.Commands.{Synced, Action, run_controller, split_version, serves_https}

-- Whether the handler is set up, and what the signals have done to the process.
pub record Signals : Type 0 where
  pub handled : Bool
  pub stop_closed : Bool
  pub exited : Option ℕ

-- `SetupSignalHandler`: the second call closes a closed channel.
unfoldable pub setup_signal_handler : Signals → Run Signals
setup_signal_handler s =
    if s.handled then panic else done (record s { handled = true; stop_closed = false })

-- The goroutine of the handler at a signal: the first closes the stop channel, the second exits.
unfoldable pub on_signal : Signals → Signals
on_signal s = elim s.exited [
  | some code ↦ s
  | none ↦ if s.stop_closed then record s { exited = some 1 } else record s { stop_closed = true }
]

-- The options of the webhook's server.
pub record ServerRunOptions : Type 0 where
  pub kubeconfig : String
  pub ignore_selector_keys : String
  pub address : String
  pub port : ℕ
  pub tls_ca : String
  pub tls_cert : String
  pub tls_key : String

pub record TlsConfig (Pool : Type 0) : Type 0 where
  pub next_protos : List String
  pub min_version : String
  -- the certificates by which clients are verified, where they are required
  pub client_cas : Option Pool

-- `pool_of` makes a pool of the certificates in a text, and may find none.
unfoldable pub get_tls_config :
    {Pool : Type 0}
    → (String → Result ApiError String)
    → (String → Pool)
    → ServerRunOptions
    → Result ApiError (TlsConfig Pool)
get_tls_config read_file pool_of s =
    if s.tls_ca == ""
    then ok (record { next_protos = "http/1.1" ∷ []; min_version = "TLS10"; client_cas = none })
    else elim (read_file s.tls_ca) [
      | err e ↦ err (other "Could not read CA certificate")
      | ok file ↦ ok (record {
        next_protos = "http/1.1" ∷ [];
        min_version = "TLS10";
        client_cas = some (pool_of file);
      })
    ]

-- The server that listens until the stop signal. The answer to "/" is `Serve` with the keys.
pub record Listening (Pool : Type 0) : Type 0 where
  pub addr : String
  pub selector_keys : List String
  pub tls : Option (TlsConfig Pool)

-- `Run`: the client library, whether there is an informer, whether its cache is filled before the stop
-- signal, `net.JoinHostPort`, and the configuration of HTTPS.
unfoldable pub webhook_run :
    {Pool : Type 0}
    → Result ApiError (Unit {0})
    → Bool
    → Bool
    → (String → String → String)
    → Result ApiError (TlsConfig Pool)
    → ServerRunOptions
    → Run (Result ApiError (Listening Pool))
unfolding serves_https split
webhook_run (err e) informer synced join tls s = panic
webhook_run (ok u) false synced join tls s = panic
webhook_run (ok u) true false join tls s = panic
webhook_run (ok u) true true join tls s = done (
    if serves_https s.tls_cert s.tls_key
    then elim tls [
      | err e ↦ err e
      | ok config ↦ ok (record {
        addr = join s.address (itoa (pos s.port));
        selector_keys = split "," s.ignore_selector_keys;
        tls = some config;
      })
    ]
    else ok (record {
      addr = join s.address (itoa (pos s.port));
      selector_keys = split "," s.ignore_selector_keys;
      tls = none;
    }))

-- The values that `main` of the provider sets in the options, besides the rate limiters.
pub record ProviderOpts : Type 0 where
  pub provider : String
  pub pod_sync_workers : ℕ
  pub version : String

unfoldable pub provider_opts : String → ProviderOpts
provider_opts build_version = record {
  provider = "k8s";
  pod_sync_workers = 50;
  version = "v1.14.3" <> "-" <> "k8s" <> "-" <> build_version;
}

-- The function that is given to `cli.WithProvider`: the provider, and what the controllers do, which are
-- started only with a provider. The answers are those of `NewVirtualK8S`.
unfoldable pub start_provider :
    InitConfig
    → String
    → String
    → Bool
    → String
    → Synced
    → Result ApiError (Unit {0})
    → Result ApiError (Unit {0})
    → Result ApiError (Unit {0})
    → Result ApiError String
    → Run (Result ApiError VirtualK8s × List Action)
unfolding new_virtual_k8s run_controller
start_provider cfg path ignore_labels accounts enable_controllers synced client master metrics
      version =
    new_virtual_k8s cfg path ignore_labels accounts client master metrics version >>= λ provider.
    done
      (provider, elim provider [ err e ↦ [] | ok v ↦ run_controller synced 50 enable_controllers ])

-- The version of the descheduler: what the build sets, and what the runtime says of itself.
pub record Info : Type 0 where
  pub major : String
  pub minor : String
  pub git_commit : String
  pub git_version : String
  pub build_date : String
  pub go_version : String
  pub compiler : String
  pub platform : String

unfoldable pub get_info : String → String → String → String → String → String → String → Run Info
unfolding split_version
get_info version git_commit build_date go_version compiler os arch =
    split_version version >>= λ parts. done (record {
      major = parts.0;
      minor = parts.1;
      git_commit = git_commit;
      git_version = version;
      build_date = build_date;
      go_version = go_version;
      compiler = compiler;
      platform = os <> "/" <> arch;
    })
