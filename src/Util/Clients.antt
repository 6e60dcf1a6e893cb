-- ===== src/Util/Clients.antt =====
-- `NewClient`, `NewMetricClient`, `CreateMergePatch` and `CreateJSONPatch` of pkg/util/k8s.go.
use tensile_kube.Prelude.{String, Option, none, some, List, [], ◌∷◌}
use tensile_kube.Prelude.Run.{Result, ok, err}
use tensile_kube.Api.{ApiError, other}

-- What the client library answers: a configuration from a file, the one of the cluster that the program
-- runs in, and a client for a configuration.
pub record ClientLibrary (Config Client : Type 0) : Type 0 where
  pub from_file : String → Result ApiError Config
  pub in_cluster : Result ApiError Config
  pub new_for_config : Config → Result ApiError Client

-- The options, in their order; a nil one is passed over.
unfoldable pub apply_opts : {Config : Type 0} → List (Option (Config → Config)) → Config → Config
apply_opts [] config = config
apply_opts (none ∷ opts) config = apply_opts opts config
apply_opts (some opt ∷ opts) config = apply_opts opts (opt config)

module _ {Config Client : Type 0} (lib : ClientLibrary Config Client) where
  unfoldable pub read_config : String → Result ApiError Config
  read_config path = elim (lib.from_file path) [
    | ok config ↦ ok config
    | err e ↦ elim lib.in_cluster [
      | ok config ↦ ok config
      | err e ↦ err (other "could not read config file for cluster")
    ]
  ]

  unfoldable pub new_client : String → List (Option (Config → Config)) → Result ApiError Client
  unfolding read_config apply_opts
  new_client path opts = elim (read_config path) [
    | err e ↦ err e
    | ok config ↦ elim (lib.new_for_config (apply_opts opts config)) [
      | ok client ↦ ok client
      | err e ↦ err (other "could not create client for master cluster")
    ]
  ]

-- The constructor of the metrics client does the same with another library.
unfoldable pub new_metric_client :
    {Config Client : Type 0}
    → ClientLibrary Config Client
    → String
    → List (Option (Config → Config))
    → Result ApiError Client
unfolding new_client
new_metric_client lib path opts = new_client lib path opts

-- The codec of a type, and a library that computes the patch between two texts.
unfoldable pub create_merge_patch :
    {A : Type 0}
    → (A → Result ApiError String)
    → (String → String → Result ApiError String)
    → A
    → A
    → Result ApiError String
create_merge_patch marshal diff original new = elim (marshal original) [
  | err e ↦ err e
  | ok old_text ↦ elim (marshal new) [ err e ↦ err e | ok new_text ↦ diff old_text new_text ]
]

-- The library answers with operations, which are encoded once more.
unfoldable pub create_json_patch :
    {A Ops : Type 0}
    → (A → Result ApiError String)
    → (String → String → Result ApiError Ops)
    → (Ops → Result ApiError String)
    → A
    → A
    → Result ApiError String
create_json_patch marshal diff encode original new = elim (marshal original) [
  | err e ↦ err e
  | ok old_text ↦ elim (marshal new) [
    | err e ↦ err e
    | ok new_text ↦ elim (diff old_text new_text) [ err e ↦ err e | ok ops ↦ encode ops ]
  ]
]
