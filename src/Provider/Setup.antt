-- ===== src/Provider/Setup.antt =====
-- `NewVirtualK8S` of pkg/provider/provider.go, and what `ConfigureNode` of node.go writes besides the
-- capacity.
pub mod Ignored
use tensile_kube.Prelude.{
  ℕ, String, Bool, true, false, Option, none, some, List, [], ◌∷◌, ◌==◌, if◌then◌else◌,
}
use tensile_kube.Prelude.Dict.{Dict, insert}
use tensile_kube.Prelude.Run.{Run, done, panic, ◌>>=◌, Result, ok, err}
use tensile_kube.Prelude.Strings.{split}
use tensile_kube.Api.{Condition, ApiError, other}

-- The fields of `VirtualK8S` that are values.
pub record VirtualK8s : Type 0 where
  pub node_name : String
  pub version : String
  pub daemon_port : ℕ
  pub ignore_labels : List String
  pub enable_service_account : Bool

pub record InitConfig : Type 0 where
  pub node_name : String
  pub daemon_port : ℕ

-- The clients of the lower cluster, of the upper one and of the metrics, and the version of the lower
-- server, in the order in which they are asked for.
unfoldable pub new_virtual_k8s :
    InitConfig
    → String
    → String
    → Bool
    → Result ApiError (Unit {0})
    → Result ApiError (Unit {0})
    → Result ApiError (Unit {0})
    → Result ApiError String
    → Run (Result ApiError VirtualK8s)
unfolding split
new_virtual_k8s cfg path ignore_labels accounts client master metrics version =
    if path == ""
    then panic
    else done (elim client [
      | err e ↦ err (other "could not build clientset for cluster")
      | ok u ↦ elim master [
        | err e ↦ err (other "could not build clientset for cluster")
        | ok u ↦ elim metrics [
          | err e ↦ err (other "could not build clientset for cluster")
          | ok u ↦ elim version [
            | err e ↦ err (other "could not get target cluster server version")
            | ok text ↦ ok (record {
              node_name = cfg.node_name;
              version = text;
              daemon_port = cfg.daemon_port;
              ignore_labels = split "," ignore_labels;
              enable_service_account = accounts;
            })
          ]
        ]
      ]
    ])

abbrev condition : String → String → String → Condition
condition type status reason = record { type = type; status = status; reason = reason }

abbrev pub node_conditions : List Condition
node_conditions =
    condition "Ready" "True" "KubeletReady"
    ∷ (condition "MemoryPressure" "False" "KubeletHasSufficientMemory"
        ∷ (condition "DiskPressure" "False" "KubeletHasNoDiskPressure"
            ∷ (condition "PIDPressure" "False" "KubeletHasSufficientPID" ∷ [])))

-- What `ConfigureNode` writes into the node.
pub record VirtualNode (Q : Type 0) : Type 0 where
  pub labels : Option (Dict String)
  pub capacity : Option (Dict Q)
  pub kubelet_version : String
  pub operating_system : String
  pub architecture : String
  pub address : String
  pub conditions : List Condition
  pub port : ℕ

-- The labels are written into the map of the node. `capacity` is `none` where the nodes of the lower
-- cluster cannot be listed: then the node stays as it is, and the provider is not configured.
unfoldable pub describe_node :
    {Q : Type 0}
    → VirtualK8s
    → String
    → Option (Dict Q)
    → VirtualNode Q
    → Run (VirtualNode Q × Bool)
describe_node v ip none node = done (node, false)
describe_node v ip (some capacity) node = elim node.labels [
  | none ↦ panic
  | some labels ↦ done (
    record {
      labels = some (
          insert "beta.kubernetes.io/os" "linux"
            (insert "kubernetes.io/os" "linux" (insert "kubernetes.io/arch" "amd64" labels)));
      capacity = some capacity;
      kubelet_version = v.version;
      operating_system = "linux";
      architecture = "amd64";
      address = ip;
      conditions = node_conditions;
      port = v.daemon_port;
    },
    true,
  )
]
