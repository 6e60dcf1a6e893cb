-- ===== src/Util/Consts.antt =====
-- The keys of pkg/util/k8s.go, `ClustersNodeSelection`, and the tests on objects.
use tensile_kube.Prelude.{String, Bool, false, Option, none, some, List, ◌==◌}
use tensile_kube.Prelude.Dict.{Dict, lookup, index_nil, make_if_nil}
use tensile_kube.Api.{ObjectMeta, Affinity, Toleration, Pod}

abbrev pub global_label : String
global_label = "global"

abbrev pub selector_key : String
selector_key = "clusterSelector"

abbrev pub selected_node_key : String
selected_node_key = "volume.kubernetes.io/selected-node"

abbrev pub host_name_key : String
host_name_key = "kubernetes.io/hostname"

abbrev pub beta_host_name_key : String
beta_host_name_key = "beta.kubernetes.io/hostname"

abbrev pub virtual_pod_label : String
virtual_pod_label = "virtual-pod"

abbrev pub virtual_kubelet_label : String
virtual_kubelet_label = "virtual-kubelet"

abbrev pub tripped_labels : String
tripped_labels = "tripped-labels"

abbrev pub cluster_id : String
cluster_id = "clusterID"

abbrev pub node_type : String
node_type = "type"

abbrev pub taint_node_not_ready : String
taint_node_not_ready = "node.kubernetes.io/not-ready"

abbrev pub taint_node_unreachable : String
taint_node_unreachable = "node.kubernetes.io/unreachable"

abbrev pub created_by_descheduler : String
created_by_descheduler = "create-by-descheduler"

abbrev pub deschedule_count : String
deschedule_count = "sigs.k8s.io/deschedule-count"

pub record ClustersNodeSelection : Type 0 where
  pub node_selector : Option (Dict String)
  pub affinity : Option Affinity
  pub tolerations : Option (List Toleration)

-- `encoding/json` at the two types that the code stores in annotations. The struct tags are those
-- of the API types, so the codec is a parameter; `none` is an error of the codec.
pub record Json : Type 0 where
  pub marshal_labels : Dict String → Option String
  pub unmarshal_labels : String → Option (Dict String)
  pub marshal_selection : ClustersNodeSelection → Option String
  pub unmarshal_selection : String → Option ClustersNodeSelection

unfoldable pub is_virtual_pod : Pod → Bool
unfolding index_nil
is_virtual_pod pod = index_nil virtual_pod_label pod.meta.labels == "true"

-- A nil node is `none`.
unfoldable pub is_virtual_node : Option ObjectMeta → Bool
is_virtual_node none = false
is_virtual_node (some node) = elim (lookup node_type (make_if_nil node.labels)) [
  | none ↦ false
  | some text ↦ text == virtual_kubelet_label
]

unfoldable pub get_cluster_id : Option ObjectMeta → String
get_cluster_id none = ""
get_cluster_id (some node) = elim (lookup cluster_id (make_if_nil node.labels)) [
  | none ↦ ""
  | some cluster_name ↦ cluster_name
]
