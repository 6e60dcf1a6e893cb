-- ===== src/Tests.antt =====
-- Pods, a codec and a cache at which the theorems are tried.
mod Conversions
mod Freezing
mod Eviction
mod Reporting
mod Admission
mod Pods
mod Life
mod Rounds
mod Objects
mod Volumes
mod Resources
mod Nodes
mod Members
mod Serving
mod Loops
mod Starting
mod Telling
use tensile_kube.Prelude.{ℕ, String, ◌≡◌, Option, none, some, List, [], ◌∷◌}
use tensile_kube.Prelude.Dict.{Dict}
use tensile_kube.Prelude.Run.{ok}
use tensile_kube.Api.{
  ObjectMeta, NodeSelectorRequirement, NodeSelectorTerm, NodeSelector, NodeAffinity, Affinity,
  Container, PodSpec, Pod, empty_status,
}
use tensile_kube.Util.Consts.{Json, ClustersNodeSelection}
use tensile_kube.Descheduler.Evictor.{PodEvictor, Answers}

abbrev pub web_meta : ObjectMeta
web_meta = record {
  name = "web-0";
  namespace = "shop";
  uid = "u-1";
  resource_version = "7";
  self_link = "";
  owner_references = "rs-1" ∷ [];
  labels = some (("app", "web") ∷ ("tier", "front") ∷ ("virtual-pod", "true") ∷ []);
  annotations = some (("note", "kept") ∷ []);
  deletion_timestamp = none;
  deletion_grace_period_seconds = none;
  creation_timestamp = 100;
}

abbrev pub container : String → Container
container image = record { name = "main"; image = image; volume_mounts = []; rest = "" }

abbrev pub web_spec : PodSpec
web_spec = record {
  node_selector = some (("zone", "a") ∷ ("arch", "arm") ∷ []);
  affinity = none;
  tolerations = none;
  containers = container "web:1" ∷ [];
  init_containers = [];
  volumes = none;
  node_name = "node-1";
  active_deadline_seconds = none;
  image_pull_secrets = [];
  restart_policy = "Always";
}

abbrev pub web_pod : Pod
web_pod = record { meta = web_meta; spec = web_spec; status = empty_status }

-- The pod that replaces it, before it has a node.
abbrev pub new_pod : Pod
new_pod = record web_pod { spec = record web_spec { node_name = "" } }

-- The pod with the mark of an eviction from its node.
abbrev pub reported_pod : Pod
reported_pod = record web_pod {
  meta = record web_meta { annotations = some (("unschedulable-node", "node-1") ∷ []) };
}

abbrev pub requirement : String → NodeSelectorRequirement
requirement key = record { key = key; operator = "In"; values = "x" ∷ [] }

-- A term with expressions on both sides of the ignored label `zone`.
abbrev pub mixed_term : List NodeSelectorRequirement → NodeSelectorTerm
mixed_term fields = record {
  match_expressions = some (requirement "disk" ∷ requirement "zone" ∷ requirement "gpu" ∷ []);
  match_fields = fields;
}

abbrev pub selector_of : NodeSelectorTerm → NodeSelector
selector_of t = record { terms = some (t ∷ []) }

abbrev pub node_affinity_of : NodeSelectorTerm → NodeAffinity
node_affinity_of t = record { required = some (selector_of t); preferred = none }

abbrev pub affinity_of : NodeSelectorTerm → Affinity
affinity_of t = record {
  node_affinity = some (node_affinity_of t);
  pod_affinity = none;
  pod_anti_affinity = none;
}

-- A codec that knows one value of each type.
abbrev pub codec : Dict String → ClustersNodeSelection → Json
codec labels cns = record {
  marshal_labels = λ m. some "labels";
  unmarshal_labels = λ s. some labels;
  marshal_selection = λ c. some "selection";
  unmarshal_selection = λ s. some cns;
}

abbrev pub no_selection : ClustersNodeSelection
no_selection = record { node_selector = none; affinity = none; tolerations = none }

abbrev pub evictor : ℕ → PodEvictor (Dict ℕ)
evictor evicted = record {
  max_pods_to_evict = 2;
  nodepod_count = ("node-1", evicted) ∷ [];
  freeze_duration = 300;
  cache = [];
}

abbrev pub all_well : Answers
all_well = record {
  merge_patch = λ a b. ok "patch";
  patch = ok web_pod;
  delete = ok tt;
  create = ok web_pod;
}
