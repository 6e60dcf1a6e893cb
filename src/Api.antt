-- ===== src/Api.antt =====
-- The Kubernetes API objects (k8s.io/api, k8s.io/apimachinery) that the code passes around, as
-- plain records of the fields that it reads or writes. A pointer, and a map or slice that some
-- code compares with nil, is an `Option`. What the code only carries along is one opaque text.
use tensile_kube.Prelude.{ℕ, String, Option, List, [], none}
use tensile_kube.Prelude.Dict.{Dict}

pub record ObjectMeta : Type 0 where
  pub name : String
  pub namespace : String
  pub uid : String
  pub resource_version : String
  pub self_link : String
  -- the UIDs of the owners
  pub owner_references : List String
  pub labels : Option (Dict String)
  pub annotations : Option (Dict String)
  pub deletion_timestamp : Option ℕ
  pub deletion_grace_period_seconds : Option ℕ
  pub creation_timestamp : ℕ

-- `metav1.ObjectMeta{Name: name}`
abbrev pub meta_named : String → ObjectMeta
meta_named name = record {
  name = name;
  namespace = "";
  uid = "";
  resource_version = "";
  self_link = "";
  owner_references = [];
  labels = none;
  annotations = none;
  deletion_timestamp = none;
  deletion_grace_period_seconds = none;
  creation_timestamp = 0;
}

pub record NodeSelectorRequirement : Type 0 where
  pub key : String
  pub operator : String
  pub values : List String

pub record NodeSelectorTerm : Type 0 where
  pub match_expressions : Option (List NodeSelectorRequirement)
  pub match_fields : List NodeSelectorRequirement

pub record NodeSelector : Type 0 where
  pub terms : Option (List NodeSelectorTerm)

pub record NodeAffinity : Type 0 where
  pub required : Option NodeSelector
  pub preferred : Option String

pub record Affinity : Type 0 where
  pub node_affinity : Option NodeAffinity
  pub pod_affinity : Option String
  pub pod_anti_affinity : Option String

pub record Toleration : Type 0 where
  pub key : String
  pub operator : String
  pub value : String
  pub effect : String
  pub toleration_seconds : Option ℕ

pub record VolumeMount : Type 0 where
  pub name : String
  pub mount_path : String

pub record Container : Type 0 where
  pub name : String
  pub image : String
  pub volume_mounts : List VolumeMount
  pub rest : String

-- The inner `Option` of `ceph_fs`, `cinder` and `rbd` is their `SecretRef` pointer.
pub record Volume : Type 0 where
  pub name : String
  pub secret : Option String
  pub ceph_fs : Option (Option String)
  pub cinder : Option (Option String)
  pub rbd : Option (Option String)
  pub config_map : Option String
  pub persistent_volume_claim : Option String

pub record PodSpec : Type 0 where
  pub node_selector : Option (Dict String)
  pub affinity : Option Affinity
  pub tolerations : Option (List Toleration)
  pub containers : List Container
  pub init_containers : List Container
  pub volumes : Option (List Volume)
  pub node_name : String
  pub active_deadline_seconds : Option ℕ
  pub image_pull_secrets : List String
  pub restart_policy : String

pub record Condition : Type 0 where
  pub type : String
  pub status : String
  pub reason : String

pub record PodStatus : Type 0 where
  pub phase : String
  pub conditions : List Condition
  pub rest : String

pub record Pod : Type 0 where
  pub meta : ObjectMeta
  pub spec : PodSpec
  pub status : PodStatus

-- `corev1.PodStatus{}`
abbrev pub empty_status : PodStatus
empty_status = record { phase = ""; conditions = []; rest = "" }

-- `apierrs.IsNotFound` and `apierrs.IsAlreadyExists` tell these kinds apart.
pub data ApiError : Type 0 where
  not_found already_exists : ApiError
  other : String → ApiError

pub record ConfigMap : Type 0 where
  pub meta : ObjectMeta
  pub content : Option (Dict String)
  pub binary_data : Option (Dict String)

pub record Secret : Type 0 where
  pub meta : ObjectMeta
  pub content : Option (Dict String)
  pub string_data : Option (Dict String)
  pub type : String

-- `secrets` are the names of the secrets that the account refers to.
pub record ServiceAccount : Type 0 where
  pub meta : ObjectMeta
  pub secrets : List String

pub record Service : Type 0 where
  pub meta : ObjectMeta
  pub selector : Option (Dict String)
  pub cluster_ip : String
  pub rest : String

-- The label selector of a claim is an opaque text.
pub record PersistentVolumeClaim : Type 0 where
  pub meta : ObjectMeta
  pub selector : Option String
  pub volume_name : String
  pub spec_rest : String
  pub status : String

-- The reference of a volume to its claim.
pub record ClaimRef : Type 0 where
  pub namespace : String
  pub name : String
  pub uid : String
  pub resource_version : String

-- `node_affinity` is the pointer to the volume's node affinity, and inside it the required part.
pub record PersistentVolume : Type 0 where
  pub meta : ObjectMeta
  pub node_affinity : Option (Option NodeSelector)
  pub claim_ref : Option ClaimRef
  pub spec_rest : String
  pub phase : String
  pub status : String

-- The subsets are an opaque text.
pub record Endpoints : Type 0 where
  pub meta : ObjectMeta
  pub subsets : String
