-- ===== src/Controllers/Common.antt =====
-- pkg/controllers/common_controller.go: config maps and secrets that changed in the upper cluster are
-- changed in the lower one. The code has each function twice, once for each kind; `Kind` says what
-- differs.
pub mod Delivery
pub mod Runs
use tensile_kube.Prelude.{
  String, Bool, true, false, ◌&&◌, ◌||◌, not, Option, none, some, List, [], ◌∷◌, ◌++◌, ◌==◌,
  if◌then◌else◌,
}
use tensile_kube.Prelude.Dict.{Dict}
use tensile_kube.Prelude.Run.{Result, ok, err}
use tensile_kube.Api.{ObjectMeta, ConfigMap, Secret, ApiError, not_found}
use tensile_kube.Controllers.Global.{is_object_global}

-- `UpdateConfigMap` and `UpdateSecret` of pkg/util/k8s.go: the old object afterwards.
unfoldable pub update_config_map : ConfigMap → ConfigMap → ConfigMap
update_config_map old new = record {
  meta = record old.meta { labels = new.meta.labels };
  content = new.content;
  binary_data = new.binary_data;
}

unfoldable pub update_secret : Secret → Secret → Secret
update_secret old new = record {
  meta = record old.meta { labels = new.meta.labels };
  content = new.content;
  string_data = new.string_data;
  type = new.type;
}

pub record Kind (O : Type 0) : Type 0 where
  pub meta : O → ObjectMeta
  pub update : O → O → O

unfoldable pub config_maps : Kind ConfigMap
unfolding update_config_map
config_maps = record { meta = λ o. o.meta; update = update_config_map }

unfoldable pub secrets : Kind Secret
unfolding update_secret
secrets = record { meta = λ o. o.meta; update = update_secret }

unfoldable pub is_not_found : ApiError → Bool
is_not_found not_found = true
is_not_found e = false

-- The calls of the lower cluster's API.
pub data ObjectCall (O : Type 0) : Type 0 where
  delete_object : String → String → ObjectCall O
  update_object : String → O → ObjectCall O

-- What happens to the key at the end.
pub data Requeue : Type 0 where
  forgotten rate_limited : Requeue

-- What the two listers and the lower API server answer for the key.
pub record Views (O : Type 0) : Type 0 where
  pub master : Result ApiError O
  pub client : Result ApiError O
  pub delete : Result ApiError (Unit {0})
  pub update : Result ApiError O

abbrev requeue_on {ℓ} : {A : Type ℓ} → Result ApiError A → Requeue
requeue_on (ok a) = forgotten
requeue_on (err e) = rate_limited

abbrev requeue_unless_not_found {ℓ} : {A : Type ℓ} → Result ApiError A → Requeue
requeue_unless_not_found (ok a) = forgotten
requeue_unless_not_found (err not_found) = forgotten
requeue_unless_not_found (err e) = rate_limited

abbrev pub is_set {ℓ} : {A : Type ℓ} → Option A → Bool
is_set none = false
is_set (some a) = true

abbrev pub is_deleting : ObjectMeta → Bool
is_deleting meta = is_set meta.deletion_timestamp

module _ {O : Type 0} (kind : Kind O) (v : Views O) (namespace name : String) where
  unfoldable pub delete_in_client : List (ObjectCall O) × Requeue
  delete_in_client = (delete_object namespace name ∷ [], requeue_unless_not_found v.delete)

  unfoldable pub update_in_client : O → List (ObjectCall O) × Requeue
  update_in_client object = elim v.client [
    | err e ↦ ([], if is_not_found e then forgotten else rate_limited)
    | ok old ↦
        (if is_object_global (kind.meta (kind.update old object)) then ([], forgotten) else (
          update_object (kind.meta object).namespace (kind.update old object) ∷ [],
          requeue_on v.update,
        ))
  ]

  -- `syncConfigMap` and `syncSecret` from the point where the key is split.
  unfoldable pub sync_object : List (ObjectCall O) × Requeue
  unfolding delete_in_client update_in_client
  sync_object = elim v.master [
    | err e ↦
        (if is_not_found e
          then elim v.client [
            | err e ↦ ([], if is_not_found e then forgotten else rate_limited)
            | ok old ↦ delete_in_client
          ]
          else ([], rate_limited))
    | ok object ↦
        if is_deleting (kind.meta object) then delete_in_client else update_in_client object
  ]

  -- What the lower lister has afterwards: `UpdateConfigMap` and `UpdateSecret` write into the object that it
  -- returned, whether or not the update is sent.
  unfoldable pub cached_object : Option O
  cached_object = elim v.client [
    | err e ↦ none
    | ok old ↦ elim v.master [
      | err e ↦ some old
      | ok object ↦ some (if is_deleting (kind.meta object) then old else kind.update old object)
    ]
  ]

  -- `gcConfigMap` and `gcSecret` on one listed object: `v.master` is the answer for it.
  unfoldable pub gc_object : O → List (ObjectCall O)
  gc_object object =
      if is_object_global (kind.meta object)
      then elim v.master [
        | ok upper ↦ []
        | err e ↦ if is_not_found e then delete_object namespace name ∷ [] else []
      ]
      else []

-- `SplitMetaNamespaceKey` is a parameter: the namespace and the name, or an error.
module _ (split : String → Option (String × String)) where
  unfoldable pub sync_config_map :
      (String → String → Views ConfigMap) → String → List (ObjectCall ConfigMap) × Requeue
  unfolding sync_object
  sync_config_map views key = elim (split key) [
    | none ↦ ([], forgotten)
    | some (namespace, name) ↦ sync_object config_maps (views namespace name) namespace name
  ]

  unfoldable pub sync_secret :
      (String → String → Views Secret) → String → List (ObjectCall Secret) × Requeue
  unfolding sync_object
  sync_secret views key = elim (split key) [
    | none ↦ ([], forgotten)
    | some (namespace, name) ↦ sync_object secrets (views namespace name) namespace name
  ]

unfoldable pub should_enqueue : ObjectMeta → Bool
should_enqueue obj = if obj.namespace == "kube-system" then false else true

unfoldable pub should_enqueue_add_secret : Secret → Bool
unfolding should_enqueue
should_enqueue_add_secret secret =
    if should_enqueue secret.meta
    then (if secret.type == "kubernetes.io/service-account-token" then false else true)
    else false

-- `reflect.DeepEqual` on maps, and `MetaNamespaceKeyFunc`.
module _ (deep_equal : Option (Dict String) → Option (Dict String) → Bool)
    (key_of : ObjectMeta → Result ApiError String) where
  unfoldable pub should_enqueue_update_config_map : ConfigMap → ConfigMap → Bool
  unfolding should_enqueue
  should_enqueue_update_config_map old new =
      if should_enqueue new.meta
      then (not (deep_equal old.content new.content))
        || ((not (deep_equal old.binary_data new.binary_data))
            || is_set new.meta.deletion_timestamp)
      else false

  unfoldable pub should_enqueue_update_secret : Secret → Secret → Bool
  unfolding should_enqueue_add_secret
  should_enqueue_update_secret old new =
      if should_enqueue_add_secret old
      then (if should_enqueue_add_secret new
          then (not (deep_equal old.content new.content))
            || ((not (deep_equal old.string_data new.string_data))
                || ((not (old.type == new.type)) || is_set new.meta.deletion_timestamp))
          else false)
      else false

  -- The keys that are added to the queue.
  abbrev enqueued : Bool → ObjectMeta → List String
  enqueued b meta = if b then elim (key_of meta) [ err e ↦ [] | ok key ↦ key ∷ [] ] else []

  unfoldable pub config_map_add : ConfigMap → List String
  config_map_add new = enqueued (should_enqueue new.meta) new.meta

  unfoldable pub config_map_updated : ConfigMap → ConfigMap → List String
  config_map_updated old new =
      enqueued (should_enqueue_update_config_map old new && is_object_global new.meta) new.meta

  unfoldable pub config_map_deleted : ConfigMap → List String
  config_map_deleted old = enqueued (should_enqueue old.meta) old.meta

  unfoldable pub secret_add : Secret → List String
  secret_add new = enqueued (should_enqueue new.meta) new.meta

  unfoldable pub secret_updated : Secret → Secret → List String
  secret_updated old new =
      enqueued (should_enqueue_update_secret old new && is_object_global new.meta) new.meta

  unfoldable pub secret_deleted : Secret → List String
  secret_deleted old = enqueued (should_enqueue old.meta) old.meta

-- The objects of the lower cluster that have no upper one any more; a nil entry is passed over.
unfoldable pub gc_objects :
    {O : Type 0} → Kind O → (O → Views O) → List (Option O) → List (ObjectCall O)
unfolding gc_object
gc_objects kind views [] = []
gc_objects kind views (none ∷ os) = gc_objects kind views os
gc_objects kind views (some o ∷ os) =
    gc_object kind (views o) (kind.meta o).namespace (kind.meta o).name o
    ++ gc_objects kind views os

unfoldable pub gc :
    (ConfigMap → Views ConfigMap)
    → (Secret → Views Secret)
    → Result ApiError (List (Option ConfigMap))
    → Result ApiError (List (Option Secret))
    → List (ObjectCall ConfigMap) × List (ObjectCall Secret)
unfolding gc_objects
gc config_map_views secret_views cs ss = (
  elim cs [ err e ↦ [] | ok os ↦ gc_objects config_maps config_map_views os ],
  elim ss [ err e ↦ [] | ok os ↦ gc_objects secrets secret_views os ],
)
