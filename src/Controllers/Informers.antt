-- ===== src/Controllers/Informers.antt =====
-- Which handler the constructors of pkg/controllers register for which change of an object, and what
-- comes of it: the keys that are enqueued, and a panic where a handler asserts the type of an object that
-- the informer gives as a `cache.DeletedFinalStateUnknown`.
pub mod Deliveries
use tensile_kube.Prelude.{String, Bool, true, false, Option, List, [], ◌∷◌}
use tensile_kube.Prelude.Dict.{Dict}
use tensile_kube.Prelude.Run.{Run, done, panic, Result, ok, err}
use tensile_kube.Api.{
  ObjectMeta, ConfigMap, Secret, Service, Endpoints, PersistentVolumeClaim, PersistentVolume,
  ApiError,
}
use tensile_kube.Controllers.Common.{
  config_map_add, config_map_updated, config_map_deleted, secret_add, secret_updated,
  secret_deleted,
}
use tensile_kube.Controllers.Services.{
  service_added, service_updated, endpoints_added, endpoints_updated,
}
use tensile_kube.Controllers.Volumes.{Library, VolumeCall}
use tensile_kube.Controllers.Volumes.Events.{
  pvc_in_client_updated, pvc_in_master_updated, pvc_in_master_deleted, pv_in_master_deleted,
  pv_in_client_added, pv_in_client_updated,
}

-- What an informer tells. A deletion that the watch missed comes as a tombstone, with the last state.
pub data Change (O : Type 0) : Type 0 where
  created : O → Change O
  changed : O → O → Change O
  removed : O → Change O
  missed : O → Change O

module _ (deep_equal : Option (Dict String) → Option (Dict String) → Bool)
    (key_of : ObjectMeta → Result ApiError String) where
  -- `NewCommonController`, on the upper cluster's objects.
  unfoldable pub config_map_handlers : Change ConfigMap → Run (List String)
  unfolding config_map_add config_map_updated config_map_deleted
  config_map_handlers (created new) = done (config_map_add deep_equal key_of new)
  config_map_handlers (changed old new) = done (config_map_updated deep_equal key_of old new)
  config_map_handlers (removed old) = done (config_map_deleted deep_equal key_of old)
  config_map_handlers (missed old) = panic

  unfoldable pub secret_handlers : Change Secret → Run (List String)
  unfolding secret_add secret_updated secret_deleted
  secret_handlers (created new) = done (secret_add deep_equal key_of new)
  secret_handlers (changed old new) = done (secret_updated deep_equal key_of old new)
  secret_handlers (removed old) = done (secret_deleted deep_equal key_of old)
  secret_handlers (missed old) = panic

  -- `NewServiceController`, on the upper cluster's objects: a deletion goes to the handler of an addition.
  unfoldable pub service_handlers : Change Service → Run (List String)
  unfolding service_added service_updated
  service_handlers (created new) = done (service_added key_of new)
  service_handlers (changed old new) = done (service_updated key_of old new)
  service_handlers (removed old) = done (service_added key_of old)
  service_handlers (missed old) = panic

  unfoldable pub endpoints_handlers : Change Endpoints → Run (List String)
  unfolding endpoints_added endpoints_updated
  endpoints_handlers (created new) = done (endpoints_added key_of new)
  endpoints_handlers (changed old new) = done (endpoints_updated key_of old new)
  endpoints_handlers (removed old) = done (endpoints_added key_of old)
  endpoints_handlers (missed old) = panic

-- `NewPVController`: the claims and volumes of the upper cluster, whose keys go to the queues of the
-- upper cluster, and those of the lower one. Where no handler is registered, nothing comes of a change.
module _ (lib : Library) where
  unfoldable pub master_claim_handlers : Change PersistentVolumeClaim → Run (List String)
  unfolding pvc_in_master_updated pvc_in_master_deleted
  master_claim_handlers (created new) = done []
  master_claim_handlers (changed old new) = done (pvc_in_master_updated lib old new)
  master_claim_handlers (removed old) = done (pvc_in_master_deleted lib old)
  master_claim_handlers (missed old) = panic

  unfoldable pub master_volume_handlers : Change PersistentVolume → Run (List String)
  unfolding pv_in_master_deleted
  master_volume_handlers (removed old) = done (pv_in_master_deleted lib old)
  master_volume_handlers (missed old) = panic
  master_volume_handlers change = done []

  unfoldable pub client_claim_handlers : Change PersistentVolumeClaim → Run (List String)
  unfolding pvc_in_client_updated
  client_claim_handlers (changed old new) = done (pvc_in_client_updated lib old new)
  client_claim_handlers change = done []

  unfoldable pub client_volume_handlers :
      (String → String → Result ApiError PersistentVolumeClaim)
      → Result ApiError PersistentVolume
      → Change PersistentVolume
      → Run (List VolumeCall × List String)
  unfolding pv_in_client_added pv_in_client_updated
  client_volume_handlers claims answer (created new) = pv_in_client_added lib claims answer new
  client_volume_handlers claims answer (changed old new) =
      pv_in_client_updated lib claims answer old new
  client_volume_handlers claims answer change = done ([], [])
