-- ===== src/Controllers/Informers/Deliveries.antt =====
-- When the handler of a deletion in the upper cluster panics.
use tensile_kube.Prelude.{String, ◌≡◌, ◌↔◌, Bool, true, false, Option, arith}
use tensile_kube.Prelude.Dict.{Dict}
use tensile_kube.Prelude.Run.{panic, Result}
use tensile_kube.Api.{
  ObjectMeta, ConfigMap, Secret, Service, Endpoints, PersistentVolumeClaim, PersistentVolume,
  ApiError,
}
use tensile_kube.Controllers.Volumes.{Library}
use tensile_kube.Controllers.Informers.{
  Change, missed, config_map_handlers, secret_handlers, service_handlers, endpoints_handlers,
  master_claim_handlers, master_volume_handlers,
}

abbrev pub is_missed : {O : Type 0} → Change O → Bool
is_missed (missed old) = true
is_missed change = false

module _ (deep_equal : Option (Dict String) → Option (Dict String) → Bool)
    (key_of : ObjectMeta → Result ApiError String) (lib : Library) where
  -- Every handler of a deletion in the upper cluster panics exactly on a tombstone, as the informer gives it
  -- for a deletion that the watch missed.
  handlers-panic :
      (cm : Change ConfigMap) (sec : Change Secret) (svc : Change Service) (ep : Change Endpoints)
      (pvc : Change PersistentVolumeClaim) (pv : Change PersistentVolume)
      → ((config_map_handlers deep_equal key_of cm ≡ panic) ↔ (is_missed cm ≡ true))
        × ((secret_handlers deep_equal key_of sec ≡ panic) ↔ (is_missed sec ≡ true))
        × ((service_handlers deep_equal key_of svc ≡ panic) ↔ (is_missed svc ≡ true))
        × ((endpoints_handlers deep_equal key_of ep ≡ panic) ↔ (is_missed ep ≡ true))
        × ((master_claim_handlers lib pvc ≡ panic) ↔ (is_missed pvc ≡ true))
        × ((master_volume_handlers lib pv ≡ panic) ↔ (is_missed pv ≡ true))
  unfolding config_map_handlers secret_handlers service_handlers endpoints_handlers
      master_claim_handlers master_volume_handlers
  handlers-panic cm sec svc ep pvc pv = (
    (λ h. ground arith, λ h. ground arith),
    (λ h. ground arith, λ h. ground arith),
    (λ h. ground arith, λ h. ground arith),
    (λ h. ground arith, λ h. ground arith),
    (λ h. ground arith, λ h. ground arith),
    (λ h. ground arith, λ h. ground arith),
  )
