-- ===== src/Controllers/Volumes/Events.antt =====
-- pkg/controllers/pv_controller.go: the informers' handlers. Each returns the keys that it enqueues;
-- the two on volumes of the lower cluster also mark a bound volume of a global claim.
pub mod Marks
use tensile_kube.Prelude.{
  String, Bool, true, false, ◌&&◌, Option, none, some, List, [], ◌∷◌, ◌==◌, if◌then◌else◌,
}
use tensile_kube.Prelude.Run.{Run, done, panic, ◌>>=◌, Result, ok, err}
use tensile_kube.Api.{ObjectMeta, PersistentVolumeClaim, PersistentVolume, ClaimRef, ApiError}
use tensile_kube.Controllers.Global.{is_object_global, set_object_global}
use tensile_kube.Controllers.Volumes.{
  Library, Cluster, client, VolumeCall, patch_pv, should_enqueue_volume,
}

module _ (lib : Library) where
  unfoldable pub enqueue_volume : Bool → ObjectMeta → List String
  enqueue_volume b meta =
      if b then elim (lib.key_of meta) [ err e ↦ [] | ok key ↦ key ∷ [] ] else []

  unfoldable pub pvc_added : PersistentVolumeClaim → List String
  unfolding enqueue_volume should_enqueue_volume
  pvc_added pvc = enqueue_volume (should_enqueue_volume pvc.meta) pvc.meta

  unfoldable pub pvc_in_client_updated : PersistentVolumeClaim → PersistentVolumeClaim → List String
  unfolding enqueue_volume should_enqueue_volume
  pvc_in_client_updated old new =
      if is_object_global new.meta
      then enqueue_volume (should_enqueue_volume new.meta) new.meta
      else []

  unfoldable pub pvc_in_master_updated : PersistentVolumeClaim → PersistentVolumeClaim → List String
  unfolding enqueue_volume should_enqueue_volume
  pvc_in_master_updated old new = enqueue_volume (should_enqueue_volume new.meta) new.meta

  unfoldable pub pvc_in_master_deleted : PersistentVolumeClaim → List String
  unfolding enqueue_volume should_enqueue_volume
  pvc_in_master_deleted pvc = enqueue_volume (should_enqueue_volume pvc.meta) pvc.meta

  unfoldable pub pv_in_master_deleted : PersistentVolume → List String
  unfolding enqueue_volume should_enqueue_volume
  pv_in_master_deleted pv = enqueue_volume (should_enqueue_volume pv.meta) pv.meta

  -- `claims` is the lower claim lister, and `answer` the lower API server's to the patch.
  module _ (claims : String → String → Result ApiError PersistentVolumeClaim)
      (answer : Result ApiError PersistentVolume) where
    unfoldable pub mark_volume :
        PersistentVolume → PersistentVolumeClaim → List VolumeCall × Option ApiError
    unfolding patch_pv set_object_global
    mark_volume pv pvc =
        if is_object_global pvc.meta
        then patch_pv lib answer pv (record pv { meta = set_object_global pv.meta }) client
        else ([], none)

    unfoldable pub try_set_annotation : PersistentVolume → Run (List VolumeCall × Option ApiError)
    unfolding mark_volume
    try_set_annotation pv =
        if pv.phase == "Bound"
        then elim pv.claim_ref [
          | none ↦ panic
          | some ref ↦ elim (claims ref.namespace ref.name) [
            | err e ↦ done ([], some e)
            | ok pvc ↦ done (mark_volume pv pvc)
          ]
        ]
        else done ([], none)

    unfoldable pub enqueue_marked : PersistentVolume → List String
    unfolding enqueue_volume should_enqueue_volume
    enqueue_marked pv =
        if is_object_global pv.meta
        then enqueue_volume (should_enqueue_volume pv.meta) pv.meta
        else []

    unfoldable pub pv_in_client_added : PersistentVolume → Run (List VolumeCall × List String)
    unfolding try_set_annotation enqueue_marked
    pv_in_client_added pv = try_set_annotation pv >>= λ (calls, failed).
        done (calls, elim failed [ some e ↦ [] | none ↦ enqueue_marked pv ])

    unfoldable pub pv_in_client_updated :
        PersistentVolume → PersistentVolume → Run (List VolumeCall × List String)
    unfolding try_set_annotation enqueue_marked
    pv_in_client_updated old new = try_set_annotation new >>= λ (calls, failed).
        done (calls, elim failed [ some e ↦ [] | none ↦ enqueue_marked new ])

-- `shouldEnUpperQueue`, which no handler calls; `same` compares the resources of the specs.
unfoldable pub should_en_upper_queue :
    (PersistentVolumeClaim → PersistentVolumeClaim → Bool)
    → PersistentVolumeClaim
    → PersistentVolumeClaim
    → Bool
should_en_upper_queue same old new =
    if same old new
    then elim new.meta.deletion_timestamp [ none ↦ false | some at ↦ true ]
    else true
