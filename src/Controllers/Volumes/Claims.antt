-- ===== src/Controllers/Volumes/Claims.antt =====
-- pkg/controllers/pv_controller.go: claims, which the upper cluster has made and the lower one binds.
pub mod Delivery
use tensile_kube.Prelude.{
  String, Bool, true, false, Option, none, some, List, [], ◌∷◌, ◌++◌, if◌then◌else◌,
}
use tensile_kube.Prelude.Run.{Result, ok, err}
use tensile_kube.Api.{PersistentVolumeClaim, ApiError}
use tensile_kube.Controllers.Global.{is_object_global, filter_pvc}
use tensile_kube.Controllers.Common.{is_not_found, is_deleting}
use tensile_kube.Controllers.Services.{QueueOp, forget, add_rate_limited}
use tensile_kube.Controllers.Volumes.{
  Library, Cluster, master, client, VolumeCall, pvc_delete, patch_pvc,
}

-- What the two listers and the API server answer for the claim.
pub record ClaimAnswers : Type 0 where
  pub in_master : Result ApiError PersistentVolumeClaim
  pub in_client : Result ApiError PersistentVolumeClaim
  pub delete : Result ApiError (Unit {0})
  pub patch : Result ApiError PersistentVolumeClaim

-- The deferred function of a sync function.
unfoldable pub requeue : Option ApiError → List QueueOp
requeue none = forget ∷ []
requeue (some e) = add_rate_limited ∷ []

-- A deletion that finds nothing is fine.
unfoldable pub requeue_delete : Result ApiError (Unit {0}) → List QueueOp
requeue_delete (ok u) = forget ∷ []
requeue_delete (err e) = if is_not_found e then forget ∷ [] else add_rate_limited ∷ []

module _ (lib : Library) (host_ip : String) where
  unfoldable pub patch_pvc_status :
      ClaimAnswers
      → PersistentVolumeClaim
      → PersistentVolumeClaim × Bool
      → List VolumeCall × List QueueOp
  unfolding patch_pvc
  patch_pvc_status a upper (copy, false) = ([], add_rate_limited ∷ [])
  patch_pvc_status a upper (copy, true) =
      let clone = record copy {
        meta = record copy.meta { resource_version = upper.meta.resource_version };
      } in
      let (calls, failed) = patch_pvc lib a.patch upper clone master true in
      (calls, elim failed [ none ↦ forget ∷ [] | some e ↦ add_rate_limited ∷ [] ])

  unfoldable pub sync_pvc_status_handler :
      ClaimAnswers → PersistentVolumeClaim → List VolumeCall × List QueueOp
  unfolding patch_pvc_status filter_pvc
  sync_pvc_status_handler a pvc = elim (lib.key_of pvc.meta) [
    | err e ↦ ([], [])
    | ok key ↦ elim a.in_master [
      | err e ↦ ([], if is_not_found e then [] else add_rate_limited ∷ [])
      | ok upper ↦ patch_pvc_status a upper (filter_pvc lib.marshal pvc host_ip)
    ]
  ]

  unfoldable pub sync_pvc_status_from_client :
      (String → String → ClaimAnswers) → String → List VolumeCall × List QueueOp
  unfolding sync_pvc_status_handler
  sync_pvc_status_from_client answers key = elim (lib.split key) [
    | none ↦ ([], forget ∷ [])
    | some (namespace, name) ↦ elim (answers namespace name).in_client [
      | err e ↦ ([], if is_not_found e then forget ∷ [] else add_rate_limited ∷ [])
      | ok pvc ↦
          let (calls, ops) = sync_pvc_status_handler (answers namespace name) pvc in
          (calls, ops ++ (forget ∷ []))
    ]
  ]

module _ (lib : Library) where
  unfoldable pub delete_pvc_in_client :
      ClaimAnswers → String → String → List VolumeCall × List QueueOp
  unfolding requeue_delete
  delete_pvc_in_client a namespace name =
      (pvc_delete client namespace name ∷ [], requeue_delete a.delete)

  unfoldable pub update_pvc_in_client :
      ClaimAnswers → PersistentVolumeClaim → List VolumeCall × List QueueOp
  unfolding patch_pvc requeue
  update_pvc_in_client a pvc = elim a.in_client [
    | err e ↦ ([], requeue (some e))
    | ok old ↦
        let (calls, failed) = patch_pvc lib a.patch old pvc client false in (calls, requeue failed)
  ]

  -- `syncPVCFromMaster` from the point where the key is split.
  unfoldable pub sync_pvc : ClaimAnswers → String → String → List VolumeCall × List QueueOp
  unfolding delete_pvc_in_client update_pvc_in_client
  sync_pvc a namespace name = elim a.in_master [
    | err e ↦
        (if is_not_found e
          then elim a.in_client [
            | err e ↦ ([], if is_not_found e then forget ∷ [] else add_rate_limited ∷ [])
            | ok lower ↦ delete_pvc_in_client a namespace name
          ]
          else ([], add_rate_limited ∷ []))
    | ok pvc ↦
        (if is_deleting pvc.meta
          then delete_pvc_in_client a namespace name
          else update_pvc_in_client a pvc)
  ]

  unfoldable pub sync_pvc_from_master :
      (String → String → ClaimAnswers) → String → List VolumeCall × List QueueOp
  unfolding sync_pvc
  sync_pvc_from_master answers key = elim (lib.split key) [
    | none ↦ ([], forget ∷ [])
    | some (namespace, name) ↦ sync_pvc (answers namespace name) namespace name
  ]

-- `gc`: the deletions, by the answer of the upper lister for each listed claim.
unfoldable pub gc_pvcs :
    (PersistentVolumeClaim → Result ApiError PersistentVolumeClaim)
    → List (Option PersistentVolumeClaim)
    → List VolumeCall
gc_pvcs upper [] = []
gc_pvcs upper (none ∷ cs) = gc_pvcs upper cs
gc_pvcs upper (some c ∷ cs) =
    let rest = gc_pvcs upper cs in
    if is_object_global c.meta
    then elim (upper c) [
      | ok found ↦ rest
      | err e ↦
          if is_not_found e then pvc_delete client c.meta.namespace c.meta.name ∷ rest else rest
    ]
    else rest
