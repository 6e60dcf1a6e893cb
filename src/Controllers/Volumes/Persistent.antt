-- ===== src/Controllers/Volumes/Persistent.antt =====
-- pkg/controllers/pv_controller.go: volumes, which the lower cluster has made and the upper one shows.
pub mod Delivery
pub mod Panics
pub mod Patches
use tensile_kube.Prelude.{
  String, Bool, true, false, Option, none, some, List, [], ◌∷◌, ◌++◌, if◌then◌else◌,
}
use tensile_kube.Prelude.Run.{Run, done, panic, ◌>>=◌, Result, ok, err}
use tensile_kube.Api.{PersistentVolumeClaim, PersistentVolume, ClaimRef, ApiError}
use tensile_kube.Controllers.Global.{filter_pv}
use tensile_kube.Controllers.Common.{is_not_found, is_deleting}
use tensile_kube.Controllers.Services.{QueueOp, forget, add_rate_limited, error_of}
use tensile_kube.Controllers.Volumes.{
  Library, Cluster, master, client, VolumeCall, pv_delete, pv_create, patch_pv, upper_claim_ref,
}
use tensile_kube.Controllers.Volumes.Claims.{requeue, requeue_delete}

-- What the listers and the upper API server answer for the volume; `claims` is the upper claim lister.
pub record VolumeAnswers : Type 0 where
  pub in_master : Result ApiError PersistentVolume
  pub in_client : Result ApiError PersistentVolume
  pub on_master_server : Result ApiError PersistentVolume
  pub claims : String → String → Result ApiError PersistentVolumeClaim
  pub delete : Result ApiError (Unit {0})
  pub create : Result ApiError PersistentVolume
  pub patch : Result ApiError PersistentVolume

-- What a sync function does; `cached` is what the upper lister answers from then on, since the code
-- writes into the object that it gets there.
pub record Handled : Type 0 where
  pub calls : List VolumeCall
  pub ops : List QueueOp
  pub cached : Result ApiError PersistentVolume

-- The deferred function of `syncPVStatusHandler`.
unfoldable pub retry_on : Option ApiError → List QueueOp → List QueueOp
retry_on none ops = ops
retry_on (some e) ops = add_rate_limited ∷ []

module _ (lib : Library) (host_ip : String) (a : VolumeAnswers) where
  unfoldable pub create_in_master : PersistentVolume → Run Handled
  unfolding filter_pv upper_claim_ref retry_on
  create_in_master pv =
      let upper = filter_pv pv host_ip in
      upper_claim_ref a.claims pv.claim_ref upper.claim_ref >>= λ r. elim r [
        | err e ↦ done (record { calls = []; ops = retry_on (some e) []; cached = a.in_master })
        | ok ref ↦ done (record {
          calls = pv_create master (record upper { claim_ref = ref }) ∷ [];
          ops = retry_on (error_of a.create) [];
          cached = a.in_master;
        })
      ]

  unfoldable pub update_in_master : PersistentVolume → PersistentVolume → Run Handled
  unfolding filter_pv upper_claim_ref retry_on patch_pv
  update_in_master found pv =
      let upper = filter_pv found host_ip in
      upper_claim_ref a.claims pv.claim_ref upper.claim_ref >>= λ r. elim r [
        | err e ↦ done (record { calls = []; ops = retry_on (some e) []; cached = ok upper })
        | ok ref ↦
            let (calls, failed) =
              patch_pv lib a.patch upper (record pv { claim_ref = ref }) master in
            done (record { calls = calls; ops = retry_on failed (forget ∷ []); cached = ok upper })
      ]

  unfoldable pub sync_pv_status_handler : PersistentVolume → Run Handled
  unfolding create_in_master update_in_master
  sync_pv_status_handler pv = elim (lib.key_of pv.meta) [
    | err e ↦ done (record { calls = []; ops = []; cached = a.in_master })
    | ok key ↦ elim a.in_master [
      | err e ↦
          (if is_not_found e
            then create_in_master pv
            else done (record { calls = []; ops = retry_on (some e) []; cached = a.in_master }))
      | ok found ↦ update_in_master found pv
    ]
  ]

  unfoldable pub delete_pv_in_master : String → Run Handled
  unfolding requeue_delete
  delete_pv_in_master name = done (record {
    calls = pv_delete master name ∷ [];
    ops = requeue_delete a.delete;
    cached = a.in_master;
  })

  unfoldable pub sync_pv_status_from_client : String → Run Handled
  unfolding sync_pv_status_handler delete_pv_in_master requeue
  sync_pv_status_from_client name = elim a.in_client [
    | err e ↦
        (if is_not_found e
          then delete_pv_in_master name
          else done (record { calls = []; ops = requeue (some e); cached = a.in_master }))
    | ok pv ↦
        (if is_deleting pv.meta
          then delete_pv_in_master name
          else sync_pv_status_handler pv >>= λ h. done (record h { ops = h.ops ++ requeue none }))
  ]

  unfoldable pub delete_pv_in_client : String → Run (List VolumeCall × List QueueOp)
  unfolding requeue_delete
  delete_pv_in_client name = done (pv_delete client name ∷ [], requeue_delete a.delete)

  -- Where the lister has no volume and the API server has one, the nil volume is read.
  unfoldable pub sync_pv_from_master : String → Run (List VolumeCall × List QueueOp)
  unfolding delete_pv_in_client requeue
  sync_pv_from_master name = elim a.in_master [
    | err e ↦
        (if is_not_found e
          then elim a.on_master_server [
            | ok pv ↦ panic
            | err e ↦
                (if is_not_found e then delete_pv_in_client name else done ([], requeue (some e)))
          ]
          else done ([], requeue (some e)))
    | ok pv ↦ if is_deleting pv.meta then delete_pv_in_client name else done ([], requeue none)
  ]
