-- ===== src/Controllers/Volumes/Persistent/Panics.antt =====
-- pkg/controllers/pv_controller.go: when the synchronisation of a volume panics.
use tensile_kube.Prelude.{String, ◌≡◌, ◌↔◌, refl, ap, subst, Option, none, some, arith}
use tensile_kube.Prelude.Run.{panic, Result, ok, err}
use tensile_kube.Api.{PersistentVolume, ClaimRef, PersistentVolumeClaim, ApiError, not_found}
use tensile_kube.Controllers.Global.{filter_pv}
use tensile_kube.Controllers.Common.{is_not_found}
use tensile_kube.Controllers.Volumes.{Library, upper_claim_ref}
use tensile_kube.Controllers.Volumes.Persistent.{
  VolumeAnswers, create_in_master, update_in_master, sync_pv_status_handler, sync_pv_from_master,
  delete_pv_in_client,
}

-- That the upper cluster has no claim reference of the volume, as its lister says.
abbrev pub IsUnclaimed : Result ApiError PersistentVolume → Type 0
IsUnclaimed (err e) = e ≡ not_found
IsUnclaimed (ok pv) = pv.claim_ref ≡ none

upper_claim_ref-panic :
    (claims : String → String → Result ApiError PersistentVolumeClaim)
    (copy upper : Option ClaimRef)
    → upper_claim_ref claims copy upper ≡ panic
    → (copy ≡ none) × (upper ≡ none)
unfolding upper_claim_ref
upper_claim_ref-panic claims none none h = (refl, refl)
upper_claim_ref-panic claims none (some u) h = ground arith
upper_claim_ref-panic claims (some ref) upper h = ground arith

module _ (lib : Library) (host_ip : String) (a : VolumeAnswers) where
  create_in_master-panic :
      (pv : PersistentVolume) → create_in_master lib host_ip a pv ≡ panic → pv.claim_ref ≡ none
  unfolding create_in_master filter_pv
  create_in_master-panic pv h =
      ground (arith, upper_claim_ref-panic a.claims pv.claim_ref pv.claim_ref)

  update_in_master-panic :
      (found pv : PersistentVolume)
      → update_in_master lib host_ip a found pv ≡ panic
      → (pv.claim_ref ≡ none) × (found.claim_ref ≡ none)
  unfolding update_in_master filter_pv
  update_in_master-panic found pv h =
      ground (arith, upper_claim_ref-panic a.claims pv.claim_ref found.claim_ref)

  create_in_master-unclaimed :
      (pv : PersistentVolume) → pv.claim_ref ≡ none → create_in_master lib host_ip a pv ≡ panic
  unfolding create_in_master filter_pv upper_claim_ref
  create_in_master-unclaimed pv c = rw (c) refl

  update_in_master-unclaimed :
      (found pv : PersistentVolume)
      → pv.claim_ref ≡ none
      → found.claim_ref ≡ none
      → update_in_master lib host_ip a found pv ≡ panic
  unfolding update_in_master filter_pv upper_claim_ref
  update_in_master-unclaimed found pv c u = rw (c, u) refl

  -- `syncPVStatusHandler` panics exactly on a volume without a claim that the upper cluster does not
  -- have, or has without a claim, whatever else the API servers answer: where the reference is nil
  -- in both, the condition before the claim is read holds.
  pub sync_pv_status_handler-panic :
      (pv : PersistentVolume) (key : String)
      → lib.key_of pv.meta ≡ ok key
      → (sync_pv_status_handler lib host_ip a pv ≡ panic)
        ↔ ((pv.claim_ref ≡ none) × IsUnclaimed a.in_master)
  unfolding sync_pv_status_handler is_not_found
  sync_pv_status_handler-panic pv key k = (forth a.in_master refl, back a.in_master refl)
    where
      forth :
          (r : Result ApiError PersistentVolume)
          → a.in_master ≡ r
          → sync_pv_status_handler lib host_ip a pv ≡ panic
          → (pv.claim_ref ≡ none) × IsUnclaimed a.in_master
      forth (err not_found) e h = rw (e) (create_in_master-panic pv (ground arith), refl)
      forth (err f) e h = ground arith
      forth (ok found) e h = rw (e) (update_in_master-panic found pv (ground arith))

      back :
          (r : Result ApiError PersistentVolume)
          → a.in_master ≡ r
          → (pv.claim_ref ≡ none) × IsUnclaimed a.in_master
          → sync_pv_status_handler lib host_ip a pv ≡ panic
      back (err f) e (c, u) =
          rw (k, e, ap (is_not_found) (subst IsUnclaimed e u), sync_pv_status_handler)
            (create_in_master-unclaimed pv c)
      back (ok found) e (c, u) =
          rw (k, e, sync_pv_status_handler)
            (update_in_master-unclaimed found pv c (subst IsUnclaimed e u))

  -- `syncPVFromMaster` panics exactly where the upper lister does not have the volume and the API server
  -- has it.
  sync_pv_from_master-panic :
      (name : String)
      → (sync_pv_from_master lib host_ip a name ≡ panic)
        ↔ ((a.in_master ≡ err not_found) × ((pv : PersistentVolume) × (a.on_master_server ≡ ok pv)))
  unfolding sync_pv_from_master delete_pv_in_client is_not_found
  sync_pv_from_master-panic name =
      (λ h. ground arith, λ (m, (pv, s)). rw (m, s, sync_pv_from_master) refl)
