-- ===== src/Controllers/Volumes/Claims/Delivery.antt =====
-- pkg/controllers/pv_controller.go: when a claim of the lower cluster is as the upper one wants it.
use tensile_kube.Prelude.{
  String, ◌≡◌, refl, Option, none, some, List, [], ◌∷◌, arith, if◌then◌else◌, ◌⊎◌, inl, inr, true,
  false, Option-cases, Bool-cases,
}
use tensile_kube.Prelude.Run.{Result, ok, err}
use tensile_kube.Api.{PersistentVolumeClaim, ApiError}
use tensile_kube.Controllers.Global.{is_object_global, check_global_label_equal}
use tensile_kube.Controllers.Common.{is_not_found, is_deleting}
use tensile_kube.Controllers.Common.Delivery.{fresh}
use tensile_kube.Controllers.Services.{forget, add_rate_limited}
use tensile_kube.Controllers.Volumes.{Library, client, VolumeCall, pvc_delete, pvc_patch, patch_pvc}
use tensile_kube.Controllers.Volumes.Claims.{
  ClaimAnswers, requeue, requeue_delete, delete_pvc_in_client, update_pvc_in_client, sync_pvc,
}

abbrev pub answers :
    Option String
    → Option String
    → Option PersistentVolumeClaim
    → Option PersistentVolumeClaim
    → Result ApiError (Unit {0})
    → Result ApiError PersistentVolumeClaim
    → ClaimAnswers
answers mf cf m c delete patch = record {
  in_master = fresh mf m;
  in_client = fresh cf c;
  delete = delete;
  patch = patch;
}

module _ (lib : Library)
    (apply_patch : String → PersistentVolumeClaim → PersistentVolumeClaim) where
  -- The copy of an upper claim: none where the upper cluster does not have the claim or is deleting it, and
  -- otherwise one that is there, and is the upper claim or the same in what the controller compares.
  abbrev pub IsCopy : Option PersistentVolumeClaim → Option PersistentVolumeClaim → Type 0
  IsCopy none c = c ≡ none
  IsCopy (some upper) c =
      ((is_deleting upper.meta ≡ true) × (c ≡ none))
      ⊎ ((is_deleting upper.meta ≡ false)
          × ((copy : PersistentVolumeClaim) × (c ≡ some copy)
              × ((copy ≡ upper) ⊎ (lib.same_claim copy upper ≡ true))))

  -- The claim is marked as global, where it is there.
  abbrev pub IsMarked : Option PersistentVolumeClaim → Type 0
  IsMarked none = Unit
  IsMarked (some pvc) = is_object_global pvc.meta ≡ true

  -- What it holds after one call, by what its server answers.
  abbrev pub after_call :
      ClaimAnswers → VolumeCall → Option PersistentVolumeClaim → Option PersistentVolumeClaim
  after_call a (pvc_delete client ns name) c = elim a.delete [
    | ok u ↦ none
    | err e ↦ if is_not_found e then none else c
  ]
  after_call a (pvc_patch client ns name text) c = elim a.patch [
    | ok u ↦ elim c [ none ↦ none | some lower ↦ some (apply_patch text lower) ]
    | err e ↦ c
  ]
  after_call a call c = c

  abbrev pub after :
      ClaimAnswers → List VolumeCall → Option PersistentVolumeClaim → Option PersistentVolumeClaim
  after a [] c = c
  after a (call ∷ calls) c = after a calls (after_call a call c)

  -- Where the claim is marked as global in each cluster that has it, the listers are up to date or fail, and
  -- a merge patch has its effect, the key of the claim is forgotten only when the lower cluster holds the
  -- copy of the upper claim (`IsCopy`), whichever lister fails and whatever the server answers.
  pub sync_pvc-IsCopy :
      (mf cf : Option String) (m c : Option PersistentVolumeClaim)
      (delete : Result ApiError (Unit {0})) (patch : Result ApiError PersistentVolumeClaim)
      (namespace name : String)
      → IsMarked m
      → IsMarked c
      → ((upper lower : PersistentVolumeClaim) (text : String)
          → m ≡ some upper
          → c ≡ some lower
          → lib.claim_patch lower upper ≡ ok text
          → apply_patch text lower ≡ upper)
      → (sync_pvc lib (answers mf cf m c delete patch) namespace name).1 ≡ forget ∷ []
      → IsCopy m (
          after
            (answers mf cf m c delete patch)
            (sync_pvc lib (answers mf cf m c delete patch) namespace name).0
            c)
  unfolding sync_pvc delete_pvc_in_client update_pvc_in_client patch_pvc requeue requeue_delete
      check_global_label_equal is_not_found
  sync_pvc-IsCopy (some e) cf m c delete patch namespace name um lm patches h = ground arith
  sync_pvc-IsCopy none (some e) none c delete patch namespace name um lm patches h = ground arith
  sync_pvc-IsCopy none (some e) (some u) c delete patch namespace name um lm patches h =
      elim (Option-cases u.meta.deletion_timestamp) [
        | inl living ↦ ground arith
        | inr (at, deleting) ↦ inl (ground arith, ground arith)
      ]
  sync_pvc-IsCopy none none none none delete patch namespace name um lm patches h = refl
  sync_pvc-IsCopy none none none (some l) delete patch namespace name um lm patches h = ground arith
  sync_pvc-IsCopy none none (some u) none delete patch namespace name um lm patches h =
      elim (Option-cases u.meta.deletion_timestamp) [
        | inl living ↦ ground arith
        | inr (at, deleting) ↦ inl (ground arith, ground arith)
      ]
  sync_pvc-IsCopy none none (some u) (some l) delete patch namespace name um lm patches h =
      elim (Option-cases u.meta.deletion_timestamp) [
        | inr (at, deleting) ↦ inl (ground arith, ground arith)
        | inl living ↦ elim (Bool-cases (lib.same_claim l u)) [
          | inl same ↦ inr (ground arith, (l, ground arith, inr same))
          | inr differ ↦ go (lib.claim_patch l u) refl living differ
        ]
      ]
    where
      go :
          (p : Result ApiError String)
          → lib.claim_patch l u ≡ p
          → u.meta.deletion_timestamp ≡ none
          → lib.same_claim l u ≡ false
          → IsCopy (some u) (
              after
                (answers none none (some u) (some l) delete patch)
                (sync_pvc lib (answers none none (some u) (some l) delete patch) namespace name).0
                (some l))
      go (err e) computed living differ = ground arith
      go (ok text) computed living differ =
          inr (ground arith, (u, ground (arith, patches u l text refl refl computed), inl refl))

module _ (lib : Library) where
  -- While the lower lister answers with an error, as for a claim that it lacks, the key of an upper claim
  -- that is not being deleted makes no call and is put back under the rate limit.
  pub sync_pvc-missing :
      (a : ClaimAnswers) (upper : PersistentVolumeClaim) (namespace name : String) (e : ApiError)
      → a.in_master ≡ ok upper
      → upper.meta.deletion_timestamp ≡ none
      → a.in_client ≡ err e
      → sync_pvc lib a namespace name ≡ ([], add_rate_limited ∷ [])
  unfolding sync_pvc update_pvc_in_client requeue
  sync_pvc-missing a upper namespace name e m d c = ground arith
