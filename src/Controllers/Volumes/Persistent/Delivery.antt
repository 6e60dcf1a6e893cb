-- ===== src/Controllers/Volumes/Persistent/Delivery.antt =====
-- pkg/controllers/pv_controller.go: when the upper cluster shows a volume as the lower one has it.
use tensile_kube.Prelude.{
  String, ◌≡◌, inl, inr, Bool-cases, refl, sym, subst, Bool, true, false, ◌&&◌, Option, none, some,
  List, [], ◌∷◌, ◌++◌, arith, if◌then◌else◌,
}
use tensile_kube.Prelude.Run.{Run, done, panic, Result, ok, err}
use tensile_kube.Api.{PersistentVolume, ClaimRef, PersistentVolumeClaim, ApiError}
use tensile_kube.Controllers.Global.{filter_pv}
use tensile_kube.Controllers.Common.{is_not_found, is_deleting}
use tensile_kube.Controllers.Common.Delivery.{fresh}
use tensile_kube.Controllers.Services.{QueueOp, forget, add_rate_limited}
use tensile_kube.Controllers.Volumes.{
  Library, master, VolumeCall, pv_delete, pv_patch, pv_create, upper_claim_ref, patch_pv,
  patched_pv,
}
use tensile_kube.Controllers.Volumes.Claims.{requeue, requeue_delete}
use tensile_kube.Controllers.Volumes.Persistent.{
  VolumeAnswers, Handled, retry_on, create_in_master, update_in_master, sync_pv_status_handler,
  delete_pv_in_master, sync_pv_status_from_client,
}

-- The reference to the upper claim, where the upper cluster has one.
abbrev pub upper_ref :
    (String → String → Result ApiError PersistentVolumeClaim) → Option ClaimRef → Option ClaimRef
upper_ref claims none = none
upper_ref claims (some ref) = elim (claims ref.namespace ref.name) [
  | err e ↦ some ref
  | ok pvc ↦ some (record ref { uid = pvc.meta.uid; resource_version = pvc.meta.resource_version })
]

upper_claim_ref-upper_ref :
    (claims : String → String → Result ApiError PersistentVolumeClaim)
    (copy upper ref : Option ClaimRef)
    → upper_claim_ref claims copy upper ≡ done (ok ref)
    → ref ≡ upper_ref claims copy
unfolding upper_claim_ref
upper_claim_ref-upper_ref claims none none ref h = ground arith
upper_claim_ref-upper_ref claims none (some u) ref h = ground arith
upper_claim_ref-upper_ref claims (some c) upper ref h = ground arith

-- That no operation puts the key back under the rate limit.
abbrev pub is_settled : List QueueOp → Bool
is_settled [] = true
is_settled (forget ∷ ops) = is_settled ops
is_settled (add_rate_limited ∷ ops) = false

module _ (lib : Library) (host_ip : String)
    (apply_patch : String → PersistentVolume → PersistentVolume) (a : VolumeAnswers) where
  -- The volume that is created above: pinned to the virtual node, without what only the lower cluster
  -- knows, and bound to the upper claim.
  abbrev pub shown_volume : PersistentVolume → PersistentVolume
  shown_volume pv = record (filter_pv pv host_ip) { claim_ref = upper_ref a.claims pv.claim_ref }

  -- The patch on a volume that is there makes the pinned one the lower volume, but for its affinity.
  abbrev pub patch_for : PersistentVolume → PersistentVolume → Result ApiError String
  patch_for pv upper = lib.volume_patch (filter_pv upper host_ip) (
      patched_pv lib (filter_pv upper host_ip)
        (record pv { claim_ref = upper_ref a.claims pv.claim_ref }))

  abbrev pub is_shown : PersistentVolume → PersistentVolume → Bool
  is_shown pv upper =
      lib.same_annotations (filter_pv upper host_ip).meta.annotations pv.meta.annotations
      && lib.same_volume (filter_pv upper host_ip)
          (record pv { claim_ref = upper_ref a.claims pv.claim_ref })

  abbrev pub patched : PersistentVolume → PersistentVolume → PersistentVolume
  patched pv upper = elim (patch_for pv upper) [ err e ↦ upper | ok text ↦ apply_patch text upper ]

  abbrev pub updated : PersistentVolume → PersistentVolume → PersistentVolume
  updated pv upper = if is_shown pv upper then upper else patched pv upper

  -- What the upper cluster should hold, by the lower volume and the upper one.
  abbrev pub wanted : Option PersistentVolume → Option PersistentVolume → Option PersistentVolume
  wanted none m = none
  wanted (some pv) m =
      if is_deleting pv.meta
      then none
      else elim m [ none ↦ some (shown_volume pv) | some upper ↦ some (updated pv upper) ]

  abbrev pub after_call : VolumeCall → Option PersistentVolume → Option PersistentVolume
  after_call (pv_delete master name) m = elim a.delete [
    | ok u ↦ none
    | err e ↦ if is_not_found e then none else m
  ]
  after_call (pv_create master pv) m = elim a.create [ ok u ↦ some pv | err e ↦ m ]
  after_call (pv_patch master name text) m = elim a.patch [
    | ok u ↦ elim m [ none ↦ none | some upper ↦ some (apply_patch text upper) ]
    | err e ↦ m
  ]
  after_call call m = m

  abbrev pub after : List VolumeCall → Option PersistentVolume → Option PersistentVolume
  after [] m = m
  after (call ∷ calls) m = after calls (after_call call m)

  create_in_master-shown :
      (pv : PersistentVolume) (h : Handled)
      → create_in_master lib host_ip a pv ≡ done h
      → is_settled h.ops ≡ true
      → after h.calls none ≡ some (shown_volume pv)
  unfolding create_in_master retry_on filter_pv
  create_in_master-shown pv h e s = go (upper_claim_ref a.claims pv.claim_ref pv.claim_ref) refl
    where
      go :
          (r : Run (Result ApiError (Option ClaimRef)))
          → upper_claim_ref a.claims pv.claim_ref pv.claim_ref ≡ r
          → after h.calls none ≡ some (shown_volume pv)
      go panic computed = ground arith
      go (done (err f)) computed = ground arith
      go (done (ok ref)) computed =
          ground (arith, upper_claim_ref-upper_ref a.claims pv.claim_ref pv.claim_ref ref computed)

  patch_pv-after :
      (found pv : PersistentVolume) (ref : Option ClaimRef)
      → ref ≡ upper_ref a.claims pv.claim_ref
      → let (calls, failed) =
          patch_pv lib a.patch (filter_pv found host_ip) (record pv { claim_ref = ref }) master in
        failed ≡ none → after calls (some found) ≡ some (updated pv found)
  unfolding patch_pv
  patch_pv-after found pv ref r fine =
      subst
        (λ ref.
          let (calls, failed) =
            patch_pv lib a.patch (filter_pv found host_ip) (record pv { claim_ref = ref }) master in
          failed ≡ none → after calls (some found) ≡ some (updated pv found))
        (sym r) (λ fine. ground arith) fine

  update_in_master-updated :
      (found pv : PersistentVolume) (h : Handled)
      → update_in_master lib host_ip a found pv ≡ done h
      → is_settled h.ops ≡ true
      → after h.calls (some found) ≡ some (updated pv found)
  unfolding update_in_master retry_on
  update_in_master-updated found pv h e s =
      go (upper_claim_ref a.claims pv.claim_ref (filter_pv found host_ip).claim_ref) refl
    where
      go :
          (r : Run (Result ApiError (Option ClaimRef)))
          → upper_claim_ref a.claims pv.claim_ref (filter_pv found host_ip).claim_ref ≡ r
          → after h.calls (some found) ≡ some (updated pv found)
      go panic computed = ground arith
      go (done (err f)) computed = ground arith
      go (done (ok ref)) computed = ground (
        arith,
        patch_pv-after found pv ref (
            upper_claim_ref-upper_ref a.claims pv.claim_ref (filter_pv found host_ip).claim_ref ref
              computed),
      )

  sync_pv_status_handler-wanted :
      (mf : Option String) (m : Option PersistentVolume) (pv : PersistentVolume) (h : Handled)
      (key : String)
      → lib.key_of pv.meta ≡ ok key
      → a.in_master ≡ fresh mf m
      → is_deleting pv.meta ≡ false
      → sync_pv_status_handler lib host_ip a pv ≡ done h
      → is_settled h.ops ≡ true
      → after h.calls m ≡ wanted (some pv) m
  unfolding sync_pv_status_handler retry_on is_not_found
  sync_pv_status_handler-wanted (some f) m pv h key k up d e s = ground arith
  sync_pv_status_handler-wanted none none pv h key k up d e s =
      ground (arith, create_in_master-shown pv h)
  sync_pv_status_handler-wanted none (some found) pv h key k up d e s =
      ground (arith, update_in_master-updated found pv h)

  is_settled-append :
      (ops : List QueueOp) → is_settled (ops ++ (forget ∷ [])) ≡ true → is_settled ops ≡ true
  is_settled-append [] s = refl
  is_settled-append (forget ∷ ops) s = is_settled-append ops s
  is_settled-append (add_rate_limited ∷ ops) s = s

  -- Where the listers are up to date or fail and every volume has a key, a run on a volume of the lower
  -- cluster that does not panic and does not put the key back leaves in the upper cluster what
  -- should be there: nothing for a volume that is gone or being deleted, the copy that names
  -- the upper claim where there was none, and the patched volume otherwise.
  pub sync_pv_status_from_client-wanted :
      (mf cf : Option String) (m c : Option PersistentVolume) (h : Handled) (name : String)
      → ((pv : PersistentVolume) → (key : String) × (lib.key_of pv.meta ≡ ok key))
      → a.in_master ≡ fresh mf m
      → a.in_client ≡ fresh cf c
      → sync_pv_status_from_client lib host_ip a name ≡ done h
      → is_settled h.ops ≡ true
      → after h.calls m ≡ wanted c m
  unfolding sync_pv_status_from_client delete_pv_in_master requeue requeue_delete is_not_found
  sync_pv_status_from_client-wanted mf (some f) m c h name keys up down e s = ground arith
  sync_pv_status_from_client-wanted mf none m none h name keys up down e s = ground arith
  sync_pv_status_from_client-wanted mf none m (some pv) h name keys up down e s =
      elim (Bool-cases (is_deleting pv.meta)) [
        | inl d ↦ ground arith
        | inr d ↦ go (sync_pv_status_handler lib host_ip a pv) refl d
      ]
    where
      go :
          (r : Run Handled)
          → sync_pv_status_handler lib host_ip a pv ≡ r
          → is_deleting pv.meta ≡ false
          → after h.calls m ≡ wanted (some pv) m
      go panic computed d = ground arith
      go (done g) computed d = ground (
        arith,
        is_settled-append g.ops,
        sync_pv_status_handler-wanted mf m pv g (keys pv).0 (keys pv).1 up d computed,
      )
