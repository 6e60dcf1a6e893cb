-- ===== src/Controllers/Volumes/Events/Marks.antt =====
-- pkg/controllers/pv_controller.go: how a bound volume of a global claim comes to be synchronised.
use tensile_kube.Prelude.{
  String, ◌≡◌, refl, true, false, Option, none, some, [], ◌∷◌, arith, ◌==◌, eq_iff, ap, sym, subst,
  ==_self,
}
use tensile_kube.Prelude.Dict.{Dict, index_nil, make_if_nil, insert, index-insert_self}
use tensile_kube.Prelude.Run.{done, Result, ok}
use tensile_kube.Api.{ObjectMeta, PersistentVolumeClaim, PersistentVolume, ClaimRef, ApiError}
use tensile_kube.Util.Consts.{global_label}
use tensile_kube.Controllers.Global.{is_object_global, set_object_global}
use tensile_kube.Controllers.Volumes.{
  Library, client, pv_patch, patch_pv, patched_pv, should_enqueue_volume,
}
use tensile_kube.Controllers.Volumes.Events.{
  enqueue_volume, mark_volume, try_set_annotation, enqueue_marked, pv_in_client_added,
  pv_in_client_updated,
}

is_object_global-set : (meta : ObjectMeta) → is_object_global (set_object_global meta) ≡ true
unfolding is_object_global set_object_global index_nil
is_object_global-set meta =
    rw (index-insert_self global_label "true" (make_if_nil meta.annotations))

insert-insert : (k v : String) (m : Dict String) → insert k v (insert k v m) ≡ insert k v m
unfolding insert
insert-insert k v [] = ground (arith, ==_self k)
insert-insert k v ((j, w) ∷ m) = ground (arith, ==_self k, eq_iff j k, insert-insert k v m)

set_object_global_idem :
    (meta : ObjectMeta) → set_object_global (set_object_global meta) ≡ set_object_global meta
unfolding set_object_global
set_object_global_idem meta =
    ap (λ m. record meta { annotations = some m })
      (insert-insert global_label "true" (make_if_nil meta.annotations))

module _ (lib : Library)
    (annotations_refl : (a : Option (Dict String)) → lib.same_annotations a a ≡ true)
    (volume_refl : (pv : PersistentVolume) → lib.same_volume pv pv ≡ true)
    (same_lem : (a b : Option (Dict String))
      → lib.same_annotations a b ≡ true
      → index_nil global_label a ≡ index_nil global_label b)
    (claims : String → String → Result ApiError PersistentVolumeClaim)
    (answer : Result ApiError PersistentVolume) where
  -- The volume as `SetObjectGlobal` and `patchPV` make it.
  abbrev pub marked : PersistentVolume → PersistentVolume
  marked pv = patched_pv lib pv (record pv { meta = set_object_global pv.meta })

  mark_volume-unmarked :
      (pv : PersistentVolume) (pvc : PersistentVolumeClaim) (text : String)
      → is_object_global pvc.meta ≡ true
      → is_object_global pv.meta ≡ false
      → lib.volume_patch pv (marked pv) ≡ ok text
      → answer ≡ ok (marked pv)
      → mark_volume lib claims answer pv pvc ≡ (pv_patch client pv.meta.name text ∷ [], none)
  unfolding mark_volume patch_pv is_object_global
  mark_volume-unmarked pv pvc text g u p s = ground (
    arith,
    same_lem pv.meta.annotations (set_object_global pv.meta).annotations,
    is_object_global-set pv.meta,
  )

  patch_pv_self : (pv : PersistentVolume) → patch_pv lib answer pv pv client ≡ ([], none)
  unfolding patch_pv
  patch_pv_self pv = rw (annotations_refl, volume_refl) refl

  mark_volume-marked :
      (pv : PersistentVolume) (pvc : PersistentVolumeClaim)
      → is_object_global pvc.meta ≡ true
      → set_object_global pv.meta ≡ pv.meta
      → mark_volume lib claims answer pv pvc ≡ ([], none)
  unfolding mark_volume
  mark_volume-marked pv pvc g i = rw (g) (
      subst (λ meta. patch_pv lib answer pv (record pv { meta = meta }) client ≡ ([], none)) (sym i)
        (patch_pv_self pv))

  -- The first event of a bound volume of a global claim marks the volume and enqueues nothing; the update
  -- event that the patch brings about enqueues its key. By then it makes no call. Two annotation maps that are deeply
  -- equal have the same value at the mark, and a value is deeply equal to itself.
  pub pv_in_client-enqueued :
      (pv old : PersistentVolume) (ref : ClaimRef) (pvc : PersistentVolumeClaim) (text key : String)
      → (pv.phase == "Bound") ≡ true
      → pv.claim_ref ≡ some ref
      → claims ref.namespace ref.name ≡ ok pvc
      → is_object_global pvc.meta ≡ true
      → is_object_global pv.meta ≡ false
      → lib.volume_patch pv (marked pv) ≡ ok text
      → answer ≡ ok (marked pv)
      → should_enqueue_volume pv.meta ≡ true
      → lib.key_of (marked pv).meta ≡ ok key
      → (pv_in_client_added lib claims answer pv
          ≡ done (pv_patch client pv.meta.name text ∷ [], []))
        × (pv_in_client_updated lib claims answer old (marked pv) ≡ done ([], key ∷ []))
  unfolding pv_in_client_added pv_in_client_updated try_set_annotation enqueue_marked enqueue_volume
      patched_pv set_object_global should_enqueue_volume
  pv_in_client-enqueued pv old ref pvc text key b r c g u p s q k = (
    rw (b, r, c, mark_volume-unmarked pv pvc text g u p s, u) refl,
    rw (b, r, c, mark_volume-marked (marked pv) pvc g (set_object_global_idem pv.meta))
        (ground (arith, is_object_global-set pv.meta)),
  )
