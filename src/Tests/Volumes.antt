-- ===== src/Tests/Volumes.antt =====
-- Claims and volumes on concrete objects.
use tensile_kube.Prelude.{
  String, ◌≡◌, ◌↔◌, refl, true, Option, none, some, [], ◌∷◌, ◌==◌, ==_self, eq_iff, arith,
}
use tensile_kube.Prelude.Dict.{Dict, index_nil, index, lookup}
use tensile_kube.Prelude.Run.{done, panic, Result, ok, err}
use tensile_kube.Api.{
  ObjectMeta, PersistentVolumeClaim, PersistentVolume, ClaimRef, ApiError, not_found,
}
use tensile_kube.Util.Consts.{global_label}
use tensile_kube.Controllers.Global.{
  filter_pv, is_object_global, check_global_label_equal, set_object_global,
}
use tensile_kube.Controllers.Common.{is_not_found}
use tensile_kube.Controllers.Services.{forget}
use tensile_kube.Controllers.Volumes.{
  Library, master, client, VolumeCall, pv_patch, patch_pvc, patch_pv, patched_pv, pv_create,
  upper_claim_ref, should_enqueue_volume,
}
use tensile_kube.Controllers.Volumes.Claims.{
  ClaimAnswers, sync_pvc, update_pvc_in_client, delete_pvc_in_client, requeue, requeue_delete,
}
use tensile_kube.Controllers.Volumes.Claims.Delivery.{
  IsCopy, answers, sync_pvc-IsCopy, sync_pvc-missing,
}
use tensile_kube.Controllers.Volumes.Persistent.{
  VolumeAnswers, Handled, sync_pv_status_handler, sync_pv_from_master, sync_pv_status_from_client,
  update_in_master, create_in_master, retry_on,
}
use tensile_kube.Controllers.Volumes.Persistent.Panics.{IsUnclaimed, sync_pv_status_handler-panic}
use tensile_kube.Controllers.Volumes.Persistent.Delivery.{
  is_settled, sync_pv_status_from_client-wanted,
}
use tensile_kube.Controllers.Volumes.Events.{pv_in_client_added, pv_in_client_updated}
use tensile_kube.Controllers.Volumes.Events.Marks.{pv_in_client-enqueued}
use tensile_kube.Tests.{web_meta}

abbrev lib : Library
lib = record {
  split = λ key. some ("shop", key);
  key_of = λ meta. ok meta.name;
  marshal = λ selector. some selector;
  same_annotations = λ a b. index_nil global_label a == index_nil global_label b;
  same_claim = λ a b. a.spec_rest == b.spec_rest;
  same_volume = λ a b. a.status == b.status;
  claim_patch = λ old new. ok new.spec_rest;
  volume_patch = λ old new. ok new.status;
}

abbrev global_meta : ObjectMeta
global_meta = record web_meta { annotations = some (("global", "true") ∷ []) }

abbrev sized : String → PersistentVolumeClaim
sized size = record {
  meta = global_meta;
  selector = none;
  volume_name = "";
  spec_rest = size;
  status = "";
}

abbrev resize : String → PersistentVolumeClaim → PersistentVolumeClaim
resize size claim = record claim { spec_rest = size }

resized :
    (upper lower : PersistentVolumeClaim) (text : String)
    → some (sized "2Gi") ≡ some upper
    → some (sized "1Gi") ≡ some lower
    → lib.claim_patch lower upper ≡ ok text
    → resize text lower ≡ upper
resized upper lower text u l t = ground arith

abbrev claim_answers : ClaimAnswers
claim_answers =
    answers none none (some (sized "2Gi")) (some (sized "1Gi")) (ok tt) (ok (sized "2Gi"))

sync_pvc-IsCopy_example : IsCopy lib resize (some (sized "2Gi")) (
    tensile_kube.Controllers.Volumes.Claims.Delivery.after lib resize claim_answers
      (sync_pvc lib claim_answers "shop" "data").0
      (some (sized "1Gi")))
unfolding sync_pvc update_pvc_in_client patch_pvc requeue check_global_label_equal is_object_global
    index_nil index lookup
sync_pvc-IsCopy_example =
    sync_pvc-IsCopy lib resize none none (some (sized "2Gi")) (some (sized "1Gi")) (ok tt)
      (ok (sized "2Gi")) "shop" "data" refl refl resized refl

abbrev ref : ClaimRef
ref = record { namespace = "shop"; name = "data"; uid = "low"; resource_version = "7" }

abbrev disk : Option ClaimRef → String → PersistentVolume
disk ref status = record {
  meta = web_meta;
  node_affinity = none;
  claim_ref = ref;
  spec_rest = "";
  phase = "Bound";
  status = status;
}

abbrev disk_answers :
    Result ApiError PersistentVolume → Result ApiError PersistentVolume → VolumeAnswers
disk_answers in_master in_client = record {
  in_master = in_master;
  in_client = in_client;
  on_master_server = ok (disk none "");
  claims = λ ns n. ok (sized "1Gi");
  delete = ok tt;
  create = ok (disk none "");
  patch = ok (disk none "");
}

sync_pv_status_handler-panic_example :
    (sync_pv_status_handler lib "10.0.0.9"
        (disk_answers (err not_found) (err not_found))
        (disk none "")
      ≡ panic)
    ↔ (((disk none "").claim_ref ≡ none)
        × IsUnclaimed (disk_answers (err not_found) (err not_found)).in_master)
sync_pv_status_handler-panic_example =
    sync_pv_status_handler-panic lib "10.0.0.9" (disk_answers (err not_found) (err not_found))
      (disk none "") "web-0" refl

abbrev handled : PersistentVolume → Handled
handled created = record {
  calls = pv_create master created ∷ [];
  ops = forget ∷ [];
  cached = err not_found;
}

abbrev shown : PersistentVolume
shown =
    tensile_kube.Controllers.Volumes.Persistent.Delivery.shown_volume lib "10.0.0.9" (λ text pv. pv)
      (disk_answers (err not_found) (ok (disk (some ref) "up"))) (disk (some ref) "up")

sync_pv_status_from_client-wanted_example :
    tensile_kube.Controllers.Volumes.Persistent.Delivery.after lib "10.0.0.9"
      (λ text pv. pv)
      (disk_answers (err not_found) (ok (disk (some ref) "up")))
      (handled shown).calls
      none
    ≡ tensile_kube.Controllers.Volumes.Persistent.Delivery.wanted lib "10.0.0.9"
        (λ text pv. pv)
        (disk_answers (err not_found) (ok (disk (some ref) "up")))
        (some (disk (some ref) "up"))
        none
unfolding sync_pv_status_from_client sync_pv_status_handler create_in_master upper_claim_ref
    filter_pv retry_on requeue is_not_found
sync_pv_status_from_client-wanted_example =
    sync_pv_status_from_client-wanted lib "10.0.0.9" (λ text pv. pv)
      (disk_answers (err not_found) (ok (disk (some ref) "up"))) none none none
      (some (disk (some ref) "up")) (handled shown) "disk" (λ pv. (pv.meta.name, refl)) refl refl
      refl refl

same_mark :
    (a b : Option (Dict String))
    → lib.same_annotations a b ≡ true
    → index_nil global_label a ≡ index_nil global_label b
same_mark a b h = (eq_iff (index_nil global_label a) (index_nil global_label b)).0 h

abbrev marked_disk : PersistentVolume
marked_disk =
    tensile_kube.Controllers.Volumes.Events.Marks.marked lib
      (λ a. ==_self (index_nil global_label a)) (λ pv. ==_self pv.status) same_mark
      (λ ns n. ok (sized "1Gi")) (err not_found) (disk (some ref) "up")

pv_in_client-enqueued_example :
    (pv_in_client_added lib (λ ns n. ok (sized "1Gi")) (ok marked_disk) (disk (some ref) "up")
      ≡ done (pv_patch client "web-0" "up" ∷ [], []))
    × (pv_in_client_updated lib
          (λ ns n. ok (sized "1Gi"))
          (ok marked_disk)
          (disk (some ref) "up")
          marked_disk
        ≡ done ([], "web-0" ∷ []))
unfolding is_object_global index_nil index lookup should_enqueue_volume patched_pv set_object_global
pv_in_client-enqueued_example =
    pv_in_client-enqueued lib (λ a. ==_self (index_nil global_label a)) (λ pv. ==_self pv.status)
      same_mark (λ ns n. ok (sized "1Gi")) (ok marked_disk) (disk (some ref) "up")
      (disk (some ref) "up") ref (sized "1Gi") "up" "web-0" refl refl refl refl refl refl refl refl
      refl
