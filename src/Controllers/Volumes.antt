-- ===== src/Controllers/Volumes.antt =====
-- pkg/controllers/pv_controller.go: what its claims and volumes share. Claims go down and their
-- status comes up; volumes are made in the lower cluster and come up. The upper cluster is the master.
pub mod Claims
pub mod Persistent
pub mod Events
use tensile_kube.Prelude.{
  String, Bool, true, false, ◌&&◌, ◌||◌, not, Option, none, some, List, [], ◌∷◌, ◌==◌,
  if◌then◌else◌,
}
use tensile_kube.Prelude.Dict.{Dict}
use tensile_kube.Prelude.Run.{Run, done, panic, Result, ok, err}
use tensile_kube.Api.{ObjectMeta, PersistentVolumeClaim, ClaimRef, PersistentVolume, ApiError}
use tensile_kube.Controllers.Global.{check_global_label_equal}
use tensile_kube.Controllers.Common.{is_set}
use tensile_kube.Controllers.Services.{error_of}

-- What the controller takes from the libraries: `SplitMetaNamespaceKey`, `MetaNamespaceKeyFunc`,
-- `json.Marshal`, `reflect.DeepEqual` on annotations and on specs and statuses, and the merge patches.
pub record Library : Type 0 where
  pub split : String → Option (String × String)
  pub key_of : ObjectMeta → Result ApiError String
  pub marshal : String → Option String
  pub same_annotations : Option (Dict String) → Option (Dict String) → Bool
  pub same_claim : PersistentVolumeClaim → PersistentVolumeClaim → Bool
  pub same_volume : PersistentVolume → PersistentVolume → Bool
  pub claim_patch : PersistentVolumeClaim → PersistentVolumeClaim → Result ApiError String
  pub volume_patch : PersistentVolume → PersistentVolume → Result ApiError String

pub data Cluster : Type 0 where
  master client : Cluster

-- The calls that change something, with the cluster that they go to; a patch is its text.
pub data VolumeCall : Type 0 where
  pvc_delete : Cluster → String → String → VolumeCall
  pvc_patch : Cluster → String → String → String → VolumeCall
  pv_delete : Cluster → String → VolumeCall
  pv_patch : Cluster → String → String → VolumeCall
  pv_create : Cluster → PersistentVolume → VolumeCall

-- `answer` is what the API server answers to the patch; the result is the call and the error.
module _ (lib : Library) where
  unfoldable pub patch_pvc :
      Result ApiError PersistentVolumeClaim
      → PersistentVolumeClaim
      → PersistentVolumeClaim
      → Cluster
      → Bool
      → List VolumeCall × Option ApiError
  patch_pvc answer pvc clone cluster update_to_master =
      if lib.same_claim pvc clone
      then ([], none)
      else if not (check_global_label_equal pvc.meta clone.meta) && not update_to_master
      then ([], none)
      else elim (lib.claim_patch pvc clone) [
        | err e ↦ ([], some e)
        | ok text ↦ (pvc_patch cluster pvc.meta.namespace pvc.meta.name text ∷ [], error_of answer)
      ]

  -- What `patchPV` sends: the clone with what stays as it is.
  unfoldable pub patched_pv : PersistentVolume → PersistentVolume → PersistentVolume
  patched_pv pv clone = record clone {
    node_affinity = pv.node_affinity;
    meta = record clone.meta { uid = pv.meta.uid; resource_version = pv.meta.resource_version };
  }

  unfoldable pub patch_pv :
      Result ApiError PersistentVolume
      → PersistentVolume
      → PersistentVolume
      → Cluster
      → List VolumeCall × Option ApiError
  unfolding patched_pv
  patch_pv answer pv clone cluster =
      if lib.same_annotations pv.meta.annotations clone.meta.annotations && lib.same_volume pv clone
      then ([], none)
      else elim (lib.volume_patch pv (patched_pv pv clone)) [
        | err e ↦ ([], some e)
        | ok text ↦ (pv_patch cluster pv.meta.name text ∷ [], error_of answer)
      ]

-- The claim reference of the volume that goes up: it names the upper claim, which the upper lister
-- answers by namespace and name.
unfoldable pub upper_claim_ref :
    (String → String → Result ApiError PersistentVolumeClaim)
    → Option ClaimRef
    → Option ClaimRef
    → Run (Result ApiError (Option ClaimRef))
upper_claim_ref claims copy upper =
    if is_set copy || not (is_set upper)
    then elim copy [
      | none ↦ panic
      | some ref ↦ elim (claims ref.namespace ref.name) [
        | err e ↦ done (err e)
        | ok pvc ↦ done (
            ok (
              some
                (record ref { uid = pvc.meta.uid; resource_version = pvc.meta.resource_version })))
      ]
    ]
    else done (ok copy)

unfoldable pub should_enqueue_volume : ObjectMeta → Bool
should_enqueue_volume obj =
    if obj.namespace == "kube-system"
    then false
    else if obj.name == "kubernetes"
    then false
    else true
