-- ===== src/Controllers/Volumes/Persistent/Patches.antt =====
-- pkg/controllers/pv_controller.go: what a patch of an upper volume leaves alone.
use tensile_kube.Prelude.{String, ◌≡◌, refl, Option, [], ◌∷◌, arith}
use tensile_kube.Prelude.Run.{Run, done, panic, Result, ok, err}
use tensile_kube.Api.{PersistentVolume, ClaimRef, ApiError}
use tensile_kube.Util.Conversions.{trim_object_meta}
use tensile_kube.Controllers.Global.{filter_pv, pin_affinity}
use tensile_kube.Controllers.Volumes.{
  Library, master, pv_patch, upper_claim_ref, patch_pv, patched_pv,
}
use tensile_kube.Controllers.Volumes.Persistent.{VolumeAnswers, Handled, retry_on, update_in_master}

module _ (lib : Library) (host_ip : String) (a : VolumeAnswers) where
  -- When `syncPVStatusHandler` patches a volume that the upper cluster has, the patch goes to the upper
  -- volume's name, and it leads from the volume that `filterPV` has made of the upper one to a volume
  -- with the pinned node affinity of the upper one and without a resource version.
  update_in_master-kept :
      (found pv : PersistentVolume) (h : Handled) (name text : String)
      → update_in_master lib host_ip a found pv ≡ done h
      → h.calls ≡ pv_patch master name text ∷ []
      → (name ≡ found.meta.name)
        × ((sent : PersistentVolume) × (lib.volume_patch (filter_pv found host_ip) sent ≡ ok text)
            × (sent.node_affinity ≡ pin_affinity host_ip found.node_affinity)
            × (sent.meta.resource_version ≡ ""))
  unfolding update_in_master retry_on patch_pv patched_pv filter_pv trim_object_meta
  update_in_master-kept found pv h name text e c =
      go (upper_claim_ref a.claims pv.claim_ref found.claim_ref) refl
    where
      sent : Option ClaimRef → PersistentVolume
      sent ref = patched_pv lib (filter_pv found host_ip) (record pv { claim_ref = ref })

      go :
          (r : Run (Result ApiError (Option ClaimRef)))
          → upper_claim_ref a.claims pv.claim_ref found.claim_ref ≡ r
          → (name ≡ found.meta.name)
            × ((sent : PersistentVolume) × (lib.volume_patch (filter_pv found host_ip) sent
                  ≡ ok text)
                × (sent.node_affinity ≡ pin_affinity host_ip found.node_affinity)
                × (sent.meta.resource_version ≡ ""))
      go panic computed = ground arith
      go (done (err f)) computed = ground arith
      go (done (ok ref)) computed = (ground arith, (sent ref, ground arith, refl, refl))
