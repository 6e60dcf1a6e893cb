-- ===== src/Provider/PodEvents/Handlers.antt =====
-- The handlers of pod events through the life of a pod of the lower cluster alone.
use tensile_kube.Prelude.{
  String, ◌≡◌, refl, ◌∙◌, ap, sym, subst, true, false, Option, none, some, List, [], ◌∷◌, arith,
  ◌==◌, All,
}
use tensile_kube.Prelude.Dict.{Dict, NodupKeys, lookup}
use tensile_kube.Prelude.Int.{ℤ, ◌-ℤ◌}
use tensile_kube.Api.{ObjectMeta, Pod}
use tensile_kube.Util.Consts.{is_virtual_pod}
use tensile_kube.Util.Conversions.{trim_object_meta}
use tensile_kube.Common.Resource.{Quantity, IsExact, add_resource, sub_resource}
use tensile_kube.Common.Resource.Capacity.{Holds}
use tensile_kube.Provider.Needs.{pod_stopped}
use tensile_kube.Provider.PodEvents.Moves.{is_bound, is_counted, amount}
use tensile_kube.Provider.PodEvents.Life.{run_updates, last_of, Moves, room-Holds, room-leaks}
use tensile_kube.Provider.PodEvents.{
  PodLibrary, get_request_from_pod, take_room, give_room, update_vk_capacity_from_pod, add_pod,
  update_pod, delete_pod, bind_step, stop_step,
}

module _ {Q : Type 0} (qs : Quantity Q) (lib : PodLibrary Q)
    (meta_free : (p : Pod) (m : ObjectMeta)
      → lib.requests (record p { meta = m }) ≡ lib.requests p) where
  take_room-meta :
      (vk : Option (Dict Q)) (pod : Pod) (m : ObjectMeta)
      → (take_room qs lib (record pod { meta = m }) vk).vk ≡ (take_room qs lib pod vk).vk
  unfolding take_room get_request_from_pod
  take_room-meta none pod m = refl
  take_room-meta (some capacity) pod m = rw (meta_free pod m) refl

  give_room-meta :
      (vk : Option (Dict Q)) (pod : Pod) (m : ObjectMeta)
      → (give_room qs lib (record pod { meta = m }) vk).vk ≡ (give_room qs lib pod vk).vk
  unfolding give_room get_request_from_pod pod_stopped
  give_room-meta none pod m = refl
  give_room-meta (some capacity) pod m = rw (meta_free pod m) refl

  add_pod-vk :
      (vk : Option (Dict Q)) (pod : Pod)
      → is_virtual_pod pod ≡ false
      → (add_pod qs lib true pod vk).vk ≡ (take_room qs lib pod vk).vk
  unfolding add_pod is_virtual_pod trim_object_meta
  add_pod-vk vk pod foreign = rw (foreign) (take_room-meta vk pod (trim_object_meta pod.meta))

  delete_pod-vk :
      (vk : Option (Dict Q)) (pod : Pod)
      → is_virtual_pod pod ≡ false
      → (delete_pod qs lib true pod vk).vk ≡ (give_room qs lib pod vk).vk
  unfolding delete_pod is_virtual_pod trim_object_meta
  delete_pod-vk vk pod foreign = rw (foreign) (give_room-meta vk pod (trim_object_meta pod.meta))

  update_vk-none : (old new : Pod) → (update_vk_capacity_from_pod qs lib old new none).0 ≡ none
  unfolding update_vk_capacity_from_pod bind_step stop_step add_resource sub_resource
  update_vk-none old new = ground arith

  update_pod-vk :
      (vk : Option (Dict Q)) (old new : Pod)
      → is_virtual_pod new ≡ false
      → (update_pod qs lib true old new vk).vk ≡ (update_vk_capacity_from_pod qs lib old new vk).0
  unfolding update_pod
  update_pod-vk none old new foreign = rw (foreign) (sym (update_vk-none old new))
  update_pod-vk (some capacity) old new foreign = rw (foreign) refl

module _ {Q : Type 0} (qs : Quantity Q) (lib : PodLibrary Q) where
  -- The capacity after the updates of a pod, from its first version on.
  abbrev pub handle_updates : Pod → List Pod → Option (Dict Q) → Option (Dict Q)
  handle_updates old [] vk = vk
  handle_updates old (new ∷ more) vk =
      handle_updates new more (update_pod qs lib true old new vk).vk

  -- The capacity after all events of a pod: its addition, the updates, and the deletion of the last
  -- version, `last`.
  abbrev pub handle_life : Pod → List Pod → Pod → Option (Dict Q) → Option (Dict Q)
  handle_life pod more last vk =
      (delete_pod qs lib true last (handle_updates pod more (add_pod qs lib true pod vk).vk)).vk

module _ {Q : Type 0} (qs : Quantity Q) (exact : IsExact qs) (lib : PodLibrary Q)
    (no_pods : (p : Pod) → lookup "pods" (lib.requests p) ≡ none)
    (nodup : (p : Pod) → NodupKeys (lib.requests p))
    (meta_free : (p : Pod) (m : ObjectMeta)
      → lib.requests (record p { meta = m }) ≡ lib.requests p) where
  abbrev pub IsForeign : Pod → Type 0
  IsForeign p = is_virtual_pod p ≡ false

  handle_updates-run_updates :
      (vk : Option (Dict Q)) (old : Pod) (more : List Pod)
      → All IsForeign more
      → handle_updates qs lib old more vk ≡ run_updates qs exact lib no_pods nodup old more vk
  handle_updates-run_updates vk old [] foreign = refl
  handle_updates-run_updates vk old (new ∷ more) (here, rest) =
      ap (handle_updates qs lib new more) (update_pod-vk qs lib meta_free vk old new here)
      ∙ handle_updates-run_updates (update_vk_capacity_from_pod qs lib old new vk).0 new more rest

  -- The events change the capacity as the room that they take and give.
  handle_life-room :
      (vk : Option (Dict Q)) (pod last : Pod) (more : List Pod)
      → IsForeign pod
      → All IsForeign more
      → IsForeign last
      → handle_life qs lib pod more last vk
        ≡ (give_room qs lib last
            (run_updates qs exact lib no_pods nodup pod more (take_room qs lib pod vk).vk)).vk
  handle_life-room vk pod last more first rest end =
      delete_pod-vk qs lib meta_free _ last end
      ∙ ap (λ v. (give_room qs lib last v).vk)
          (ap (handle_updates qs lib pod more) (add_pod-vk qs lib meta_free vk pod first)
            ∙ handle_updates-run_updates (take_room qs lib pod vk).vk pod more rest)

  -- Through the regular life of a pod of the lower cluster alone, from `addPod` over any number of
  -- `updatePod` to `deletePod`, the virtual node gives up what the pod takes and gets all of it back:
  -- each of its resources has its old value in the end. The pod has not stopped when it is first
  -- seen, its requests do not depend on its metadata, and they list no pods and no name twice.
  pub life-Holds :
      (vk : Option (Dict Q)) (total : String → ℤ) (pod : Pod) (more : List Pod)
      → IsForeign pod
      → All IsForeign more
      → IsForeign (last_of qs exact lib no_pods nodup pod more)
      → pod_stopped pod ≡ false
      → Moves qs exact lib no_pods nodup pod more
      → Holds qs exact vk total
      → Holds qs exact
          (handle_life qs lib pod more (last_of qs exact lib no_pods nodup pod more) vk)
          total
  life-Holds vk total pod more first rest end fresh moves h =
      subst (λ v. Holds qs exact v total)
        (sym (
          handle_life-room vk pod (last_of qs exact lib no_pods nodup pod more) more first rest
            end))
        (room-Holds qs exact lib no_pods nodup vk total pod more fresh moves h)

  -- A pod of the lower cluster alone that has a node when it is added, and that stops before it has run,
  -- as one that its node refuses, is never given back: neither the update to its end nor the
  -- deletion counts it, and the virtual node stays smaller by its request. Its
  -- requests do not depend on its metadata, and they list no pods and no name twice.
  pub life-leaks :
      (vk : Option (Dict Q)) (total : String → ℤ) (pod ended : Pod)
      → IsForeign pod
      → IsForeign ended
      → is_counted pod ≡ true
      → (pod.status.phase == "Pending") ≡ true
      → is_bound ended ≡ true
      → pod_stopped ended ≡ true
      → Holds qs exact vk total
      → Holds qs exact
          (handle_life qs lib pod (ended ∷ []) ended vk)
          (λ j. total j -ℤ amount qs exact lib no_pods nodup pod j)
  life-leaks vk total pod ended first end counted pending bound stopped h =
      subst (λ v. Holds qs exact v (λ j. total j -ℤ amount qs exact lib no_pods nodup pod j))
        (sym (handle_life-room vk pod ended (ended ∷ []) first (end, tt) end))
        (room-leaks qs exact lib no_pods nodup vk total pod ended counted pending bound stopped h)
