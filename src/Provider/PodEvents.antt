-- ===== src/Provider/PodEvents.antt =====
-- pkg/provider/provider.go, the informer of the lower cluster's pods, and `GetRequestFromPod` of
-- pkg/util/util.go. Pods that the virtual kubelet has sent are reported upwards; any other pod changes
-- the capacity of the virtual node. `none` is a virtual node that is not configured yet.
pub mod Numbers
pub mod Moves
pub mod Life
pub mod Handlers
use tensile_kube.Prelude.{
  String, Bool, true, false, not, ◌&&◌, ◌||◌, Option, none, some, List, [], ◌∷◌, ◌==◌,
  if◌then◌else◌,
}
use tensile_kube.Prelude.Dict.{Dict}
use tensile_kube.Api.{Pod, PodStatus, Container}
use tensile_kube.Util.Consts.{is_virtual_pod}
use tensile_kube.Util.Conversions.{trim_object_meta}
use tensile_kube.Common.Resource.{
  Quantity, Resource, convert_resource, add_resource, sub_resource, equal_resource,
}
use tensile_kube.Controllers.Common.{is_set}
use tensile_kube.Provider.Needs.{pod_stopped}

-- What the handlers take from the libraries: `Quantity.Equal`, the quantity 1, `PodRequestsAndLimits`,
-- and `reflect.DeepEqual` on lists of containers and on statuses.
pub record PodLibrary (Q : Type 0) : Type 0 where
  pub equal : Q → Q → Bool
  pub one : Q
  pub requests : Pod → Dict Q
  pub same_containers : List Container → List Container → Bool
  pub same_status : PodStatus → PodStatus → Bool

-- The capacity afterwards, whether the node is reported, and the pod that is reported.
pub record Reported (Q : Type 0) : Type 0 where
  pub vk : Option (Dict Q)
  pub node : Bool
  pub pod : Option Pod

module _ {Q : Type 0} (qs : Quantity Q) (lib : PodLibrary Q) where
  abbrev pub nothing : Option (Dict Q) → Reported Q
  nothing vk = record { vk = vk; node = false; pod = none }

  unfoldable pub get_request_from_pod : Pod → Resource Q
  unfolding convert_resource
  get_request_from_pod pod = convert_resource qs (lib.requests pod)

  -- The request of the pod, which counts as one pod.
  unfoldable pub as_one : Resource Q → Resource Q
  as_one r = record r { pods = lib.one }

  -- A pod of the lower cluster alone, that comes with a node.
  unfoldable pub take_room : Pod → Option (Dict Q) → Reported Q
  unfolding get_request_from_pod as_one sub_resource
  take_room pod none = nothing none
  take_room pod (some capacity) =
      if pod.spec.node_name == "" then nothing (some capacity) else record {
        vk = sub_resource qs (as_one (get_request_from_pod pod)) (some capacity);
        node = true;
        pod = none;
      }

  unfoldable pub give_room : Pod → Option (Dict Q) → Reported Q
  unfolding get_request_from_pod as_one add_resource pod_stopped
  give_room pod none = nothing none
  give_room pod (some capacity) =
      if pod_stopped pod
      then nothing (some capacity)
      else if pod.spec.node_name == ""
      then nothing (some capacity)
      else record {
        vk = add_resource qs (as_one (get_request_from_pod pod)) (some capacity);
        node = true;
        pod = none;
      }

  unfoldable pub add_pod : Bool → Pod → Option (Dict Q) → Reported Q
  unfolding trim_object_meta take_room
  add_pod configured pod vk =
      let copy : Pod = record pod { meta = trim_object_meta pod.meta } in
      if not configured
      then nothing vk
      else if not (is_virtual_pod copy)
      then take_room copy vk
      else record { vk = vk; node = false; pod = some copy }

  unfoldable pub delete_pod : Bool → Pod → Option (Dict Q) → Reported Q
  unfolding trim_object_meta give_room
  delete_pod configured pod vk =
      let copy : Pod = record pod { meta = trim_object_meta pod.meta } in
      if not configured
      then nothing vk
      else if not (is_virtual_pod copy)
      then give_room copy vk
      else record { vk = vk; node = false; pod = some copy }

  -- The three tests of `updateVKCapacityFromPod`.
  abbrev pub is_bound_now : Pod → Pod → Bool
  is_bound_now old new = (old.spec.node_name == "") && not (new.spec.node_name == "")

  abbrev pub is_stopped_now : Pod → Pod → Bool
  is_stopped_now old new = (old.status.phase == "Running") && pod_stopped new

  abbrev pub is_changed : Pod → Pod → Bool
  is_changed old new =
      (new.status.phase == "Running")
      && not (lib.same_containers old.spec.containers new.spec.containers)

  -- The request of the new pod, which the first two steps make count as one pod.
  unfoldable pub new_request : Pod → Pod → Resource Q
  unfolding get_request_from_pod as_one pod_stopped
  new_request old new =
      if is_bound_now old new || is_stopped_now old new
      then as_one (get_request_from_pod new)
      else get_request_from_pod new

  unfoldable pub bind_step : Pod → Pod → Option (Dict Q) → Option (Dict Q)
  unfolding get_request_from_pod as_one sub_resource
  bind_step old new vk =
      if is_bound_now old new then sub_resource qs (as_one (get_request_from_pod new)) vk else vk

  unfoldable pub stop_step : Pod → Pod → Option (Dict Q) → Option (Dict Q)
  unfolding get_request_from_pod as_one add_resource pod_stopped
  stop_step old new vk =
      if is_stopped_now old new then add_resource qs (as_one (get_request_from_pod new)) vk else vk

  -- The capacity, and whether the node is reported: not where the last step ends early.
  unfoldable pub update_vk_capacity_from_pod : Pod → Pod → Option (Dict Q) → Option (Dict Q) × Bool
  unfolding bind_step stop_step new_request equal_resource add_resource sub_resource
  update_vk_capacity_from_pod old new vk =
      let stepped = stop_step old new (bind_step old new vk) in
      if is_changed old new
      then (if equal_resource qs lib.equal (get_request_from_pod old) (new_request old new)
          then (stepped, false)
          else (
            sub_resource qs (new_request old new)
                (add_resource qs (get_request_from_pod old) stepped),
            true,
          ))
      else (stepped, true)

  unfoldable pub update_pod : Bool → Pod → Pod → Option (Dict Q) → Reported Q
  unfolding update_vk_capacity_from_pod trim_object_meta
  update_pod configured old new vk =
      if not configured
      then nothing vk
      else if not (is_virtual_pod new)
      then elim vk [
        | none ↦ nothing none
        | some capacity ↦ record {
          vk = (update_vk_capacity_from_pod old new (some capacity)).0;
          node = (update_vk_capacity_from_pod old new (some capacity)).1;
          pod = none;
        }
      ]
      else if not (lib.same_status old.status new.status) || is_set new.meta.deletion_timestamp
      then record {
        vk = vk;
        node = false;
        pod = some (record new { meta = trim_object_meta new.meta });
      }
      else nothing vk
