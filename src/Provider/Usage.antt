-- ===== src/Provider/Usage.antt =====
-- pkg/provider/node.go: the capacity that the virtual node starts with.
pub mod Totals
use tensile_kube.Prelude.{
  String, Bool, true, false, not, ◌&&◌, ◌||◌, Option, none, some, List, [], ◌∷◌, ◌==◌,
  if◌then◌else◌,
}
use tensile_kube.Prelude.Dict.{Dict}
use tensile_kube.Prelude.Run.{Result, ok, err}
use tensile_kube.Api.{Pod, ApiError}
use tensile_kube.Util.Consts.{is_virtual_pod}
use tensile_kube.Common.Resource.{
  Quantity, Resource, new_resource, convert_resource, add_to, sub_from, set_capacity_to_node,
}
use tensile_kube.Provider.Nodes.{LowerNode, check_node_status_ready}
use tensile_kube.Provider.PodEvents.{PodLibrary, get_request_from_pod, as_one}

module _ {Q : Type 0} (qs : Quantity Q) (lib : PodLibrary Q) where
  -- A pod that has a node and has not ended.
  abbrev pub is_placed : Pod → Bool
  is_placed pod =
      ((pod.status.phase == "Pending") && not (pod.spec.node_name == ""))
      || (pod.status.phase == "Running")

  abbrev pub is_usable : LowerNode Q → Bool
  is_usable n = not (n.unschedulable || not (check_node_status_ready n.conditions))

  -- Whether the pod counts; `node_of` is the node lister.
  abbrev pub counts : (String → Result ApiError (LowerNode Q)) → Pod → Bool
  counts node_of pod =
      is_placed pod && elim (node_of pod.spec.node_name) [ err e ↦ false | ok n ↦ is_usable n ]

  -- The loops, which add the request of each pod that counts.
  unfoldable pub sum_requests : (Pod → Bool) → List Pod → Resource Q → Resource Q
  unfolding get_request_from_pod as_one add_to
  sum_requests counted [] r = r
  sum_requests counted (p ∷ ps) r =
      sum_requests counted ps
        (if counted p then add_to qs r (as_one qs lib (get_request_from_pod qs lib p)) else r)

  unfoldable pub get_resource_from_pods :
      (String → Result ApiError (LowerNode Q)) → Result ApiError (List Pod) → Resource Q
  unfolding sum_requests
  get_resource_from_pods node_of (err e) = new_resource qs
  get_resource_from_pods node_of (ok pods) = sum_requests (counts node_of) pods (new_resource qs)

  abbrev pub counts_on_node : Pod → Bool
  counts_on_node pod =
      not (is_virtual_pod pod)
      && ((pod.status.phase == "Pending") || (pod.status.phase == "Running"))

  -- `listed` is what the API server lists for the node.
  unfoldable pub get_resource_from_pods_by_node_name : Result ApiError (List Pod) → Resource Q
  unfolding sum_requests
  get_resource_from_pods_by_node_name (err e) = new_resource qs
  get_resource_from_pods_by_node_name (ok pods) = sum_requests counts_on_node pods (new_resource qs)

  unfoldable pub sum_nodes : List (LowerNode Q) → Resource Q → Resource Q
  unfolding convert_resource add_to
  sum_nodes [] r = r
  sum_nodes (n ∷ ns) r =
      sum_nodes ns (if is_usable n then add_to qs r (convert_resource qs n.capacity) else r)

  -- The capacity of the virtual node after `ConfigureNode`; where the nodes cannot be listed, it stays
  -- without one.
  unfoldable pub configure_node :
      (String → Result ApiError (LowerNode Q))
      → Result ApiError (List (LowerNode Q))
      → Result ApiError (List Pod)
      → Option (Dict Q)
  unfolding sum_nodes get_resource_from_pods sub_from set_capacity_to_node
  configure_node node_of (err e) pods = none
  configure_node node_of (ok nodes) pods = some (
      set_capacity_to_node qs
        (sub_from qs (sum_nodes nodes (new_resource qs)) (get_resource_from_pods node_of pods)))
