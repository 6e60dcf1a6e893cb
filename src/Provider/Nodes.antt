-- ===== src/Provider/Nodes.antt =====
-- pkg/provider/provider.go, the informer of the lower cluster's nodes: how the capacity of the virtual
-- node follows theirs. `none` is a virtual node that is not configured yet.
pub mod Numbers
pub mod Capacity
pub mod Members
use tensile_kube.Prelude.{
  String, Bool, true, false, not, ◌&&◌, ◌||◌, Option, none, some, List, [], ◌∷◌, ◌==◌,
  if◌then◌else◌,
}
use tensile_kube.Prelude.Dict.{Dict}
use tensile_kube.Api.{Condition}
use tensile_kube.Common.Resource.{Quantity, Resource, convert_resource, add_resource, sub_resource}

pub record LowerNode (Q : Type 0) : Type 0 where
  pub conditions : List Condition
  pub unschedulable : Bool
  pub capacity : Dict Q
  pub allocatable : Dict Q

-- `checkNodeStatusReady` of pkg/provider/helper.go.
unfoldable pub check_node_status_ready : List Condition → Bool
check_node_status_ready [] = false
check_node_status_ready (c ∷ cs) =
    let rest = check_node_status_ready cs in
    if c.type == "Ready" then (if c.status == "True" then true else rest) else rest

module _ {Q : Type 0} (qs : Quantity Q) where
  abbrev pub ready : LowerNode Q → Bool
  ready n = check_node_status_ready n.conditions

  -- The handlers of a node that joins and of one that leaves. `used` is what
  -- `getResourceFromPodsByNodeName` finds for the node.
  unfoldable pub node_added : Resource Q → LowerNode Q → Option (Dict Q) → Option (Dict Q)
  node_added used new vk =
      sub_resource qs used (add_resource qs (convert_resource qs new.capacity) vk)

  unfoldable pub node_deleted : Resource Q → LowerNode Q → Option (Dict Q) → Option (Dict Q)
  node_deleted used old vk =
      add_resource qs used (sub_resource qs (convert_resource qs old.capacity) vk)

  -- The three steps of `updateVKCapacityFromNode`. `deep_equal` is `reflect.DeepEqual`.
  unfoldable pub gain : Resource Q → LowerNode Q → LowerNode Q → Option (Dict Q) → Option (Dict Q)
  gain used old new vk =
      if (old.unschedulable && not new.unschedulable) || (ready new && not (ready old))
      then sub_resource qs used (add_resource qs (convert_resource qs new.capacity) vk)
      else vk

  unfoldable pub lose : Resource Q → LowerNode Q → LowerNode Q → Option (Dict Q) → Option (Dict Q)
  lose used old new vk =
      if (not old.unschedulable && new.unschedulable) || (ready old && not (ready new))
      then sub_resource qs (convert_resource qs old.capacity) (add_resource qs used vk)
      else vk

  unfoldable pub resize :
      (Dict Q → Dict Q → Bool) → LowerNode Q → LowerNode Q → Option (Dict Q) → Option (Dict Q)
  resize deep_equal old new vk =
      if not (deep_equal old.allocatable new.allocatable)
        || not (deep_equal old.capacity new.capacity)
      then sub_resource qs (convert_resource qs old.capacity)
          (add_resource qs (convert_resource qs new.capacity) vk)
      else vk

  unfoldable pub update_vk_capacity_from_node :
      (Dict Q → Dict Q → Bool)
      → Resource Q
      → LowerNode Q
      → LowerNode Q
      → Option (Dict Q)
      → Option (Dict Q)
  unfolding gain lose resize
  update_vk_capacity_from_node deep_equal used old new vk =
      if not (ready old) && not (ready new)
      then vk
      else resize deep_equal old new (lose used old new (gain used old new vk))
