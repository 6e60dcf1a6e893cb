-- ===== src/Common/Resource.antt =====
-- `Resource` and `ProviderNode` of pkg/common/resource.go and pkg/common/node.go.
pub mod Amounts
pub mod Capacity
use tensile_kube.Prelude.{
  String, Bool, true, false, ◌&&◌, ◌↔◌, ◌≡◌, Option, none, some, List, [], ◌∷◌, ◌==◌, if◌then◌else◌,
  nat_beq, length,
}
use tensile_kube.Prelude.Dict.{Dict, lookup, insert, insert_all, make_if_nil}
use tensile_kube.Prelude.Int.{ℤ, pos, ◌+ℤ◌, ◌-ℤ◌}

-- What the code uses of `resource.Quantity`; `zero` is its zero value, `value` the number it stands for.
pub record Quantity (Q : Type 0) : Type 0 where
  pub zero : Q
  pub add : Q → Q → Q
  pub sub : Q → Q → Q
  pub is_zero : Q → Bool
  pub value : Q → ℤ

-- Its documentation: quantities are exact numbers.
pub record IsExact {Q : Type 0} (qs : Quantity Q) : Type 0 where
  pub value-zero : qs.value qs.zero ≡ pos 0
  pub value-add : (a b : Q) → qs.value (qs.add a b) ≡ (qs.value a +ℤ qs.value b)
  pub value-sub : (a b : Q) → qs.value (qs.sub a b) ≡ (qs.value a -ℤ qs.value b)
  pub value_is_zero : (a : Q) → qs.is_zero a ≡ true → qs.value a ≡ pos 0

pub record Resource (Q : Type 0) : Type 0 where
  pub cpu : Q
  pub memory : Q
  pub pods : Q
  pub ephemeral_storage : Q
  pub custom : Option (Dict Q)

module _ {Q : Type 0} (qs : Quantity Q) where
  abbrev pub new_resource : Resource Q
  new_resource = record {
    cpu = qs.zero;
    memory = qs.zero;
    pods = qs.zero;
    ephemeral_storage = qs.zero;
    custom = some [];
  }

  -- A missing name reads as the zero value.
  unfoldable pub quota : String → Dict Q → Q
  quota j m = elim (lookup j m) [ none ↦ qs.zero | some q ↦ q ]

  -- `CustomResources.Equal` and `Resource.Equal`; `equal` is `Quantity.Equal`.
  module _ (equal : Q → Q → Bool) where
    unfoldable pub equal_entries : Dict Q → Dict Q → Bool
    equal_entries [] other = true
    equal_entries ((name, q) ∷ rest) other = elim (lookup name other) [
      | none ↦ false
      | some r ↦ equal r q && equal_entries rest other
    ]

    unfoldable pub equal_custom : Dict Q → Dict Q → Bool
    unfolding equal_entries
    equal_custom cr other =
        if nat_beq (length cr) (length other) then equal_entries cr other else false

    unfoldable pub equal_resource : Resource Q → Resource Q → Bool
    unfolding equal_custom
    equal_resource r other =
        equal r.cpu other.cpu
        && (equal r.memory other.memory
            && (equal r.pods other.pods
                && (equal r.ephemeral_storage other.ephemeral_storage
                    && equal_custom (make_if_nil r.custom) (make_if_nil other.custom))))

  -- The loops of `Add` and `Sub` over the custom resources.
  unfoldable pub combine_custom : (Q → Q → Q) → Dict Q → Option (Dict Q) → Option (Dict Q)
  unfolding quota
  combine_custom op [] custom = custom
  combine_custom op ((name, q) ∷ rest) custom =
      combine_custom op rest
        (some (insert name (op (quota name (make_if_nil custom)) q) (make_if_nil custom)))

  unfoldable pub combine : (Q → Q → Q) → Resource Q → Resource Q → Resource Q
  unfolding combine_custom
  combine op r nc = record {
    cpu = op r.cpu nc.cpu;
    memory = op r.memory nc.memory;
    pods = op r.pods nc.pods;
    ephemeral_storage = op r.ephemeral_storage nc.ephemeral_storage;
    custom = combine_custom op (make_if_nil nc.custom) r.custom;
  }

  unfoldable pub add_to : Resource Q → Resource Q → Resource Q
  unfolding combine
  add_to r nc = combine qs.add r nc

  unfoldable pub sub_from : Resource Q → Resource Q → Resource Q
  unfolding combine
  sub_from r nc = combine qs.sub r nc

  abbrev pub shown : Q → Q
  shown q = if qs.is_zero q then qs.zero else q

  -- The capacity that the node gets; its allocatable resources are a copy of it.
  unfoldable pub set_capacity_to_node : Resource Q → Dict Q
  set_capacity_to_node r = insert_all (make_if_nil r.custom) (
      ("cpu", shown r.cpu)
      ∷ ("memory", shown r.memory)
      ∷ ("pods", shown r.pods)
      ∷ ("ephemeral-storage", shown r.ephemeral_storage)
      ∷ [])

  abbrev pub convert_entry : String → Q → Resource Q → Resource Q
  convert_entry name q r =
      if name == "cpu"
      then record r { cpu = q }
      else if name == "memory"
      then record r { memory = q }
      else if name == "pods"
      then record r { pods = q }
      else if name == "ephemeral-storage"
      then record r { ephemeral_storage = q }
      else record r { custom = some (insert name q (make_if_nil r.custom)) }

  unfoldable pub convert_loop : Dict Q → Resource Q → Resource Q
  convert_loop [] r = r
  convert_loop ((name, q) ∷ rest) r = convert_loop rest (convert_entry name q r)

  unfoldable pub convert_resource : Dict Q → Resource Q
  unfolding convert_loop
  convert_resource resources = convert_loop resources new_resource

  -- `AddResource` and `SubResource` on the capacity of the node; `none` is a node that is not there yet.
  unfoldable pub add_resource : Resource Q → Option (Dict Q) → Option (Dict Q)
  unfolding convert_resource add_to set_capacity_to_node
  add_resource resource none = none
  add_resource resource (some capacity) =
      some (set_capacity_to_node (add_to (convert_resource capacity) resource))

  unfoldable pub sub_resource : Resource Q → Option (Dict Q) → Option (Dict Q)
  unfolding convert_resource sub_from set_capacity_to_node
  sub_resource resource none = none
  sub_resource resource (some capacity) =
      some (set_capacity_to_node (sub_from (convert_resource capacity) resource))
