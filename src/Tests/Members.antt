-- ===== src/Tests/Members.antt =====
-- A node of the lower cluster that joins, is cordoned and uncordoned, and another that joins and leaves;
-- and a node that joins before it is ready.
use tensile_kube.Prelude.{String, refl, sym, true, false, Bool, Option, some, [], ◌∷◌}
use tensile_kube.Prelude.Dict.{Dict}
use tensile_kube.Prelude.Int.{ℤ, ◌+ℤ◌}
use tensile_kube.Common.Resource.{quota}
use tensile_kube.Common.Resource.Capacity.{Holds, add_zero}
use tensile_kube.Provider.Nodes.{
  LowerNode, check_node_status_ready, node_added, node_deleted, update_vk_capacity_from_node,
}
use tensile_kube.Provider.Nodes.Capacity.{Holds-congr}
use tensile_kube.Provider.Nodes.Members.{
  Member, of_member, total, WellFormed, Reach, configured, joins, changes, leaves, members-Holds,
  unready_join-twice,
}
use tensile_kube.Tests.Resources.{integers, exact, capacity, more, capacity-NodupKeys, more-Plain}

abbrev node_of : String → Bool → LowerNode ℤ
node_of status unschedulable = record {
  conditions = record { type = "Ready"; status = status; reason = "" } ∷ [];
  unschedulable = unschedulable;
  capacity = capacity;
  allocatable = capacity;
}

abbrev member : String → Bool → Member ℤ
member status unschedulable = record { node = node_of status unschedulable; used = more }

member-WellFormed :
    (status : String) (unschedulable : Bool)
    → WellFormed integers exact (member status unschedulable)
member-WellFormed status unschedulable = (more-Plain, capacity-NodupKeys)

abbrev has : String → ℤ
has j = quota integers j capacity

configured-Holds : Holds integers exact (some capacity) has
configured-Holds = record {
  capacity = capacity;
  there = refl;
  nodup = capacity-NodupKeys;
  amounts = λ j. refl;
}

abbrev vk₁ : Option (Dict ℤ)
vk₁ = node_added integers more (node_of "True" false) (some capacity)

abbrev vk₂ : Option (Dict ℤ)
vk₂ = node_added integers more (node_of "True" false) vk₁

abbrev vk₃ : Option (Dict ℤ)
vk₃ =
    update_vk_capacity_from_node integers (λ a b. true) more (node_of "True" false)
      (node_of "True" true) vk₂

-- Two nodes join, the second is cordoned, and the first leaves.
reached :
    Reach integers exact
      (λ a b. true)
      (some capacity)
      []
      (member "True" true ∷ [])
      (node_deleted integers more (node_of "True" false) vk₃)
unfolding check_node_status_ready
reached =
    leaves [] (member "True" true ∷ []) vk₃ (member "True" false) (member-WellFormed "True" false)
      refl
      (changes (member "True" false ∷ []) [] vk₂ (member "True" false) (node_of "True" true)
        (member-WellFormed "True" false) refl refl refl refl
        (joins (member "True" false ∷ []) [] vk₁ (member "True" false)
          (member-WellFormed "True" false) refl
          (joins [] [] (some capacity) (member "True" false) (member-WellFormed "True" false) refl
            configured)))

-- No node was there when the virtual node was configured.
started-Holds : Holds integers exact (some capacity) (λ j. has j +ℤ total integers exact [] j)
started-Holds =
    Holds-congr integers exact (some capacity) has _ (λ j. sym (add_zero (has j))) configured-Holds

members-Holds_example :
    Holds integers exact
      (node_deleted integers more (node_of "True" false) vk₃)
      (λ j. has j +ℤ total integers exact (member "True" true ∷ []) j)
members-Holds_example =
    members-Holds integers exact (λ a b. true) (some capacity) [] has (member "True" true ∷ [])
      (node_deleted integers more (node_of "True" false) vk₃) started-Holds reached

unready_join-twice_example :
    Holds integers exact
      (update_vk_capacity_from_node integers
        (λ a b. true)
        more
        (node_of "False" false)
        (node_of "True" false)
        (node_added integers more (node_of "False" false) (some capacity)))
      (λ j.
        (has j +ℤ of_member integers exact (member "True" false) j)
        +ℤ of_member integers exact (member "True" false) j)
unfolding check_node_status_ready
unready_join-twice_example =
    unready_join-twice integers exact (λ a b. true) (some capacity) has (member "False" false)
      (node_of "True" false) (member-WellFormed "False" false) refl refl refl refl refl refl refl
      configured-Holds
