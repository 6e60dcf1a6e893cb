-- ===== src/Tests/Nodes.antt =====
-- The virtual node, when a node of the lower cluster is uncordoned.
use tensile_kube.Prelude.{String, refl, true, false, Bool, some, [], ◌∷◌}
use tensile_kube.Prelude.Dict.{Dict, NodupKeys, lookup}
use tensile_kube.Prelude.Int.{ℤ, pos, ◌+ℤ◌, ◌-ℤ◌}
use tensile_kube.Common.Resource.{quota}
use tensile_kube.Common.Resource.Capacity.{Holds}
use tensile_kube.Provider.Nodes.{LowerNode, check_node_status_ready, update_vk_capacity_from_node}
use tensile_kube.Provider.Nodes.Capacity.{of_node, contribution, update-twice}
use tensile_kube.Tests.Resources.{integers, exact, capacity, more, capacity-NodupKeys, more-Plain}

abbrev lower : Bool → Dict ℤ → LowerNode ℤ
lower unschedulable c = record {
  conditions = record { type = "Ready"; status = "True"; reason = "" } ∷ [];
  unschedulable = unschedulable;
  capacity = c;
  allocatable = c;
}

abbrev grown : Dict ℤ
grown = ("cpu", pos 16) ∷ []

abbrev has : String → ℤ
has j = quota integers j capacity

Holds-capacity : Holds integers exact (some capacity) has
Holds-capacity = record {
  capacity = capacity;
  there = refl;
  nodup = capacity-NodupKeys;
  amounts = λ j. refl;
}

grown-NodupKeys : NodupKeys grown
unfolding lookup
grown-NodupKeys = (refl, tt)

update-twice_example :
    Holds integers exact
      (update_vk_capacity_from_node integers
        (λ a b. false)
        more
        (lower true capacity)
        (lower false grown)
        (some capacity))
      (λ j.
        (has j +ℤ contribution integers exact more (lower false grown) j)
        +ℤ (of_node integers exact (lower false grown) j
            -ℤ of_node integers exact (lower true capacity) j))
unfolding check_node_status_ready
update-twice_example =
    update-twice integers exact (λ a b. false) (some capacity) has more (lower true capacity)
      (lower false grown) more-Plain capacity-NodupKeys grown-NodupKeys refl refl refl refl refl
      Holds-capacity
