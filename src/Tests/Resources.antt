-- ===== src/Tests/Resources.antt =====
-- The capacity of a node, with integers for quantities.
use tensile_kube.Prelude.{zero, suc, ◌≡◌, refl, true, arith, Bool, false, some, [], ◌∷◌}
use tensile_kube.Prelude.Dict.{Dict, NodupKeys, lookup}
use tensile_kube.Prelude.Int.{ℤ, pos, negsuc, ◌+ℤ◌, ◌-ℤ◌}
use tensile_kube.Common.Resource.{Quantity, IsExact, Resource, quota, add_resource, sub_resource}
use tensile_kube.Common.Resource.Amounts.{Plain}
use tensile_kube.Common.Resource.Capacity.{sub_resource-add_resource}

abbrev pub is_pos_zero : ℤ → Bool
is_pos_zero (pos zero) = true
is_pos_zero (pos (suc n)) = false
is_pos_zero (negsuc n) = false

abbrev pub integers : Quantity ℤ
integers = record {
  zero = pos 0;
  add = λ a b. a +ℤ b;
  sub = λ a b. a -ℤ b;
  is_zero = is_pos_zero;
  value = λ a. a;
}

zero_value : (a : ℤ) → is_pos_zero a ≡ true → a ≡ pos 0
zero_value a h = ground arith

pub exact : IsExact integers
exact = record {
  value-zero = refl;
  value-add = λ a b. refl;
  value-sub = λ a b. refl;
  value_is_zero = zero_value;
}

abbrev pub capacity : Dict ℤ
capacity = ("cpu", pos 8) ∷ ("gpu", pos 2) ∷ []

abbrev pub more : Resource ℤ
more = record {
  cpu = pos 4;
  memory = pos 16;
  pods = pos 110;
  ephemeral_storage = pos 0;
  custom = some (("gpu", pos 1) ∷ []);
}

pub capacity-NodupKeys : NodupKeys capacity
unfolding lookup
capacity-NodupKeys = (refl, (refl, tt))

pub more-Plain : Plain integers more
unfolding lookup
more-Plain = record {
  nodup = (refl, tt);
  no_cpu = refl;
  no_memory = refl;
  no_pods = refl;
  no_storage = refl;
}

sub_resource-add_resource_example :
    (after : Dict ℤ) × (sub_resource integers more (add_resource integers more (some capacity))
      ≡ some after)
    × (quota integers "gpu" after ≡ quota integers "gpu" capacity)
sub_resource-add_resource_example =
    sub_resource-add_resource integers exact "gpu" capacity more capacity-NodupKeys more-Plain
