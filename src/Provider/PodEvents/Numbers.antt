-- ===== src/Provider/PodEvents/Numbers.antt =====
-- What the pod events do to one number.
use tensile_kube.Prelude.{◌≡◌, Bool, if◌then◌else◌}
use tensile_kube.Prelude.Int.{ℤ, pos, ◌+ℤ◌, ◌-ℤ◌, int_laws, eq_of_parts}

-- What a pod uses, if it counts.
abbrev pub used_if : Bool → ℤ → ℤ
used_if b x = if b then x else pos 0

pub taken : (g x : ℤ) → ((g -ℤ pos 0) -ℤ x) ≡ (g -ℤ x)
taken g x = omega (int_laws, eq_of_parts ((g -ℤ pos 0) -ℤ x) (g -ℤ x))

pub given : (g x : ℤ) → ((g -ℤ x) +ℤ x) ≡ (g -ℤ pos 0)
given g x = omega (int_laws, eq_of_parts ((g -ℤ x) +ℤ x) (g -ℤ pos 0))

pub unused : (g : ℤ) → (g -ℤ pos 0) ≡ g
unused g = omega (int_laws, eq_of_parts (g -ℤ pos 0) g)

pub exchanged : (g x y : ℤ) → (((g -ℤ x) +ℤ x) -ℤ y) ≡ (g -ℤ y)
exchanged g x y = omega (int_laws, eq_of_parts (((g -ℤ x) +ℤ x) -ℤ y) (g -ℤ y))

-- The same for one pod more, where the requests have no pods.
pub exchanged_pods : (g x : ℤ) → (((g -ℤ x) +ℤ pos 0) -ℤ pos 0) ≡ (g -ℤ x)
exchanged_pods g x = omega (int_laws, eq_of_parts (((g -ℤ x) +ℤ pos 0) -ℤ pos 0) (g -ℤ x))
