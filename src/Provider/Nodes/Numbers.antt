-- ===== src/Provider/Nodes/Numbers.antt =====
-- What `updateVKCapacityFromNode` does to one number.
use tensile_kube.Prelude.{◌≡◌, Bool, true, false, not, ◌&&◌, ◌||◌, if◌then◌else◌}
use tensile_kube.Prelude.Int.{ℤ, pos, ◌+ℤ◌, ◌-ℤ◌, int_laws, eq_of_parts}

gained : (f n u : ℤ) → ((f +ℤ n) -ℤ u) ≡ ((f -ℤ pos 0) +ℤ (n -ℤ u))
gained f n u = omega (int_laws, eq_of_parts ((f +ℤ n) -ℤ u) ((f -ℤ pos 0) +ℤ (n -ℤ u)))

lost : (f o u : ℤ) → ((f +ℤ u) -ℤ o) ≡ ((f -ℤ (o -ℤ u)) +ℤ pos 0)
lost f o u = omega (int_laws, eq_of_parts ((f +ℤ u) -ℤ o) ((f -ℤ (o -ℤ u)) +ℤ pos 0))

back : (f n u : ℤ) → ((((f +ℤ n) -ℤ u) +ℤ u) -ℤ n) ≡ ((f -ℤ pos 0) +ℤ pos 0)
back f n u = omega (int_laws, eq_of_parts ((((f +ℤ n) -ℤ u) +ℤ u) -ℤ n) ((f -ℤ pos 0) +ℤ pos 0))

kept : (f x : ℤ) → f ≡ ((f -ℤ x) +ℤ x)
kept f x = omega (int_laws, eq_of_parts f ((f -ℤ x) +ℤ x))

pub twice : (f n u o : ℤ) → ((((f +ℤ n) -ℤ u) +ℤ n) -ℤ o) ≡ ((f +ℤ (n -ℤ u)) +ℤ (n -ℤ o))
twice f n u o =
    omega (int_laws, eq_of_parts ((((f +ℤ n) -ℤ u) +ℤ n) -ℤ o) ((f +ℤ (n -ℤ u)) +ℤ (n -ℤ o)))

pub if_true : {b : Bool} {x : ℤ} (y : ℤ) → b ≡ true → x ≡ (if b then x else y)
if_true y h = rw h

pub if_false : {b : Bool} (x : ℤ) {y : ℤ} → b ≡ false → y ≡ (if b then x else y)
if_false x h = rw h

-- `updateVKCapacityFromNode` on one number, when the capacity stays: whether the node was and is ready,
-- and was and is unschedulable.
abbrev pub gain_number : Bool → Bool → Bool → Bool → ℤ → ℤ → ℤ → ℤ
gain_number ro rn uo un f n u = if (uo && not un) || (rn && not ro) then (f +ℤ n) -ℤ u else f

abbrev pub lose_number : Bool → Bool → Bool → Bool → ℤ → ℤ → ℤ → ℤ
lose_number ro rn uo un f o u = if (not uo && un) || (ro && not rn) then (f +ℤ u) -ℤ o else f

abbrev pub contribution_if : Bool → Bool → ℤ → ℤ
contribution_if r un x = if r && not un then x else pos 0

pub contribution_on : {r un : Bool} (x : ℤ) → r ≡ true → un ≡ false → x ≡ contribution_if r un x
contribution_on x a b = rw (a, b)

pub update_number :
    (ro rn uo un : Bool) (f n u : ℤ)
    → (uo && un) ≡ false
    → (if not ro && not rn then f else lose_number ro rn uo un (gain_number ro rn uo un f n u) n u)
      ≡ ((f -ℤ contribution_if ro uo (n -ℤ u)) +ℤ contribution_if rn un (n -ℤ u))
update_number ro rn true true f n u h = cc
update_number false false false un f n u h = kept f (pos 0)
update_number false false true false f n u h = kept f (pos 0)
update_number true true false false f n u h = kept f (n -ℤ u)
update_number true true true false f n u h = gained f n u
update_number true true false true f n u h = lost f n u
update_number false true false false f n u h = gained f n u
update_number false true true false f n u h = gained f n u
update_number false true false true f n u h = back f n u
update_number true false false false f n u h = lost f n u
update_number true false true false f n u h = back f n u
update_number true false false true f n u h = lost f n u
