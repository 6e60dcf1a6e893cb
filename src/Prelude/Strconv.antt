-- ===== src/Prelude/Strconv.antt =====
-- Go's `strconv.Itoa` and `strconv.Atoi` on 64-bit integers.
use Prim.Native.Nat.{ℕ, zero, suc, ◌+◌, ◌-◌, ◌*◌, ◌/◌, ◌%◌, ◌^◌}
use Prim.Native.Char.{code}
use Prim.Native.String.{String, ◌++◌ as ◌<>◌}
use mathlib.Core.Bool.{◌&&◌}
use mathlib.Core.Option.{Option, none, some}
use tensile_kube.Prelude.Equality.{ltb, leb, nat_beq, if◌then◌else◌}
use tensile_kube.Prelude.Int.{ℤ, pos, negsuc}

abbrev digit : ℕ → String
digit n =
    if nat_beq n 0
    then "0"
    else if nat_beq n 1
    then "1"
    else if nat_beq n 2
    then "2"
    else if nat_beq n 3
    then "3"
    else if nat_beq n 4
    then "4"
    else if nat_beq n 5
    then "5"
    else if nat_beq n 6
    then "6"
    else if nat_beq n 7
    then "7"
    else if nat_beq n 8
    then "8"
    else "9"

itoa_digits : ℕ → ℕ → String
itoa_digits zero n = ""
itoa_digits (suc fuel) n =
    let rest = itoa_digits fuel (n / 10) in if ltb n 10 then digit n else rest <> digit (n % 10)

unfoldable pub itoa : ℤ → String
unfolding itoa_digits
itoa (pos n) = itoa_digits (suc n) n
itoa (negsuc n) = "-" <> itoa_digits (suc (suc n)) (suc n)

-- The number that the digits stand for, after those read so far.
atoi_digits : ℕ → String → Option ℕ
atoi_digits n String.[] = some n
atoi_digits n (String.◌∷◌ ch rest) =
    let c = code ch in
    let more = atoi_digits (n * 10 + (c - 48)) rest in if leb 48 c && leb c 57 then more else none

atoi_nonempty : String → Option ℕ
unfolding atoi_digits
atoi_nonempty String.[] = none
atoi_nonempty (String.◌∷◌ ch rest) = atoi_digits 0 (String.◌∷◌ ch rest)

-- Out of range is an error.
in_range_pos : Option ℕ → Option ℤ
in_range_pos none = none
in_range_pos (some n) = if ltb n (2 ^ 63) then some (pos n) else none

in_range_neg : Option ℕ → Option ℤ
in_range_neg none = none
in_range_neg (some zero) = some (pos 0)
in_range_neg (some (suc n)) = if ltb n (2 ^ 63) then some (negsuc n) else none

unfoldable pub atoi : String → Option ℤ
unfolding atoi_nonempty in_range_pos in_range_neg
atoi String.[] = none
atoi (String.◌∷◌ ch rest) =
    if nat_beq (code ch) 45
    then in_range_neg (atoi_nonempty rest)
    else if nat_beq (code ch) 43
    then in_range_pos (atoi_nonempty rest)
    else in_range_pos (atoi_nonempty (String.◌∷◌ ch rest))

-- `count + 1` on a 64-bit `int`.
unfoldable pub succ_int : ℤ → ℤ
succ_int (pos n) = if ltb (suc n) (2 ^ 63) then pos (suc n) else negsuc (2 ^ 63 - 1)
succ_int (negsuc zero) = pos 0
succ_int (negsuc (suc n)) = negsuc n
