-- ===== src/Prelude/Run.antt =====
-- Code that may panic (a nil pointer, an index out of range, a write to a nil map), and Go's
-- pairs of a value and an error.
use mathlib.Core.Path.{◌≡◌, refl}

pub data Run {ℓ} (A : Type ℓ) : Type ℓ where
  done : A → Run A
  panic : Run A

infixl 5 ◌>>=◌
abbrev pub ◌>>=◌ {ℓ κ} : {A : Type ℓ} {B : Type κ} → Run A → (A → Run B) → Run B
done a >>= f = f a
panic >>= f = panic

-- A result of an API call, a lister or a codec.
pub data Result {ℓ κ} (E : Type ℓ) (A : Type κ) : Type (ℓ ⊔ κ) where
  ok : A → Result E A
  err : E → Result E A

pub bind-panic {ℓ κ} :
    {A : Type ℓ} {B : Type κ} (m : Run A) (f : A → Run B)
    → ((a : A) → f a ≡ panic)
    → (m >>= f) ≡ panic
bind-panic (done a) f h = h a
bind-panic panic f h = refl
