-- ===== src/Prelude/Dict.antt =====
-- Go's `map[string]V`: an association list, whose order stands for the order in which a `range`
-- over the map happens to visit it. A nil map is `none` of an `Option (Dict V)`.
use Prim.Native.String.{String}
use mathlib.Core.Path.{◌≡◌, refl}
use mathlib.Core.Option.{Option, none, some}
use mathlib.Core.List.{List, [], ◌∷◌}
use native.Mathlib.Omega.{arith}
use text.Mathlib.TextEquality.{eq_iff}
use tensile_kube.Prelude.Equality.{◌==◌, ==_self, if◌then◌else◌}

abbrev pub Dict {ℓ} : Type ℓ → Type ℓ
Dict V = List (String × V)

module _ {ℓ} {V : Type ℓ} where
  -- `v, ok := m[k]`
  unfoldable pub lookup : String → Dict V → Option V
  lookup k [] = none
  lookup k ((j, v) ∷ m) = if j == k then some v else lookup k m

  -- `m[k] = v`
  unfoldable pub insert : String → V → Dict V → Dict V
  insert k v [] = (k, v) ∷ []
  insert k v ((j, w) ∷ m) = if j == k then (k, v) ∷ m else (j, w) ∷ insert k v m

  -- `delete(m, k)`
  unfoldable pub erase : String → Dict V → Dict V
  erase k [] = []
  erase k ((j, w) ∷ m) = let rest = erase k m in if j == k then rest else (j, w) ∷ rest

  -- `for k, v := range src { m[k] = v }`
  unfoldable pub insert_all : Dict V → Dict V → Dict V
  insert_all [] m = m
  insert_all ((k, v) ∷ src) m = insert_all src (insert k v m)

  -- No key is listed twice, as in every Go map.
  abbrev pub NodupKeys : Dict V → Type ℓ
  NodupKeys [] = Unit
  NodupKeys ((k, v) ∷ m) = (lookup k m ≡ none) × NodupKeys m

  pub lookup-nil : (k : String) → lookup k [] ≡ none
  unfolding lookup
  lookup-nil k = refl

  lookup-cons :
      (k j : String) (v : V) (m : Dict V)
      → lookup k ((j, v) ∷ m) ≡ (if j == k then some v else lookup k m)
  unfolding lookup
  lookup-cons k j v m = refl

  pub lookup-insert :
      (j k : String) (v : V) (m : Dict V)
      → lookup j (insert k v m) ≡ (if k == j then some v else lookup j m)
  unfolding lookup insert
  lookup-insert j k v [] = refl
  lookup-insert j k v ((i, w) ∷ m) =
      ground (arith, eq_iff k j, eq_iff i k, eq_iff i j, lookup-insert j k v m)

  pub lookup-insert_self : (k : String) (v : V) (m : Dict V) → lookup k (insert k v m) ≡ some v
  lookup-insert_self k v m = rw (lookup-insert, ==_self k)

  pub lookup-erase :
      (j k : String) (m : Dict V) → lookup j (erase k m) ≡ (if k == j then none else lookup j m)
  unfolding lookup erase
  lookup-erase j k [] = ground arith
  lookup-erase j k ((i, w) ∷ m) =
      ground (arith, eq_iff k j, eq_iff i k, eq_iff i j, lookup-erase j k m)

  pub insert-NodupKeys : (k : String) (v : V) (m : Dict V) → NodupKeys m → NodupKeys (insert k v m)
  unfolding insert
  insert-NodupKeys k v [] u = (lookup-nil k, tt)
  insert-NodupKeys k v ((j, w) ∷ m) (fresh, u) =
      ground (arith, eq_iff j k, eq_iff k j, insert-NodupKeys k v m u, lookup-insert j k v m)

  pub lookup-insert_all :
      (j : String) (src m : Dict V)
      → NodupKeys src
      → lookup j (insert_all src m) ≡ elim (lookup j src) [ none ↦ lookup j m | some v ↦ some v ]
  unfolding lookup insert_all
  lookup-insert_all j [] m u = refl
  lookup-insert_all j ((k, v) ∷ src) m (fresh, u) =
      ground (arith, eq_iff k j, lookup-insert j k v m, lookup-insert_all j src (insert k v m) u)

  pub ruleset dict_laws = (lookup-nil, lookup-insert, lookup-erase)

-- `m[k]` of a `map[string]string`: the empty string where the key is missing.
unfoldable pub index : String → Dict String → String
unfolding lookup
index k m = elim (lookup k m) [ none ↦ "" | some v ↦ v ]

-- `m[k]` where the map may be nil.
unfoldable pub index_nil : String → Option (Dict String) → String
unfolding index
index_nil k none = ""
index_nil k (some m) = index k m

-- A nil map that is about to be written is allocated.
abbrev pub make_if_nil {ℓ} : {V : Type ℓ} → Option (Dict V) → Dict V
make_if_nil none = []
make_if_nil (some m) = m

pub index_congr : (k : String) (m n : Dict String) → lookup k m ≡ lookup k n → index k m ≡ index k n
unfolding index
index_congr k m n h = ground (arith, h)

pub index_nil-make_if_nil :
    (k : String) (m : Option (Dict String)) → index_nil k (some (make_if_nil m)) ≡ index_nil k m
unfolding index_nil lookup
index_nil-make_if_nil k none = refl
index_nil-make_if_nil k (some m) = refl

pub index-insert_self : (k v : String) (m : Dict String) → index k (insert k v m) ≡ v
unfolding index
index-insert_self k v m = rw (lookup-insert_self k v m, index)

pub index-some : (k v : String) (m : Dict String) → lookup k m ≡ some v → index k m ≡ v
unfolding index
index-some k v m h = rw (h, index)

pub index-none : (k : String) (m : Dict String) → lookup k m ≡ none → index k m ≡ ""
unfolding index
index-none k m h = rw (h, index)
