-- ===== src/Util/Labels/RoundTrip.antt =====
-- The loop of `trimLabels` splits the labels in two parts that `RecoverLabels` joins again.
use tensile_kube.Prelude.{
  String, ◌≡◌, refl, ◌∙◌, true, false, Option, none, some, List, [], ◌∷◌, arith, eq_iff, ◌==◌,
  ==_self, contains, Bool-cases, inl, inr, ◌⊎◌,
}
use tensile_kube.Prelude.Dict.{
  Dict, lookup, insert_all, index, NodupKeys, lookup-insert, lookup-erase, lookup-insert_all,
  insert-NodupKeys,
}
use tensile_kube.Util.Labels.{Trimmed, trim_label, trim_loop}

-- What a reader finds under a key once the tripped labels are written over the others.
abbrev pub joined : String → Trimmed → Option String
joined j s = elim (lookup j s.0) [ none ↦ lookup j s.1 | some v ↦ some v ]

-- The tripped labels are a Go map, and no key stands in both parts.
pub record IsSplit (s : Trimmed) : Type 0 where
  pub nodup : NodupKeys s.0
  pub apart : (j : String) → (lookup j s.0 ≡ none) ⊎ (lookup j s.1 ≡ none)

trim_label-IsSplit : (key : String) (s : Trimmed) → IsSplit s → IsSplit (trim_label key s)
unfolding trim_label index
trim_label-IsSplit key s h = record {
  nodup = ground (arith, insert-NodupKeys key (index key s.1) s.0 h.nodup, h.nodup);
  apart = λ j. ground (
    arith,
    eq_iff key j,
    lookup-insert j key (index key s.1) s.0,
    lookup-erase j key s.1,
    h.apart j,
  );
}

joined-trim_label :
    (j key : String) (s : Trimmed) → IsSplit s → joined j (trim_label key s) ≡ joined j s
unfolding trim_label index
joined-trim_label j key s h = ground (
  arith,
  eq_iff key j,
  eq_iff (index key s.1) "",
  lookup-insert j key (index key s.1) s.0,
  lookup-erase j key s.1,
  h.apart j,
)

trim_loop-IsSplit : (keys : List String) (s : Trimmed) → IsSplit s → IsSplit (trim_loop keys s)
unfolding trim_loop
trim_loop-IsSplit [] s h = h
trim_loop-IsSplit (key ∷ keys) s h =
    trim_loop-IsSplit keys (trim_label key s) (trim_label-IsSplit key s h)

joined-trim_loop :
    (j : String) (keys : List String) (s : Trimmed)
    → IsSplit s
    → joined j (trim_loop keys s) ≡ joined j s
unfolding trim_loop
joined-trim_loop j [] s h = refl
joined-trim_loop j (key ∷ keys) s h =
    joined-trim_loop j keys (trim_label key s) (trim_label-IsSplit key s h)
    ∙ joined-trim_label j key s h

start-IsSplit : (labels : Dict String) → IsSplit ([], labels)
unfolding lookup
start-IsSplit labels = record { nodup = tt; apart = λ j. inl refl }

-- Writing the tripped labels back over the rest gives every key the value it had.
pub recovered :
    (keys : List String) (labels : Dict String) (j : String)
    → let (tripped, rest) = trim_loop keys ([], labels) in
      lookup j (insert_all tripped rest) ≡ lookup j labels
unfolding lookup
recovered keys labels j =
    let split = trim_loop-IsSplit keys ([], labels) (start-IsSplit labels) in
    lookup-insert_all j (trim_loop keys ([], labels)).0 (trim_loop keys ([], labels)).1 split.nodup
    ∙ joined-trim_loop j keys ([], labels) (start-IsSplit labels)

trim_label_gone :
    (j key : String) (s : Trimmed) → index j s.1 ≡ "" → index j (trim_label key s).1 ≡ ""
unfolding trim_label index
trim_label_gone j key s h = ground (arith, eq_iff key j, lookup-erase j key s.1)

trim_loop_gone :
    (j : String) (keys : List String) (s : Trimmed)
    → index j s.1 ≡ ""
    → index j (trim_loop keys s).1 ≡ ""
unfolding trim_loop
trim_loop_gone j [] s h = h
trim_loop_gone j (key ∷ keys) s h =
    trim_loop_gone j keys (trim_label key s) (trim_label_gone j key s h)

trim_label_self : (key : String) (s : Trimmed) → index key (trim_label key s).1 ≡ ""
unfolding trim_label index
trim_label_self key s =
    ground (arith, eq_iff (index key s.1) "", lookup-erase key key s.1, ==_self key)

-- What the loop leaves under a key: nothing of a listed key, and every other key as it was.
pub trim_loop_listed :
    (j : String) (keys : List String) (s : Trimmed)
    → contains j keys ≡ true
    → index j (trim_loop keys s).1 ≡ ""
unfolding trim_loop
trim_loop_listed j [] s h = ground arith
trim_loop_listed j (key ∷ keys) s h = elim (Bool-cases (key == j)) [
  | inl same ↦
      trim_loop_gone j keys (trim_label key s)
        (rw (← (eq_iff key j).0 same) (trim_label_self key s))
  | inr differ ↦ trim_loop_listed j keys (trim_label key s) (ground arith)
]

pub trim_loop_unlisted :
    (j : String) (keys : List String) (s : Trimmed)
    → contains j keys ≡ false
    → lookup j (trim_loop keys s).1 ≡ lookup j s.1
unfolding trim_loop trim_label
trim_loop_unlisted j [] s h = refl
trim_loop_unlisted j (key ∷ keys) s h =
    ground
      (arith, eq_iff key j, lookup-erase j key s.1, trim_loop_unlisted j keys (trim_label key s))
