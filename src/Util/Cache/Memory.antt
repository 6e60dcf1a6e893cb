-- ===== src/Util/Cache/Memory.antt =====
-- A go-cache as a dictionary of the times at which its nodes were added: the documented behaviour
-- can be met.
use tensile_kube.Prelude.{
  ℕ, ◌+◌, ◌≤◌, String, ◌≡◌, refl, Bool, ◌&&◌, Option, none, some, List, [], ◌∷◌, arith, eq_iff,
  ◌==◌, leb, if◌then◌else◌, contains, filter_by,
}
use tensile_kube.Prelude.Dict.{Dict, lookup, insert, lookup-insert}
use tensile_kube.Util.Cache.{GoCache, IsLawful, expiration, is_some}

abbrev live : ℕ → Option ℕ → Option ℕ
live t none = none
live t (some at) = if leb t (at + expiration) then some at else none

abbrev keys : Dict ℕ → List String
keys [] = []
keys ((k, _) ∷ m) = k ∷ keys m

abbrev pub memory_cache : GoCache (Dict ℕ)
memory_cache = record {
  new = [];
  add = λ now k c. if is_some (live now (lookup k c)) then c else insert k now c;
  get = λ t k c. live t (lookup k c);
  items = λ t c. filter_by (λ k. is_some (live t (lookup k c))) (keys c);
}

contains-filter_by :
    (p : String → Bool) (k : String) (xs : List String)
    → contains k (filter_by p xs) ≡ (contains k xs && p k)
contains-filter_by p k [] = refl
contains-filter_by p k (x ∷ xs) = ground (arith, eq_iff x k, contains-filter_by p k xs)

contains-keys : (k : String) (m : Dict ℕ) → contains k (keys m) ≡ is_some (lookup k m)
unfolding lookup
contains-keys k [] = refl
contains-keys k ((j, _) ∷ m) = ground (arith, contains-keys k m)

get-add :
    (now t : ℕ) (k j : String) (c : Dict ℕ)
    → now ≤ t
    → memory_cache.get t j (memory_cache.add now k c) ≡ (
        if k == j
        then (if is_some (memory_cache.get now k c)
            then memory_cache.get t k c
            else (if leb t (now + expiration) then some now else none))
        else memory_cache.get t j c)
get-add now t k j c h = ground (arith, eq_iff k j, lookup-insert j k now c)

contains-items :
    (t : ℕ) (k : String) (c : Dict ℕ)
    → contains k (memory_cache.items t c) ≡ is_some (memory_cache.get t k c)
contains-items t k c = rw contains-filter_by (ground (arith, contains-keys k c))

get_young :
    (t at : ℕ) (k : String) (c : Dict ℕ) → memory_cache.get t k c ≡ some at → t ≤ at + expiration
get_young t at k c h = ground arith

pub memory_cache-IsLawful : IsLawful memory_cache
unfolding lookup
memory_cache-IsLawful = record {
  get-new = λ t k. refl;
  get-add = get-add;
  get_young = get_young;
  contains-items = contains-items;
}
