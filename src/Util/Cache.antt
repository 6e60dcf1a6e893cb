-- ===== src/Util/Cache.antt =====
-- `UnschedulableCache` of pkg/util/cache.go: for each owner of pods the nodes that were found
-- unschedulable, in one go-cache each. The lock makes every method one step. Times are seconds.
pub mod Freeze
pub mod Memory
use tensile_kube.Prelude.{
  ℕ, ◌+◌, ◌≤◌, String, ◌≡◌, Bool, true, false, Option, none, some, List, [], ◌==◌, leb,
  if◌then◌else◌, contains,
}
use tensile_kube.Prelude.Dict.{Dict, lookup, insert}

-- What the code uses of github.com/patrickmn/go-cache, at the expiration of `New(3*time.Minute, _)`.
-- `add now k` is `Add(k, &now, 0)`, `get t k` is `Get(k)` at time `t`, `items t` are the keys of `Items()`.
pub record GoCache (C : Type 0) : Type 0 where
  pub new : C
  pub add : ℕ → String → C → C
  pub get : ℕ → String → C → Option ℕ
  pub items : ℕ → C → List String

-- The expiration given to `gochache.New`, in seconds.
abbrev pub expiration : ℕ
expiration = 180

abbrev pub is_some {ℓ} : {A : Type ℓ} → Option A → Bool
is_some none = false
is_some (some a) = true

-- Its documentation: a new cache is empty; `Add` stores an item only where none is stored or the
-- stored one has expired; an item expires when its duration has passed; `Items` are the unexpired.
pub record IsLawful {C : Type 0} (g : GoCache C) : Type 0 where
  pub get-new : (t : ℕ) (k : String) → g.get t k g.new ≡ none
  pub get-add :
      (now t : ℕ) (k j : String) (c : C)
      → now ≤ t
      → g.get t j (g.add now k c) ≡ (
          if k == j
          then (if is_some (g.get now k c)
              then g.get t k c
              else (if leb t (now + expiration) then some now else none))
          else g.get t j c)
  pub get_young : (t at : ℕ) (k : String) (c : C) → g.get t k c ≡ some at → t ≤ at + expiration
  pub contains-items :
      (t : ℕ) (k : String) (c : C) → contains k (g.items t c) ≡ is_some (g.get t k c)

module _ {C : Type 0} (g : GoCache C) where
  -- `c.cache[ownerID]`, or a new one where it is nil.
  unfoldable pub owner_cache : String → Dict C → C
  owner_cache owner_id cache = elim (lookup owner_id cache) [ none ↦ g.new | some c ↦ c ]

  unfoldable pub add : ℕ → String → String → Dict C → Dict C
  unfolding owner_cache
  add now node owner_id cache = insert owner_id (g.add now node (owner_cache owner_id cache)) cache

  unfoldable pub get_freeze_nodes : ℕ → String → Dict C → List String
  get_freeze_nodes t owner_id cache = elim (lookup owner_id cache) [
    | none ↦ []
    | some c ↦ g.items t c
  ]

  unfoldable pub get_freeze_time : ℕ → String → String → Dict C → Option ℕ
  get_freeze_time t node owner_id cache = elim (lookup owner_id cache) [
    | none ↦ none
    | some c ↦ g.get t node c
  ]
