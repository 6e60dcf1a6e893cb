-- ===== src/Util/Cache/Freeze.antt =====
-- How long a node stays frozen for an owner.
use tensile_kube.Prelude.{
  ℕ, ◌+◌, ◌≤◌, String, ◌≡◌, refl, none, some, [], Option-cases, inl, inr, arith, eq_iff, ◌==◌, leb,
  if◌then◌else◌, contains,
}
use tensile_kube.Prelude.Dict.{Dict, lookup, lookup-insert}
use tensile_kube.Util.Cache.{
  GoCache, IsLawful, expiration, is_some, owner_cache, add, get_freeze_nodes, get_freeze_time,
}

module _ {C : Type 0} (g : GoCache C) (lawful : IsLawful g) where
  -- The freeze time of any node and owner after `Add`: for another node or owner it is what it was;
  -- a node that was not frozen is frozen for three minutes from now; a node that was frozen
  -- keeps its first freeze time, and a second `Add` does not extend it.
  pub get_freeze_time-add :
      (now t : ℕ) (node owner node' owner' : String) (cache : Dict C)
      → now ≤ t
      → get_freeze_time g t node' owner' (add g now node owner cache) ≡ (
          if owner == owner'
          then (if node == node'
              then (if is_some (get_freeze_time g now node owner cache)
                  then get_freeze_time g t node owner cache
                  else (if leb t (now + expiration) then some now else none))
              else get_freeze_time g t node' owner cache)
          else get_freeze_time g t node' owner' cache)
  unfolding add get_freeze_time
  get_freeze_time-add now t node owner node' owner' cache h = ground (
    arith,
    eq_iff owner owner',
    lookup-insert owner' owner (g.add now node (owner_cache g owner cache)) cache,
    lawful.get-add now t node node' (owner_cache g owner cache),
    lawful.get-new now node,
    lawful.get-new t node',
    lawful.get-new t node,
  )

  -- `GetFreezeNodes` lists exactly the nodes that `GetFreezeTime` finds for that owner.
  pub contains-get_freeze_nodes :
      (t : ℕ) (node owner : String) (cache : Dict C)
      → contains node (get_freeze_nodes g t owner cache)
        ≡ is_some (get_freeze_time g t node owner cache)
  unfolding get_freeze_nodes get_freeze_time
  contains-get_freeze_nodes t node owner cache =
      elim (lookup owner cache)
        as (λ o.
          contains node (elim o [ none ↦ [] | some c ↦ g.items t c ])
          ≡ is_some (elim o [ none ↦ none | some c ↦ g.get t node c ])) [
            | none ↦ refl
            | some c ↦ lawful.contains-items t node c
          ]

  pub get_freeze_time_young :
      (t at : ℕ) (node owner : String) (cache : Dict C)
      → get_freeze_time g t node owner cache ≡ some at
      → t ≤ at + expiration
  unfolding get_freeze_time
  get_freeze_time_young t at node owner cache h = elim (Option-cases (lookup owner cache)) [
    | inl missing ↦ ground arith
    | inr (c, found) ↦ lawful.get_young t at node c (ground arith)
  ]
