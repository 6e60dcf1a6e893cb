-- ===== src/Util/Conversions/Selectors.antt =====
-- What `recoverSelectors` leaves in the spec.
use tensile_kube.Prelude.{◌≡◌, ◌≢◌, Option, none, some, arith, ◌⊎◌}
use tensile_kube.Api.{NodeAffinity, Affinity, PodSpec}
use tensile_kube.Util.Consts.{ClustersNodeSelection}
use tensile_kube.Util.Conversions.{
  prune_node_affinity, prune_whole, prune_affinity, recover_selectors,
}

-- A node affinity that asks for something.
abbrev NodeAsks : NodeAffinity → Type 0
NodeAsks na = (na.required ≢ none) ⊎ (na.preferred ≢ none)

-- An affinity without an empty node affinity, and with at least one of its parts.
pub record Asks (a : Affinity) : Type 0 where
  pub node :
      (na : NodeAffinity) → a.node_affinity ≡ some na → (na.required ≢ none) ⊎ (na.preferred ≢ none)
  pub some_part : (a.node_affinity ≢ none) ⊎ (a.pod_affinity ≢ none) ⊎ (a.pod_anti_affinity ≢ none)

prune_node_affinity-NodeAsks :
    (o : Option NodeAffinity) (na : NodeAffinity) → prune_node_affinity o ≡ some na → NodeAsks na
unfolding prune_node_affinity
prune_node_affinity-NodeAsks none na h = ground arith
prune_node_affinity-NodeAsks (some x) na h = ground arith

prune_affinity-Asks : (o : Option Affinity) (a : Affinity) → prune_affinity o ≡ some a → Asks a
unfolding prune_affinity prune_whole
prune_affinity-Asks none a h = ground arith
prune_affinity-Asks (some x) a h = record {
  node = λ na e. prune_node_affinity-NodeAsks x.node_affinity na (ground arith);
  some_part = ground arith;
}

-- After `recoverSelectors` no affinity is left that asks for nothing: a node affinity has a required
-- or a preferred part, and an affinity has at least one part.
recover_selectors-Asks :
    (spec : PodSpec) (cns : Option ClustersNodeSelection) (a : Affinity)
    → (recover_selectors spec cns).affinity ≡ some a
    → Asks a
unfolding recover_selectors
recover_selectors-Asks spec none a h = prune_affinity-Asks _ a h
recover_selectors-Asks spec (some cns) a h = prune_affinity-Asks _ a h
