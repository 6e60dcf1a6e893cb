-- ===== src/Webhook/Mutate/Decisions.antt =====
-- What the webhook decides from one request to the next.
use tensile_kube.Prelude.{
  ℕ, ◌+◌, ◌≤◌, String, ◌≡◌, ◌∙◌, refl, true, false, none, some, List, [], ◌∷◌, arith, ◌==◌, ==_self,
  contains,
}
use tensile_kube.Prelude.Dict.{Dict, index_nil}
use tensile_kube.Prelude.Run.{done, ok}
use tensile_kube.Api.{Affinity, Pod}
use tensile_kube.Util.Consts.{host_name_key}
use tensile_kube.Util.Cache.{GoCache, IsLawful, expiration, add, get_freeze_nodes, get_freeze_time}
use tensile_kube.Util.Cache.Freeze.{get_freeze_time-add, contains-get_freeze_nodes}
use tensile_kube.Util.Replace.{replace_pod_node_name_node_affinity}
use tensile_kube.Util.Replace.Excludes.{Node, admits}
use tensile_kube.Webhook.Mutate.{
  should_skip, get_owner_ref, set_unschedulable_nodes, get_unschedulable_nodes, avoid_nodes,
  Request, Server, patched, inject_and_patch, mutate_pod, mutate,
}
use tensile_kube.Webhook.Mutate.Barred.{can_avoid}
use tensile_kube.Webhook.Mutate.Avoided.{inject-replaced}

abbrev pub request : String → Pod → Request
request operation pod = record { kind = "Pod"; operation = operation; object = ok pod }

module _ {C : Type 0} (g : GoCache C) (server : Server) (n : Node) where
  -- The pod is allowed, with the patch to a pod whose required node affinity does not admit the node.
  abbrev pub Avoids : ℕ → Pod → Dict C → Type 0
  Avoids now pod cache =
      (final : Pod) × (left : Affinity) × (mutate g server (request "CREATE" pod) now cache
        ≡ done (patched (server.json_patch pod final), cache))
      × (final.spec.affinity ≡ some left)
      × (admits n left ≡ false)

  avoid_nodes-affinity :
      (now : ℕ) (pod : Pod) (cache : Dict C) (nodes : List String)
      → get_unschedulable_nodes g now (get_owner_ref pod) pod cache ≡ nodes
      → contains n.host nodes ≡ true
      → (avoid_nodes g now pod cache).spec.affinity
        ≡ some
            (replace_pod_node_name_node_affinity none
              (get_owner_ref pod)
              0
              nodes
              pod.spec.affinity).0
  unfolding avoid_nodes
  avoid_nodes-affinity now pod cache [] e listed = ground arith
  avoid_nodes-affinity now pod cache (m ∷ ms) e listed = rw (e, avoid_nodes) refl

  mutate-Avoids :
      (now : ℕ) (pod : Pod) (cache : Dict C) (nodes : List String)
      → contains host_name_key server.ignore_selector_keys ≡ true
      → should_skip pod ≡ false
      → can_avoid pod.spec.affinity ≡ true
      → get_unschedulable_nodes g now (get_owner_ref pod) pod cache ≡ nodes
      → contains n.host nodes ≡ true
      → Avoids now pod cache
  unfolding mutate mutate_pod inject_and_patch
  mutate-Avoids now pod cache nodes ignored shown can e listed =
      let (final, left, run, kept, ruled_out) =
        inject-replaced server.json n server.pvc_lister server.ignore_selector_keys
          (get_owner_ref pod) nodes pod (avoid_nodes g now pod cache) ignored listed can
          (avoid_nodes-affinity now pod cache nodes e listed) in
      (final, left, rw (shown, run, mutate) refl, kept, ruled_out)

  -- An update that reports a node, which is not frozen, as unschedulable for an owner: a pod of that owner that is
  -- created without a node in the next three minutes avoids the node.
  pub update_then_create :
      (lawful : IsLawful g) (t₁ t₂ : ℕ) (owner : String) (old new : Pod) (cache : Dict C)
      → contains host_name_key server.ignore_selector_keys ≡ true
      → should_skip new ≡ false
      → can_avoid new.spec.affinity ≡ true
      → (owner == "") ≡ false
      → (n.host == "") ≡ false
      → index_nil "unschedulable-node" old.meta.annotations ≡ n.host
      → get_owner_ref new ≡ owner
      → new.spec.node_name ≡ ""
      → get_freeze_time g t₁ n.host owner cache ≡ none
      → t₁ ≤ t₂
      → t₂ ≤ t₁ + expiration
      → Avoids t₂ new (set_unschedulable_nodes g t₁ owner old cache)
  unfolding set_unschedulable_nodes get_unschedulable_nodes
  update_then_create lawful t₁ t₂ owner old new cache ignored shown can o m reported same pending
        thawed le within =
      mutate-Avoids t₂ new _ (get_freeze_nodes g t₂ owner (add g t₁ n.host owner cache)) ignored
        shown can
        (rw (same, reported, pending, o, m, get_unschedulable_nodes, set_unschedulable_nodes))
        (contains-get_freeze_nodes g lawful t₂ n.host owner (add g t₁ n.host owner cache)
          ∙ ground (
            arith,
            get_freeze_time-add g lawful t₁ t₂ n.host owner n.host owner cache le,
            ==_self n.host,
            ==_self owner,
            thawed,
            within,
          ))
