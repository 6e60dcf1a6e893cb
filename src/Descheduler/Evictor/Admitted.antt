-- ===== src/Descheduler/Evictor/Admitted.antt =====
-- An eviction and the webhook: the calls of `EvictPod` pass through `mutate` of pkg/webhook/hook.go.
use tensile_kube.Prelude.{
  ℕ, ◌+◌, ◌≤◌, String, ◌≡◌, refl, ◌∙◌, true, false, Option, none, some, List, [], ◌∷◌, ◌==◌,
  Bool-cases, inl, inr, sym, contains,
}
use tensile_kube.Prelude.Dict.{Dict, index_nil, make_if_nil, index-insert_self}
use tensile_kube.Prelude.Run.{done, Result, ok, err}
use tensile_kube.Util.Consts.{is_virtual_pod, host_name_key}
use tensile_kube.Api.{Affinity, PodSpec, Pod, ApiError}
use tensile_kube.Util.Cache.{GoCache, IsLawful, expiration, get_freeze_time}
use tensile_kube.Webhook.Mutate.{
  should_skip, get_owner_ref, set_unschedulable_nodes, Server, allowed, mutate_pod, mutate,
}
use tensile_kube.Webhook.Mutate.Decisions.{request, Avoids, update_then_create}
use tensile_kube.Util.Replace.Excludes.{Node}
use tensile_kube.Webhook.Mutate.Barred.{can_avoid}
use tensile_kube.Descheduler.Evictor.{
  PodEvictor, Answers, evicted, limit_reached, failed, Call, patch_pod, delete_pod, create_pod,
  send, replace_pod, set_affinity, add_unschedulable_node, recreated_pod, evict_pod, over_limit,
  new_affinity, freeze,
}
use tensile_kube.Descheduler.Evictor.Recreate.{recreated_pod-marked}

-- The calls of an eviction that sends the patch `text` and then the pod `new`.
abbrev pub calls_of : Pod → String → Pod → List Call
calls_of pod text new =
    patch_pod pod.meta.namespace pod.meta.name text
    ∷ (delete_pod pod.meta.namespace pod.meta.name ∷ (create_pod pod.meta.namespace new ∷ []))

failed_ne_evicted : (e : ApiError) → failed e ≡ evicted → ⊥
failed_ne_evicted e h = cc

send-evicted :
    (pod : Pod) (a : Affinity) (mp : Result ApiError String) (p d c : Option ApiError)
    → (send pod a mp p d c).0 ≡ evicted
    → (text : String) × (mp ≡ ok text)
      × ((send pod a mp p d c).1 ≡ calls_of pod text (recreated_pod pod a))
unfolding send
send-evicted pod a (err e) p d c h = absurd (failed_ne_evicted e h)
send-evicted pod a (ok text) (some e) d c h = absurd (failed_ne_evicted e h)
send-evicted pod a (ok text) none (some e) c h = absurd (failed_ne_evicted e h)
send-evicted pod a (ok text) none none c h = (text, refl, refl)

recreated_pod-should_skip :
    (pod : Pod) (a : Affinity) (spec : PodSpec)
    → should_skip (record (recreated_pod pod a) { spec = spec }) ≡ true
unfolding should_skip recreated_pod
recreated_pod-should_skip pod a spec = elim (Bool-cases (pod.meta.namespace == "kube-system")) [
  | inl system ↦ rw system refl
  | inr user ↦ rw (user, recreated_pod-marked pod a) refl
]

mutate-skipped :
    {C : Type 0} (g : GoCache C) (server : Server) (operation : String) (pod : Pod) (now : ℕ)
    (cache : Dict C)
    → should_skip pod ≡ true
    → mutate g server (request operation pod) now cache ≡ done (allowed, cache)
unfolding mutate
mutate-skipped g server operation pod now cache skipped = rw (skipped, mutate) refl

-- The parts of an object that the webhook looks at, besides the node of the pod.
abbrev pub SameMarks : Pod → Pod → Type 0
SameMarks p q =
    (p.meta.namespace ≡ q.meta.namespace)
    × (p.meta.labels ≡ q.meta.labels)
    × (p.meta.annotations ≡ q.meta.annotations)
    × (p.meta.owner_references ≡ q.meta.owner_references)

module _ (pod after : Pod) (patched : SameMarks after (add_unschedulable_node pod)) where
  reported-should_skip : should_skip after ≡ should_skip pod
  unfolding should_skip is_virtual_pod add_unschedulable_node
  reported-should_skip = rw (patched.0, patched.1) refl

  reported-owner : get_owner_ref after ≡ get_owner_ref pod
  unfolding get_owner_ref add_unschedulable_node
  reported-owner = rw patched.3 refl

  reported-node :
      (pod.spec.node_name == "") ≡ false
      → index_nil "unschedulable-node" after.meta.annotations ≡ pod.spec.node_name
  unfolding add_unschedulable_node index_nil
  reported-node placed =
      rw (patched.2, placed)
        (index-insert_self "unschedulable-node" pod.spec.node_name
          (make_if_nil pod.meta.annotations))

  -- What the webhook keeps of the update by which an eviction reports its node.
  mutate-reported :
      {C : Type 0} (g : GoCache C) (server : Server) (now : ℕ) (cache : Dict C)
      → should_skip pod ≡ false
      → mutate g server (request "UPDATE" after) now cache
        ≡ done (allowed, set_unschedulable_nodes g now (get_owner_ref pod) after cache)
  unfolding mutate mutate_pod
  mutate-reported g server now cache kept =
      rw (reported-should_skip, kept, reported-owner, mutate) refl

limit_reached_ne_evicted : limit_reached ≡ evicted → ⊥
limit_reached_ne_evicted h = cc

module _ {C : Type 0} (g : GoCache C) where
  evict_pod-evicted :
      (answers : Answers) (now : ℕ) (pod : Pod) (node : String) (pe : PodEvictor C)
      → (evict_pod g answers now pod node pe).0 ≡ evicted
      → (a : Affinity) × (text : String) × (answers.merge_patch
            (set_affinity pod a)
            (add_unschedulable_node (set_affinity pod a))
          ≡ ok text)
        × ((evict_pod g answers now pod node pe).1 ≡ calls_of pod text (recreated_pod pod a))
  unfolding evict_pod replace_pod
  evict_pod-evicted answers now pod node pe h = elim (Bool-cases (over_limit g pe node)) [
    | inl over ↦ absurd (limit_reached_ne_evicted (rw over at h))
    | inr under ↦
        let a = new_affinity g (freeze g now pod pe) now pod in
        let (text, made, calls) = send-evicted pod a _ _ _ _ (rw under at h) in
        rw under (a, text, made, calls)
  ]

  -- An eviction that ends well passes through the webhook like this, where the patch has its effect on
  -- what the webhook looks at. The new pod is allowed as it is. If the webhook does not skip the old pod,
  -- and it has an owner, and a node that is not frozen for the owner yet, then the update is allowed. A pod of
  -- the same first owner that is created without a node within three minutes, and that the webhook does not skip,
  -- is then allowed with a patch to a pod whose required node affinity does not admit a node of that name.
  -- Here the cache meets its laws (`IsLawful`), `kubernetes.io/hostname` is an ignored key, and the created pod
  -- has no required node affinity, or one of at least one term, each without fields and with a `hostname
  -- NotIn` expression.
  pub evict_pod-Avoids :
      (lawful : IsLawful g) (server : Server) (apply : String → Pod → Pod) (answers : Answers)
      (now : ℕ) (pod : Pod) (node : String) (pe : PodEvictor C) (t₁ t₂ : ℕ) (sister : Pod)
      (cache : Dict C) (n : Node)
      → ((a : Affinity) (text : String)
          → answers.merge_patch (set_affinity pod a) (add_unschedulable_node (set_affinity pod a))
            ≡ ok text
          → SameMarks (apply text pod) (add_unschedulable_node pod))
      → (evict_pod g answers now pod node pe).0 ≡ evicted
      → should_skip pod ≡ false
      → (get_owner_ref pod == "") ≡ false
      → (pod.spec.node_name == "") ≡ false
      → n.host ≡ pod.spec.node_name
      → get_freeze_time g t₁ pod.spec.node_name (get_owner_ref pod) cache ≡ none
      → contains host_name_key server.ignore_selector_keys ≡ true
      → should_skip sister ≡ false
      → get_owner_ref sister ≡ get_owner_ref pod
      → sister.spec.node_name ≡ ""
      → can_avoid sister.spec.affinity ≡ true
      → t₁ ≤ t₂
      → t₂ ≤ t₁ + expiration
      → (text : String) × (new : Pod) × (kept : Dict C) × ((evict_pod g answers now pod node pe).1
          ≡ calls_of pod text new)
        × (mutate g server (request "UPDATE" (apply text pod)) t₁ cache ≡ done (allowed, kept))
        × (mutate g server (request "CREATE" new) t₁ kept ≡ done (allowed, kept))
        × Avoids g server n t₂ sister kept
  evict_pod-Avoids lawful server apply answers now pod node pe t₁ t₂ sister cache n patches ends
        shown owned placed host thawed ignored seen same pending can le within =
      let (a, text, made, calls) = evict_pod-evicted answers now pod node pe ends in
      let patched = patches a text made in
      let kept = set_unschedulable_nodes g t₁ (get_owner_ref pod) (apply text pod) cache in
      (
        text,
        recreated_pod pod a,
        kept,
        calls,
        mutate-reported pod (apply text pod) patched g server t₁ cache shown,
        mutate-skipped g server "CREATE" (recreated_pod pod a) t₁ kept
            (recreated_pod-should_skip pod a _),
        update_then_create g server n lawful t₁ t₂ (get_owner_ref pod) (apply text pod) sister cache
            ignored seen can owned (rw host placed)
            (reported-node pod (apply text pod) patched placed ∙ sym host) same pending
            (rw host thawed) le within,
      )

  -- The node of a pod that is evicted for the second time is not frozen by the webhook: for the pod that
  -- an eviction made, on whatever node it was placed since, `mutate` takes no note of the update that
  -- reports the node.
  pub second_report-lost :
      (server : Server) (pod after : Pod) (a : Affinity) (spec : PodSpec) (now : ℕ) (cache : Dict C)
      → SameMarks after (add_unschedulable_node (record (recreated_pod pod a) { spec = spec }))
      → mutate g server (request "UPDATE" after) now cache ≡ done (allowed, cache)
  second_report-lost server pod after a spec now cache patched =
      mutate-skipped g server "UPDATE" after now cache (
        reported-should_skip (record (recreated_pod pod a) { spec = spec }) after patched
        ∙ recreated_pod-should_skip pod a spec)
