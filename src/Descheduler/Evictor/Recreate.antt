-- ===== src/Descheduler/Evictor/Recreate.antt =====
-- The pod that is created in place of an evicted one, and the nodes that it avoids.
use tensile_kube.Prelude.{
  ℕ, String, ◌≡◌, Bool, false, not, ◌&&◌, none, some, List, [], ◌∷◌, arith, ◌==◌, if◌then◌else◌,
  contains, Option-cases, ◌⊎◌, ◌≢◌, true, inl, inr, ◌<◌, filter_by, ◌∙◌,
}
use tensile_kube.Prelude.Dict.{
  Dict, make_if_nil, lookup, index, index_nil, index-insert_self, lookup-insert,
}
use tensile_kube.Prelude.Run.{Result, ok, err}
use tensile_kube.Prelude.Int.{pos}
use tensile_kube.Prelude.Strconv.{itoa}
use tensile_kube.Api.{Affinity, Pod, ApiError, not_found, already_exists}
use tensile_kube.Util.Consts.{deschedule_count, created_by_descheduler}
use tensile_kube.Util.Cache.{GoCache, IsLawful, expiration, is_some, get_freeze_time}
use tensile_kube.Util.Cache.Freeze.{get_freeze_time_young}
use tensile_kube.Util.Replace.{keeps_value, replace_values}
use tensile_kube.Util.Replace.Excludes.{contains-filter_by}
use tensile_kube.Descheduler.Evictor.{
  PodEvictor, add_deschedule_count, is_node_freeze, evicted, Answers, recreated_pod, set_affinity,
  add_unschedulable_node, Outcome, limit_reached, not_recreated, failed, Call, create_pod,
  delete_pod, patch_pod, own_keeps_value,
}

-- From the second time that a pod is evicted, `addDescheduleCount` forgets every annotation but the
-- count, the stored `clusterSelector` among them.
add_deschedule_count-loses :
    (annotations : Dict String) (text key : String)
    → lookup deschedule_count annotations ≡ some text
    → (deschedule_count == key) ≡ false
    → index key (add_deschedule_count (some annotations)) ≡ ""
unfolding add_deschedule_count index
add_deschedule_count-loses annotations text key counted differ = ground arith

-- The first count keeps the other annotations, and sets the count to 1.
add_deschedule_count-first :
    (annotations : Dict String) (key : String)
    → lookup deschedule_count annotations ≡ none
    → lookup key (add_deschedule_count (some annotations))
      ≡ (if deschedule_count == key then some (itoa (pos 1)) else lookup key annotations)
unfolding add_deschedule_count
add_deschedule_count-first annotations key fresh =
    rw (fresh, add_deschedule_count) (lookup-insert key deschedule_count (itoa (pos 1)) annotations)

module _ {C : Type 0} (g : GoCache C) (lawful : IsLawful g) where
  -- A freeze duration longer than three minutes has no effect: `isNodeFreeze` holds exactly while the
  -- cache still has the node, which it forgets after its own three minutes.
  is_node_freeze-expiration :
      (cache : Dict C) (now duration : ℕ) (node owner : String)
      → expiration < duration
      → is_node_freeze g cache now node owner duration
        ≡ is_some (get_freeze_time g now node owner cache)
  unfolding is_node_freeze
  is_node_freeze-expiration cache now duration node owner long =
      elim (Option-cases (get_freeze_time g now node owner cache)) [
        | inl missing ↦ rw (missing, is_node_freeze)
        | inr (at, found) ↦
            rw (found, is_node_freeze)
              (ground (arith, get_freeze_time_young g lawful now at node owner cache found))
      ]

module _ {C : Type 0} (g : GoCache C) (pe : PodEvictor C) where
  abbrev pub frozen : ℕ → String → String → Bool
  frozen now v owner = is_node_freeze g pe.cache now v owner pe.freeze_duration

  -- Of the nodes that a pod avoids already, other than the one it is evicted from, `EvictPod` keeps
  -- those that are not frozen for its owner and drops those that are. The evictor's own
  -- `getNodeSelectorRequirement`, which is not called, keeps the frozen ones and drops the others.
  pub kept_values :
      (now : ℕ) (node_name owner v : String) (values : List String)
      → (node_name == v) ≡ false
      → (v == node_name) ≡ false
      → (v == "") ≡ false
      → (contains v (
            replace_values
              (some (λ n o expire. is_node_freeze g pe.cache now n o expire))
              owner
              pe.freeze_duration
              (node_name ∷ [])
              values)
          ≡ (contains v values && not (frozen now v owner)))
        × (contains v (filter_by (own_keeps_value g pe now node_name owner) values)
            ≡ (contains v values && frozen now v owner))
  unfolding replace_values keeps_value own_keeps_value
  kept_values now node_name owner v values differ differ' named = (
    contains-filter_by _ v values ∙ rw (differ, named) (ground arith),
    contains-filter_by _ v values ∙ rw differ',
  )

-- The old pod was patched and deleted, and then the new pod was sent, with the mark of the
-- descheduler, no node and no UID.
abbrev pub SentAll : Pod → List Call → Type 0
SentAll pod calls =
    (patch : String) × (new : Pod) × (calls
      ≡ patch_pod pod.meta.namespace pod.meta.name patch
        ∷ delete_pod pod.meta.namespace pod.meta.name
        ∷ create_pod pod.meta.namespace new
        ∷ [])
    × (index_nil created_by_descheduler new.meta.labels ≡ "true")
    × (new.spec.node_name ≡ "")
    × (new.meta.uid ≡ "")

-- A call that went well, or found nothing.
abbrev pub HasPassed {ℓ} : {A : Type ℓ} → Result ApiError A → Type ℓ
HasPassed {A} r = ((x : A) × (r ≡ ok x)) ⊎ (r ≡ err not_found)

-- A creation that went well, or found the pod.
abbrev pub HasPod {ℓ} : {A : Type ℓ} → Result ApiError A → Type ℓ
HasPod {A} r = ((x : A) × (r ≡ ok x)) ⊎ (r ≡ err already_exists)

-- Where an eviction failed: at the merge patch, with no call; at the patch; or at the deletion. The new pod
-- was not sent.
abbrev pub FailedAt : Answers → Pod → ApiError → List Call → Type 0
FailedAt answers pod e calls =
    ((a : Affinity) × (answers.merge_patch (set_affinity pod a)
          (add_unschedulable_node (set_affinity pod a))
        ≡ err e)
      × (calls ≡ []))
    ⊎ ((patch : String) × (calls ≡ patch_pod pod.meta.namespace pod.meta.name patch ∷ [])
        × (answers.patch ≡ err e)
        × (e ≢ not_found))
    ⊎ ((patch : String) × (calls
          ≡ patch_pod pod.meta.namespace pod.meta.name patch
            ∷ (delete_pod pod.meta.namespace pod.meta.name ∷ []))
        × HasPassed answers.patch
        × (answers.delete ≡ err e)
        × (e ≢ not_found))

-- What each outcome of an eviction says of the answers and the calls.
abbrev pub Sent : Answers → Pod → Bool → Outcome × List Call → Type 0
Sent answers pod over (limit_reached, calls) = (over ≡ true) × (calls ≡ [])
Sent answers pod over (failed e, calls) = (over ≡ false) × FailedAt answers pod e calls
Sent answers pod over (evicted, calls) =
    (over ≡ false)
    × SentAll pod calls
    × HasPassed answers.patch
    × HasPassed answers.delete
    × HasPod answers.create
Sent answers pod over (not_recreated, calls) =
    (over ≡ false)
    × SentAll pod calls
    × HasPassed answers.patch
    × HasPassed answers.delete
    × ((e : ApiError) × (answers.create ≡ err e) × (e ≢ already_exists))

pub recreated_pod-marked :
    (pod : Pod) (a : Affinity)
    → index_nil created_by_descheduler (recreated_pod pod a).meta.labels ≡ "true"
unfolding recreated_pod index_nil
recreated_pod-marked pod a =
    index-insert_self created_by_descheduler "true" (make_if_nil pod.meta.labels)
