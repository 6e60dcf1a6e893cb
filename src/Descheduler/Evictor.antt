-- ===== src/Descheduler/Evictor.antt =====
-- pkg/descheduler/evictions/evictions.go. A node is known by an identity, as the key of
-- `nodepodCount` is a pointer. The answers of the API server are arguments; the calls that are made
-- are a list. Locks make the test and the increment of the count one step each.
pub mod Count
pub mod Admitted
pub mod Concurrent
pub mod Own
pub mod Recreate
use tensile_kube.Prelude.{
  ℕ, zero, ◌+◌, String, Bool, true, false, not, ◌&&◌, Option, none, some, List, [], ◌∷◌, ◌++◌, ◌==◌,
  ltb, filter_by, if◌then◌else◌,
}
use tensile_kube.Prelude.Dict.{Dict, lookup, insert, make_if_nil}
use tensile_kube.Prelude.Run.{Result, ok, err}
use tensile_kube.Prelude.Int.{pos}
use tensile_kube.Prelude.Strconv.{itoa, atoi, succ_int}
use tensile_kube.Api.{
  NodeSelectorRequirement, Affinity, Pod, empty_status, ApiError, not_found, already_exists, other,
}
use tensile_kube.Util.Consts.{created_by_descheduler, deschedule_count}
use tensile_kube.Util.Cache.{GoCache, add, get_freeze_time}
use tensile_kube.Util.Replace.{is_host_requirement, replace_pod_node_name_node_affinity}

abbrev pub unschedulable_node : String
unschedulable_node = "unschedulable-node"

-- `maxPodsToEvict` is an int: 0 stands for every value that is not positive.
pub record PodEvictor (C : Type 0) : Type 0 where
  pub max_pods_to_evict : ℕ
  pub nodepod_count : Dict ℕ
  pub freeze_duration : ℕ
  pub cache : Dict C

abbrev count_of : Option ℕ → ℕ
count_of none = 0
count_of (some n) = n

sum_counts : Dict ℕ → ℕ
sum_counts [] = 0
sum_counts ((_, n) ∷ m) = n + sum_counts m

module _ {C : Type 0} where
  -- A missing key reads as 0.
  unfoldable pub node_evicted : PodEvictor C → String → ℕ
  node_evicted pe node = count_of (lookup node pe.nodepod_count)

  unfoldable pub total_evicted : PodEvictor C → ℕ
  unfolding sum_counts
  total_evicted pe = sum_counts pe.nodepod_count

-- `addDescheduleCount` on the annotations of the new pod.
unfoldable pub add_deschedule_count : Option (Dict String) → Dict String
add_deschedule_count none = (deschedule_count, itoa (pos 1)) ∷ []
add_deschedule_count (some annotations) = elim (lookup deschedule_count annotations) [
  | none ↦ insert deschedule_count (itoa (pos 1)) annotations
  | some text ↦
      (deschedule_count, itoa (succ_int (elim (atoi text) [ none ↦ pos 0 | some count ↦ count ])))
      ∷ []
]

unfoldable pub add_unschedulable_node : Pod → Pod
add_unschedulable_node pod =
    let annotations = make_if_nil pod.meta.annotations in
    record pod {
      meta = record pod.meta {
        annotations = some (
            if pod.spec.node_name == ""
            then annotations
            else insert unschedulable_node pod.spec.node_name annotations);
        resource_version = "0";
      };
    }

-- The UID of the last owner, and the pod's name where it has none.
last_owner : String → List String → String
last_owner name [] = name
last_owner name (uid ∷ uids) = last_owner uid uids

unfoldable pub owner_id : Pod → String
unfolding last_owner
owner_id pod = last_owner pod.meta.name pod.meta.owner_references

module _ {C : Type 0} (g : GoCache C) where
  unfoldable pub is_node_freeze : Dict C → ℕ → String → String → ℕ → Bool
  is_node_freeze cache now node owner freeze_duration =
      elim (get_freeze_time g now node owner cache) [
        | none ↦ false
        | some freeze_time ↦ ltb now (freeze_time + freeze_duration)
      ]

  -- `getNodeSelectorRequirement` of the evictor itself: the values that it keeps, and a requirement.
  unfoldable pub own_keeps_value : PodEvictor C → ℕ → String → String → String → Bool
  own_keeps_value pe now node_name owner v =
      if v == node_name then false else is_node_freeze pe.cache now v owner pe.freeze_duration

  unfoldable pub own_replace_requirement :
      PodEvictor C → ℕ → String → String → NodeSelectorRequirement → NodeSelectorRequirement
  unfolding own_keeps_value
  own_replace_requirement pe now node_name owner me =
      if is_host_requirement me
      then (if node_name == "" then me else record me {
        values = filter_by (own_keeps_value pe now node_name owner) me.values ++ (node_name ∷ []);
      })
      else me

  -- The affinity of the new pod. Where the pod has one, it is changed in place.
  unfoldable pub new_affinity : PodEvictor C → ℕ → Pod → Affinity
  unfolding is_node_freeze
  new_affinity pe now pod =
      (replace_pod_node_name_node_affinity
        (some (λ v owner expire. is_node_freeze pe.cache now v owner expire)) (owner_id pod)
        pe.freeze_duration (pod.spec.node_name ∷ []) pod.spec.affinity).0

abbrev set_affinity : Pod → Affinity → Pod
set_affinity pod a = record pod {
  spec = record pod.spec { affinity = elim pod.spec.affinity [ none ↦ none | some _ ↦ some a ] };
}

-- The pod that is created again.
unfoldable pub recreated_pod : Pod → Affinity → Pod
unfolding add_deschedule_count
recreated_pod pod a = record {
  meta = record pod.meta {
    uid = "";
    resource_version = "";
    labels = some (insert created_by_descheduler "true" (make_if_nil pod.meta.labels));
    annotations = some (add_deschedule_count pod.meta.annotations);
  };
  spec = record pod.spec { node_name = ""; affinity = some a };
  status = empty_status;
}

pub data Call : Type 0 where
  patch_pod : String → String → String → Call
  delete_pod : String → String → Call
  create_pod : String → Pod → Call

-- What the API server and the merge patch library answer during one eviction.
pub record Answers : Type 0 where
  pub merge_patch : Pod → Pod → Result ApiError String
  pub patch : Result ApiError Pod
  pub delete : Result ApiError (Unit {0})
  pub create : Result ApiError Pod

pub data Outcome : Type 0 where
  -- `true, nil`
  evicted : Outcome
  -- `false, nil`
  not_recreated : Outcome
  -- `false, err`
  limit_reached : Outcome
  failed : ApiError → Outcome

-- An error that makes the code return: any but the one that it looks past.
unfoldable pub unless_not_found : {A : Type 0} → Result ApiError A → Option ApiError
unless_not_found (ok a) = none
unless_not_found (err not_found) = none
unless_not_found (err e) = some e

unfoldable pub unless_already_exists : {A : Type 0} → Result ApiError A → Option ApiError
unless_already_exists (ok a) = none
unless_already_exists (err already_exists) = none
unless_already_exists (err e) = some e

-- The calls by the merge patch, and by the errors of the patch, the deletion and the creation that
-- make the code return.
unfoldable pub send :
    Pod
    → Affinity
    → Result ApiError String
    → Option ApiError
    → Option ApiError
    → Option ApiError
    → Outcome × List Call
unfolding recreated_pod
send pod a (err e) patched deleted created = (failed e, [])
send pod a (ok patch) (some e) deleted created =
    (failed e, patch_pod pod.meta.namespace pod.meta.name patch ∷ [])
send pod a (ok patch) none (some e) created = (
  failed e,
  patch_pod pod.meta.namespace pod.meta.name patch
      ∷ delete_pod pod.meta.namespace pod.meta.name
      ∷ [],
)
send pod a (ok patch) none none created = (
  elim created [ some e ↦ not_recreated | none ↦ evicted ],
  patch_pod pod.meta.namespace pod.meta.name patch
      ∷ delete_pod pod.meta.namespace pod.meta.name
      ∷ create_pod pod.meta.namespace (recreated_pod pod a)
      ∷ [],
)

unfoldable pub replace_pod : Answers → Pod → Affinity → Outcome × List Call
unfolding send unless_not_found unless_already_exists
replace_pod answers pod a =
    let shared = set_affinity pod a in
    send pod a (answers.merge_patch shared (add_unschedulable_node shared))
      (unless_not_found answers.patch) (unless_not_found answers.delete)
      (unless_already_exists answers.create)

-- `pe.maxPodsToEvict > 0 && count+1 > pe.maxPodsToEvict`
abbrev pub limit_test : ℕ → ℕ → Bool
limit_test max count = ltb 0 max && ltb max (count + 1)

module _ {C : Type 0} (g : GoCache C) where
  unfoldable pub over_limit : PodEvictor C → String → Bool
  unfolding node_evicted
  over_limit pe node = limit_test pe.max_pods_to_evict (node_evicted pe node)

  -- `pe.nodepodCount[node]++`, where the pod was evicted.
  unfoldable pub count_eviction : Outcome → String → PodEvictor C → PodEvictor C
  unfolding node_evicted
  count_eviction evicted node pe = record pe {
    nodepod_count = insert node (node_evicted pe node + 1) pe.nodepod_count;
  }
  count_eviction not_recreated node pe = pe
  count_eviction limit_reached node pe = pe
  count_eviction (failed e) node pe = pe

  unfoldable pub freeze : ℕ → Pod → PodEvictor C → PodEvictor C
  freeze now pod pe = record pe { cache = add g now pod.spec.node_name (owner_id pod) pe.cache }

  unfoldable pub evict_pod :
      Answers → ℕ → Pod → String → PodEvictor C → Outcome × List Call × PodEvictor C
  unfolding over_limit count_eviction freeze
  evict_pod answers now pod node pe =
      if over_limit pe node
      then (limit_reached, [], pe)
      else let frozen = freeze now pod pe in
        let (outcome, calls) = replace_pod answers pod (new_affinity g frozen now pod) in
        (outcome, calls, count_eviction outcome node frozen)
