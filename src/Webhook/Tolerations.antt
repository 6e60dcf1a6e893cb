-- ===== src/Webhook/Tolerations.antt =====
-- `getPodTolerations` of pkg/webhook/hook.go.
use mathlib.Core.List.{append_assoc, append-nil, map-append}
use tensile_kube.Prelude.{
  String, ◌≡◌, refl, ap, ◌∙◌, Bool, true, false, not, ◌||◌, Option, none, some, List, [], ◌∷◌, ◌++◌,
  map, arith, eq_iff, ◌==◌, if◌then◌else◌, any_by,
}
use tensile_kube.Api.{Toleration}
use tensile_kube.Util.Consts.{taint_node_not_ready, taint_node_unreachable}

abbrev pub desired_toleration : String → Toleration
desired_toleration key = record {
  key = key;
  operator = "Exists";
  value = "";
  effect = "NoExecute";
  toleration_seconds = none;
}

-- A lookup in `desiredMap`.
abbrev pub desired : String → Option Toleration
desired key =
    if key == taint_node_not_ready
    then some (desired_toleration taint_node_not_ready)
    else if key == taint_node_unreachable
    then some (desired_toleration taint_node_unreachable)
    else none

unfoldable pub add_default_pod_tolerations : List Toleration → Bool → Bool → List Toleration
add_default_pod_tolerations tolerations not_ready unschedulable =
    let more =
      if not_ready
      then tolerations
      else tolerations ++ (desired_toleration taint_node_not_ready ∷ []) in
    if unschedulable then more else more ++ (desired_toleration taint_node_unreachable ∷ [])

abbrev pub desire : Toleration → Toleration
desire t = elim (desired t.key) [ none ↦ t | some d ↦ d ]

tolerations_loop : List Toleration → Bool → Bool → List Toleration → List Toleration
unfolding add_default_pod_tolerations
tolerations_loop [] not_ready unschedulable out =
    add_default_pod_tolerations out not_ready unschedulable
tolerations_loop (t ∷ ts) not_ready unschedulable out =
    tolerations_loop ts (if t.key == taint_node_not_ready then true else not_ready)
      (if t.key == taint_node_unreachable then true else unschedulable) (out ++ (desire t ∷ []))

abbrev pub toleration_list : Option (List Toleration) → List Toleration
toleration_list none = []
toleration_list (some ts) = ts

unfoldable pub get_pod_tolerations : Option (List Toleration) → List Toleration
unfolding tolerations_loop
get_pod_tolerations tolerations = tolerations_loop (toleration_list tolerations) false false []

abbrev pub has_key : String → List Toleration → Bool
has_key key = any_by (λ t. t.key == key)

or-false : (b : Bool) → (b || false) ≡ b
or-false b = ground arith

or_seen : (seen b c : Bool) → ((if seen then true else b) || c) ≡ (b || (seen || c))
or_seen seen b c = ground arith

-- The loop without its accumulators.
tolerations_loop_lem :
    (ts : List Toleration) (nr un : Bool) (out : List Toleration)
    → tolerations_loop ts nr un out
      ≡ add_default_pod_tolerations
          (out ++ map desire ts)
          (nr || has_key taint_node_not_ready ts)
          (un || has_key taint_node_unreachable ts)
unfolding tolerations_loop
tolerations_loop_lem [] nr un out = cc (append-nil out, or-false nr, or-false un)
tolerations_loop_lem (t ∷ ts) nr un out = cc (
  tolerations_loop_lem ts (if t.key == taint_node_not_ready then true else nr)
      (if t.key == taint_node_unreachable then true else un) (out ++ (desire t ∷ [])),
  append_assoc out (desire t ∷ []) (map desire ts),
  or_seen (t.key == taint_node_not_ready) nr (has_key taint_node_not_ready ts),
  or_seen (t.key == taint_node_unreachable) un (has_key taint_node_unreachable ts),
)

get_pod_tolerations_lem :
    (o : Option (List Toleration))
    → get_pod_tolerations o
      ≡ add_default_pod_tolerations
          (map desire (toleration_list o))
          (has_key taint_node_not_ready (toleration_list o))
          (has_key taint_node_unreachable (toleration_list o))
unfolding get_pod_tolerations
get_pod_tolerations_lem o = tolerations_loop_lem (toleration_list o) false false []

desire-desire : (t : Toleration) → desire (desire t) ≡ desire t
desire-desire t =
    ground (arith, eq_iff t.key taint_node_not_ready, eq_iff t.key taint_node_unreachable)

key-desire : (t : Toleration) → (desire t).key ≡ t.key
key-desire t =
    ground (arith, eq_iff t.key taint_node_not_ready, eq_iff t.key taint_node_unreachable)

map-desire : (ts : List Toleration) → map desire (map desire ts) ≡ map desire ts
map-desire [] = refl
map-desire (t ∷ ts) = cc (desire-desire t, map-desire ts)

has_key-map : (key : String) (ts : List Toleration) → has_key key (map desire ts) ≡ has_key key ts
has_key-map key [] = refl
has_key-map key (t ∷ ts) = rw (has_key-map key ts, key-desire t)

has_key-append :
    (key : String) (xs ys : List Toleration)
    → has_key key (xs ++ ys) ≡ (has_key key xs || has_key key ys)
has_key-append key [] ys = refl
has_key-append key (x ∷ xs) ys = ground (arith, has_key-append key xs ys)

map-add_default :
    (ts : List Toleration) (nr un : Bool)
    → map desire (add_default_pod_tolerations ts nr un)
      ≡ add_default_pod_tolerations (map desire ts) nr un
unfolding add_default_pod_tolerations
map-add_default ts true true = refl
map-add_default ts true false = map-append desire ts _
map-add_default ts false true = map-append desire ts _
map-add_default ts false false =
    map-append desire (ts ++ (desired_toleration taint_node_not_ready ∷ [])) _
    ∙ ap (λ l. l ++ (desired_toleration taint_node_unreachable ∷ []))
        (map-append desire ts (desired_toleration taint_node_not_ready ∷ []))

has_both :
    (ts : List Toleration) (nr un : Bool)
    → (has_key taint_node_not_ready (add_default_pod_tolerations ts nr un)
        ≡ (has_key taint_node_not_ready ts || not nr))
      × (has_key taint_node_unreachable (add_default_pod_tolerations ts nr un)
          ≡ (has_key taint_node_unreachable ts || not un))
unfolding add_default_pod_tolerations
has_both ts nr un = ground (
  arith,
  has_key-append taint_node_not_ready ts (desired_toleration taint_node_not_ready ∷ []),
  has_key-append taint_node_unreachable ts (desired_toleration taint_node_not_ready ∷ []),
  has_key-append taint_node_not_ready ts (desired_toleration taint_node_unreachable ∷ []),
  has_key-append taint_node_unreachable ts (desired_toleration taint_node_unreachable ∷ []),
  has_key-append taint_node_not_ready (ts ++ (desired_toleration taint_node_not_ready ∷ []))
      (desired_toleration taint_node_unreachable ∷ []),
  has_key-append taint_node_unreachable (ts ++ (desired_toleration taint_node_not_ready ∷ []))
      (desired_toleration taint_node_unreachable ∷ []),
)

-- After `getPodTolerations` the pod tolerates both node taints, and every toleration of one of them is the
-- one of `desiredMap`.
get_pod_tolerations-both :
    (o : Option (List Toleration))
    → (has_key taint_node_not_ready (get_pod_tolerations o) ≡ true)
      × (has_key taint_node_unreachable (get_pod_tolerations o) ≡ true)
      × (map desire (get_pod_tolerations o) ≡ get_pod_tolerations o)
get_pod_tolerations-both o =
    let ts = toleration_list o in
    let nr = has_key taint_node_not_ready ts in
    let un = has_key taint_node_unreachable ts in
    rw get_pod_tolerations_lem (
      ground (arith, has_both (map desire ts) nr un, has_key-map taint_node_not_ready ts),
      ground (arith, has_both (map desire ts) nr un, has_key-map taint_node_unreachable ts),
      rw (map-add_default, map-desire),
    )

-- A second pass through the webhook leaves the tolerations as the first one made them.
pub get_pod_tolerations_idem :
    (o : Option (List Toleration))
    → get_pod_tolerations (some (get_pod_tolerations o)) ≡ get_pod_tolerations o
get_pod_tolerations_idem o =
    let (nr, un, same) = get_pod_tolerations-both o in
    get_pod_tolerations_lem (some (get_pod_tolerations o))
    ∙ rw (nr, un) (unfold add_default_pod_tolerations in same)
