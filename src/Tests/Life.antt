-- ===== src/Tests/Life.antt =====
-- The life of a pod of the lower cluster alone.
use tensile_kube.Prelude.{String, ◌≡◌, refl, Bool, true, false, none, some, List, [], ◌∷◌}
use tensile_kube.Prelude.Dict.{NodupKeys, lookup}
use tensile_kube.Prelude.Int.{ℤ, pos, ◌-ℤ◌}
use tensile_kube.Prelude.Run.{Result, ok}
use tensile_kube.Api.{ObjectMeta, Pod, ApiError, empty_status}
use tensile_kube.Common.Resource.{quota}
use tensile_kube.Common.Resource.Capacity.{Holds}
use tensile_kube.Provider.Needs.{pod_stopped}
use tensile_kube.Provider.PodEvents.{PodLibrary}
use tensile_kube.Provider.PodEvents.Moves.{binds, stops, goes_on, amount}
use tensile_kube.Provider.PodEvents.Life.{Moves, last_of}
use tensile_kube.Provider.PodEvents.Handlers.{handle_life, life-Holds, life-leaks}
use tensile_kube.Util.Consts.{is_virtual_pod}
use tensile_kube.Provider.Nodes.{LowerNode}
use tensile_kube.Provider.Nodes.Capacity.{of_node}
use tensile_kube.Provider.Usage.{counts, is_usable, configure_node}
use tensile_kube.Provider.Usage.Totals.{sum_if, configure_node-total}
use tensile_kube.Tests.{web_pod, web_spec}
use tensile_kube.Tests.Resources.{integers, exact, capacity, capacity-NodupKeys}

abbrev lib : PodLibrary ℤ
lib = record {
  equal = λ a b. false;
  one = pos 1;
  requests = λ p. ("cpu", pos 2) ∷ [];
  same_containers = λ a b. true;
  same_status = λ a b. false;
}

abbrev at : String → String → Pod
at node phase = record web_pod {
  meta = record web_pod.meta { labels = none };
  spec = record web_spec { node_name = node; restart_policy = "Never" };
  status = record empty_status { phase = phase };
}

no_pods : (p : Pod) → lookup "pods" (lib.requests p) ≡ none
unfolding lookup
no_pods p = refl

nodup : (p : Pod) → NodupKeys (lib.requests p)
unfolding lookup
nodup p = (refl, tt)

abbrev total : String → ℤ
total j = integers.value (quota integers j capacity)

held_total : Holds integers exact (some capacity) total
held_total = record {
  capacity = capacity;
  there = refl;
  nodup = capacity-NodupKeys;
  amounts = λ j. refl;
}

abbrev versions : List Pod
versions = at "node-1" "Pending" ∷ at "node-1" "Running" ∷ at "node-1" "Succeeded" ∷ []

moves : Moves integers exact lib no_pods nodup (at "" "Pending") versions
unfolding pod_stopped
moves = (
  binds refl refl refl refl,
  (goes_on refl refl refl refl, (stops refl refl refl refl refl refl, tt)),
)

meta_free : (p : Pod) (m : ObjectMeta) → lib.requests (record p { meta = m }) ≡ lib.requests p
meta_free p m = refl

life-Holds_example :
    Holds integers exact
      (handle_life integers lib
        (at "" "Pending")
        versions
        (last_of integers exact lib no_pods nodup (at "" "Pending") versions)
        (some capacity))
      total
unfolding pod_stopped is_virtual_pod
life-Holds_example =
    life-Holds integers exact lib no_pods nodup meta_free (some capacity) total (at "" "Pending")
      versions refl (refl, (refl, (refl, tt))) refl refl moves held_total

life-leaks_example :
    Holds integers exact
      (handle_life integers lib
        (at "node-1" "Pending")
        (at "node-1" "Failed" ∷ [])
        (at "node-1" "Failed")
        (some capacity))
      (λ j. total j -ℤ amount integers exact lib no_pods nodup (at "node-1" "Pending") j)
unfolding pod_stopped is_virtual_pod
life-leaks_example =
    life-leaks integers exact lib no_pods nodup meta_free (some capacity) total
      (at "node-1" "Pending") (at "node-1" "Failed") refl refl refl refl refl refl held_total

abbrev node : Bool → LowerNode ℤ
node unschedulable = record {
  conditions = record { type = "Ready"; status = "True"; reason = "" } ∷ [];
  unschedulable = unschedulable;
  capacity = capacity;
  allocatable = capacity;
}

abbrev found_node : String → Result ApiError (LowerNode ℤ)
found_node name = ok (node false)

configure_node-total_example :
    Holds integers exact
      (configure_node integers lib found_node
        (ok (node false ∷ node true ∷ []))
        (ok (at "node-1" "Running" ∷ at "" "Pending" ∷ [])))
      (λ j.
        sum_if
          (is_usable integers lib)
          (λ n. of_node integers exact n j)
          (node false ∷ node true ∷ [])
        -ℤ sum_if
            (counts integers lib found_node)
            (λ p. amount integers exact lib no_pods nodup p j)
            (at "node-1" "Running" ∷ at "" "Pending" ∷ []))
configure_node-total_example =
    configure_node-total integers exact lib no_pods nodup found_node (node false ∷ node true ∷ [])
      (at "node-1" "Running" ∷ at "" "Pending" ∷ []) (capacity-NodupKeys, (capacity-NodupKeys, tt))
