-- ===== src/Tests/Reporting.antt =====
-- An eviction that the webhook sees, and a second one.
use tensile_kube.Prelude.{ℕ, String, ◌≡◌, refl, true, [], ◌∷◌, arith}
use tensile_kube.Prelude.Dict.{Dict, lookup, index_nil}
use tensile_kube.Prelude.Run.{done, err}
use tensile_kube.Api.{Pod, other}
use tensile_kube.Util.Consts.{is_virtual_pod, host_name_key}
use tensile_kube.Util.Cache.{get_freeze_time}
use tensile_kube.Util.Cache.Memory.{memory_cache, memory_cache-IsLawful}
use tensile_kube.Descheduler.Evictor.{
  evicted, evict_pod, add_unschedulable_node, recreated_pod, over_limit, node_evicted, replace_pod,
  send, unless_not_found, unless_already_exists,
}
use tensile_kube.Descheduler.Evictor.Admitted.{calls_of, evict_pod-Avoids, second_report-lost}
use tensile_kube.Util.Replace.Excludes.{Node}
use tensile_kube.Webhook.Mutate.{Server, allowed, mutate, get_owner_ref, should_skip}
use tensile_kube.Webhook.Mutate.Decisions.{request, Avoids}
use tensile_kube.Tests.{
  web_pod, web_spec, new_pod, all_well, evictor, codec, no_selection, affinity_of, mixed_term,
}

abbrev reporting_server : Server
reporting_server = record {
  json = codec [] no_selection;
  json_patch = λ a b. err (other "no patch");
  pvc_lister = λ ns name. err (other "no claim");
  ignore_selector_keys = host_name_key ∷ [];
}

abbrev apply : String → Pod → Pod
apply text pod = add_unschedulable_node pod

eviction_ends : (evict_pod memory_cache all_well 90 web_pod "node-1" (evictor 0)).0 ≡ evicted
unfolding evict_pod over_limit node_evicted replace_pod send unless_not_found unless_already_exists
    lookup
eviction_ends = refl

abbrev old_node : Node
old_node = record { host = "node-1"; meets = λ r. true; meets_field = λ r. true }

evict_pod-Avoids_example :
    (text : String) × (new : Pod) × (kept : Dict (Dict ℕ)) × ((evict_pod memory_cache all_well 90
        web_pod "node-1"
        (evictor 0)).1
      ≡ calls_of web_pod text new)
    × (mutate memory_cache reporting_server (request "UPDATE" (apply text web_pod)) 100 []
        ≡ done (allowed, kept))
    × (mutate memory_cache reporting_server (request "CREATE" new) 100 kept ≡ done (allowed, kept))
    × Avoids memory_cache reporting_server old_node 150 new_pod kept
unfolding should_skip get_owner_ref get_freeze_time is_virtual_pod index_nil lookup
evict_pod-Avoids_example =
    evict_pod-Avoids memory_cache memory_cache-IsLawful reporting_server apply all_well 90 web_pod
      "node-1" (evictor 0) 100 150 new_pod [] old_node (λ a text made. (refl, refl, refl, refl))
      eviction_ends refl refl refl refl refl refl refl refl refl refl (omega arith) (omega arith)

-- The new pod was placed on another node.
second_report-lost_example :
    mutate memory_cache reporting_server
      (request "UPDATE" (
        add_unschedulable_node (record (recreated_pod web_pod (affinity_of (mixed_term []))) {
          spec = record web_spec { node_name = "node-2" };
        })))
      100
      []
    ≡ done (allowed, [])
second_report-lost_example =
    second_report-lost memory_cache reporting_server web_pod
      (add_unschedulable_node (record (recreated_pod web_pod (affinity_of (mixed_term []))) {
        spec = record web_spec { node_name = "node-2" };
      }))
      (affinity_of (mixed_term [])) (record web_spec { node_name = "node-2" }) 100 []
      (refl, refl, refl, refl)
