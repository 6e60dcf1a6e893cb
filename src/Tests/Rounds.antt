-- ===== src/Tests/Rounds.antt =====
-- A round of the descheduler, and the summary of the metrics.
use tensile_kube.Prelude.{◌%◌, ◌≡◌, refl, [], ◌∷◌, map}
use tensile_kube.Prelude.Int.{pos}
use tensile_kube.Provider.Metrics.{
  PodMetrics, Summary, word, to_uint64, add_uint64, container_stats, sum_cpu, sum_memory,
  convert2_pod_stats, add_metric, add_metrics, get_stats_summary,
}
use tensile_kube.Provider.Metrics.Sums.{all_cores, all_bytes, get_stats_summary-usage}

abbrev usage : PodMetrics
usage = record {
  namespace = "shop";
  name = "web-0";
  timestamp = 100;
  containers = record { name = "main"; cpu = pos 250; memory = pos 64 } ∷ [];
}

abbrev summary : Summary
summary = record {
  pods = convert2_pod_stats usage ∷ [];
  node_name = "vk";
  start_time = 100;
  usage_nano_cores = 250;
  working_set_bytes = 64;
}

get_stats_summary-usage_example :
    (summary.pods ≡ map convert2_pod_stats (usage ∷ []))
    × (summary.usage_nano_cores ≡ all_cores (usage ∷ []) % word)
    × (summary.working_set_bytes ≡ all_bytes (usage ∷ []) % word)
unfolding get_stats_summary add_metrics add_metric convert2_pod_stats sum_cpu sum_memory add_uint64
    container_stats to_uint64
get_stats_summary-usage_example = get_stats_summary-usage "vk" (usage ∷ []) summary refl
