-- ===== src/Provider/Metrics.antt =====
-- pkg/provider/metrics.go: the usage of the virtual pods, summed for the virtual node. The sums are of
-- 64 bits and wrap around. `ScaledValue` and `Value` of a quantity, which are int64, are integers.
pub mod Sums
use tensile_kube.Prelude.{
  ℕ, ◌+◌, ◌-◌, ◌%◌, String, Bool, List, [], ◌∷◌, if◌then◌else◌, nat_beq, map, ◌++◌,
}
use tensile_kube.Prelude.Int.{ℤ, pos, negsuc}
use tensile_kube.Prelude.Run.{Result, ok, err}
use tensile_kube.Api.{ApiError}

pub record ContainerMetrics : Type 0 where
  pub name : String
  pub cpu : ℤ
  pub memory : ℤ

pub record PodMetrics : Type 0 where
  pub namespace : String
  pub name : String
  pub timestamp : ℕ
  pub containers : List ContainerMetrics

pub record ContainerStats : Type 0 where
  pub name : String
  pub start_time : ℕ
  pub usage_nano_cores : ℕ
  pub working_set_bytes : ℕ

pub record PodStats : Type 0 where
  pub namespace : String
  pub name : String
  pub start_time : ℕ
  pub containers : List ContainerStats
  pub usage_nano_cores : ℕ
  pub working_set_bytes : ℕ

pub record Summary : Type 0 where
  pub pods : List PodStats
  pub node_name : String
  pub start_time : ℕ
  pub usage_nano_cores : ℕ
  pub working_set_bytes : ℕ

-- 2 ^ 64
abbrev pub word : ℕ
word = 18446744073709551616

-- `uint64(x)` of an int64.
unfoldable pub to_uint64 : ℤ → ℕ
to_uint64 (pos n) = n % word
to_uint64 (negsuc n) = word - 1 - n % word

-- `x += y` on a uint64.
unfoldable pub add_uint64 : ℕ → ℕ → ℕ
add_uint64 x y = (x + y) % word

unfoldable pub container_stats : ℕ → ContainerMetrics → ContainerStats
unfolding to_uint64
container_stats timestamp c = record {
  name = c.name;
  start_time = timestamp;
  usage_nano_cores = to_uint64 c.cpu;
  working_set_bytes = to_uint64 c.memory;
}

-- The loops, with what is summed so far.
unfoldable pub sum_cpu : List ContainerStats → ℕ → ℕ
unfolding add_uint64
sum_cpu [] total = total
sum_cpu (c ∷ cs) total = sum_cpu cs (add_uint64 total c.usage_nano_cores)

unfoldable pub sum_memory : List ContainerStats → ℕ → ℕ
unfolding add_uint64
sum_memory [] total = total
sum_memory (c ∷ cs) total = sum_memory cs (add_uint64 total c.working_set_bytes)

unfoldable pub convert2_pod_stats : PodMetrics → PodStats
unfolding container_stats sum_cpu sum_memory
convert2_pod_stats metric =
    let containers = map (container_stats metric.timestamp) metric.containers in
    record {
      namespace = metric.namespace;
      name = metric.name;
      start_time = metric.timestamp;
      containers = containers;
      usage_nano_cores = sum_cpu containers 0;
      working_set_bytes = sum_memory containers 0;
    }

-- One round of the loop of `GetStatsSummary`, for the pods that come first.
unfoldable pub add_metric : Summary → PodMetrics → Summary
unfolding convert2_pod_stats add_uint64
add_metric s metric =
    let stats = convert2_pod_stats metric in
    record s {
      pods = s.pods ++ (stats ∷ []);
      start_time = if nat_beq s.start_time 0 then stats.start_time else s.start_time;
      usage_nano_cores = add_uint64 s.usage_nano_cores stats.usage_nano_cores;
      working_set_bytes = add_uint64 s.working_set_bytes stats.working_set_bytes;
    }

unfoldable pub add_metrics : List PodMetrics → Summary → Summary
unfolding add_metric
add_metrics [] s = s
add_metrics (m ∷ ms) s = add_metrics ms (add_metric s m)

-- `listed` is the metrics server's answer for the label of virtual pods.
unfoldable pub get_stats_summary :
    String → Result ApiError (List PodMetrics) → Result ApiError Summary
unfolding add_metrics
get_stats_summary node_name (err e) = err e
get_stats_summary node_name (ok metrics) = ok (
    add_metrics metrics (record {
      pods = [];
      node_name = node_name;
      start_time = 0;
      usage_nano_cores = 0;
      working_set_bytes = 0;
    }))
