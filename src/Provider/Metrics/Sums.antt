-- ===== src/Provider/Metrics/Sums.antt =====
-- The usage of the node is that of all containers together, modulo 2 ^ 64.
use mathlib.Core.List.{append_assoc, append-nil}
use tensile_kube.Prelude.{
  ℕ, ◌+◌, ◌%◌, ◌<◌, String, ◌≡◌, ◌∙◌, ap, sym, List, [], ◌∷◌, ◌++◌, map, arith,
}
use tensile_kube.Prelude.Run.{ok}
use tensile_kube.Provider.Metrics.{
  ContainerMetrics, PodMetrics, Summary, word, to_uint64, add_uint64, container_stats, sum_cpu,
  sum_memory, convert2_pod_stats, add_metric, add_metrics, get_stats_summary,
}

-- The plain sum of the nano cores of the containers of a pod, and of all pods.
abbrev pub pod_cores : List ContainerMetrics → ℕ
pod_cores [] = 0
pod_cores (c ∷ cs) = to_uint64 c.cpu + pod_cores cs

abbrev pub all_cores : List PodMetrics → ℕ
all_cores [] = 0
all_cores (m ∷ ms) = pod_cores m.containers + all_cores ms

-- The same for the bytes of the working sets.
abbrev pub pod_bytes : List ContainerMetrics → ℕ
pod_bytes [] = 0
pod_bytes (c ∷ cs) = to_uint64 c.memory + pod_bytes cs

abbrev pub all_bytes : List PodMetrics → ℕ
all_bytes [] = 0
all_bytes (m ∷ ms) = pod_bytes m.containers + all_bytes ms

wrapped : (a b c : ℕ) → ((a + b) % word + c) % word ≡ (a + (b + c)) % word
wrapped a b c = omega arith

sum_cpu-cores :
    (timestamp : ℕ) (cs : List ContainerMetrics) (total : ℕ)
    → total < word
    → sum_cpu (map (container_stats timestamp) cs) total ≡ (total + pod_cores cs) % word
unfolding sum_cpu container_stats add_uint64
sum_cpu-cores timestamp [] total small = omega arith
sum_cpu-cores timestamp (c ∷ cs) total small =
    sum_cpu-cores timestamp cs (add_uint64 total (to_uint64 c.cpu)) (omega arith)
    ∙ wrapped total (to_uint64 c.cpu) (pod_cores cs)

sum_memory-bytes :
    (timestamp : ℕ) (cs : List ContainerMetrics) (total : ℕ)
    → total < word
    → sum_memory (map (container_stats timestamp) cs) total ≡ (total + pod_bytes cs) % word
unfolding sum_memory container_stats add_uint64
sum_memory-bytes timestamp [] total small = omega arith
sum_memory-bytes timestamp (c ∷ cs) total small =
    sum_memory-bytes timestamp cs (add_uint64 total (to_uint64 c.memory)) (omega arith)
    ∙ wrapped total (to_uint64 c.memory) (pod_bytes cs)

zero_plus : (n : ℕ) → 0 + n ≡ n
zero_plus n = omega arith

pod_cores-stats :
    (m : PodMetrics) → (convert2_pod_stats m).usage_nano_cores ≡ pod_cores m.containers % word
unfolding convert2_pod_stats
pod_cores-stats m =
    sum_cpu-cores m.timestamp m.containers 0 (omega arith)
    ∙ ap (λ n. n % word) (zero_plus (pod_cores m.containers))

pod_bytes-stats :
    (m : PodMetrics) → (convert2_pod_stats m).working_set_bytes ≡ pod_bytes m.containers % word
unfolding convert2_pod_stats
pod_bytes-stats m =
    sum_memory-bytes m.timestamp m.containers 0 (omega arith)
    ∙ ap (λ n. n % word) (zero_plus (pod_bytes m.containers))

wrapped_pod : (a b c : ℕ) → ((a + b % word) % word + c) % word ≡ (a + (b + c)) % word
wrapped_pod a b c = omega arith

add_metrics-cores :
    (ms : List PodMetrics) (s : Summary)
    → s.usage_nano_cores < word
    → (add_metrics ms s).usage_nano_cores ≡ (s.usage_nano_cores + all_cores ms) % word
unfolding add_metrics add_metric convert2_pod_stats add_uint64
add_metrics-cores [] s small = omega arith
add_metrics-cores (m ∷ ms) s small =
    add_metrics-cores ms (add_metric s m) (omega arith)
    ∙ ap (λ u. ((s.usage_nano_cores + u) % word + all_cores ms) % word) (pod_cores-stats m)
    ∙ wrapped_pod s.usage_nano_cores (pod_cores m.containers) (all_cores ms)

add_metrics-bytes :
    (ms : List PodMetrics) (s : Summary)
    → s.working_set_bytes < word
    → (add_metrics ms s).working_set_bytes ≡ (s.working_set_bytes + all_bytes ms) % word
unfolding add_metrics add_metric convert2_pod_stats add_uint64
add_metrics-bytes [] s small = omega arith
add_metrics-bytes (m ∷ ms) s small =
    add_metrics-bytes ms (add_metric s m) (omega arith)
    ∙ ap (λ u. ((s.working_set_bytes + u) % word + all_bytes ms) % word) (pod_bytes-stats m)
    ∙ wrapped_pod s.working_set_bytes (pod_bytes m.containers) (all_bytes ms)

add_metrics-pods :
    (ms : List PodMetrics) (s : Summary)
    → (add_metrics ms s).pods ≡ s.pods ++ map convert2_pod_stats ms
unfolding add_metrics add_metric
add_metrics-pods [] s = sym (append-nil s.pods)
add_metrics-pods (m ∷ ms) s =
    add_metrics-pods ms (add_metric s m)
    ∙ append_assoc s.pods (convert2_pod_stats m ∷ []) (map convert2_pod_stats ms)

-- The summary has one entry for each listed pod, in the order of the list, and the usage of the node is
-- the plain sum over all containers of all pods modulo 2 ^ 64, of the nano cores and of the bytes of
-- the working sets: the sums of 64 bits for each pod lose nothing more.
pub get_stats_summary-usage :
    (node_name : String) (ms : List PodMetrics) (s : Summary)
    → get_stats_summary node_name (ok ms) ≡ ok s
    → (s.pods ≡ map convert2_pod_stats ms)
      × (s.usage_nano_cores ≡ all_cores ms % word)
      × (s.working_set_bytes ≡ all_bytes ms % word)
unfolding get_stats_summary
get_stats_summary-usage node_name ms s h =
    let empty : Summary = record {
      pods = [];
      node_name = node_name;
      start_time = 0;
      usage_nano_cores = 0;
      working_set_bytes = 0;
    } in
    let same : add_metrics ms empty ≡ s = ground arith in
    (
      ap (λ (t : Summary). t.pods) (sym same) ∙ add_metrics-pods ms empty,
      ap (λ (t : Summary). t.usage_nano_cores) (sym same)
          ∙ add_metrics-cores ms empty (omega arith)
          ∙ ap (λ n. n % word) (zero_plus (all_cores ms)),
      ap (λ (t : Summary). t.working_set_bytes) (sym same)
          ∙ add_metrics-bytes ms empty (omega arith)
          ∙ ap (λ n. n % word) (zero_plus (all_bytes ms)),
    )
