-- ===== src/Provider/Pods/Reads.antt =====
-- pkg/provider/pod.go: what the upper cluster reads of the pods of the lower one.
use tensile_kube.Prelude.{
  String, ◌≡◌, ◌∙◌, ap, ◌≢◌, ◌↔◌, ◌⊎◌, refl, some, List, [], ◌∷◌, arith, map, filter_by,
  if◌then◌else◌, ◌==◌,
}
use tensile_kube.Prelude.Dict.{Dict, lookup, make_if_nil}
use tensile_kube.Prelude.Run.{Run, done, panic, Result, ok}
use tensile_kube.Api.{Pod, ApiError}
use tensile_kube.Util.Consts.{is_virtual_pod, virtual_pod_label}
use tensile_kube.Util.Labels.{recover_labels}
use tensile_kube.Util.Conversions.{trim_pod}
use tensile_kube.Util.Conversions.Trips.{Stores, split_labels, trim_pod-round_trip}
use tensile_kube.Provider.Pods.{
  Env, recover_pod, get_pod, recover_virtual, get_pods, ContainerLogOpts, PodLogOptions,
  log_options, get_container_logs,
}

module _ {S : Type 0} (env : Env S) where
  -- `GetPod` on a pod of the lower cluster that still has the labels and annotations with which `CreatePod`
  -- sent it down gives back every label of the original pod and the mark of a virtual pod, whatever
  -- labels are ignored, where the codec keeps the tripped labels. All else of the shown pod, its status
  -- and what the lower cluster added to its metadata included, is as the lower cluster has it.
  pub get_pod-trim_pod :
      (pod stored : Pod) (keys : List String) (s : S) (ns n : String)
      → Stores env.json (split_labels pod keys).0
      → stored.meta.labels ≡ (trim_pod env.json pod (some keys)).meta.labels
      → stored.meta.annotations ≡ (trim_pod env.json pod (some keys)).meta.annotations
      → env.lower.pods.find s ns n ≡ ok stored
      → (labels : Dict String) × (get_pod env s ns n
          ≡ done (ok (record stored { meta = record stored.meta { labels = some labels } })))
        × ((j : String)
            → lookup j labels ≡ (
                if virtual_pod_label == j
                then some "true"
                else lookup j (make_if_nil pod.meta.labels)))
  unfolding get_pod recover_pod
  get_pod-trim_pod pod stored keys s ns n stores same_labels same_annotations seen =
      let (labels, recovered, same) = trim_pod-round_trip env.json pod keys stores in
      let there : recover_labels env.json stored.meta.labels stored.meta.annotations
          ≡ done (some labels) =
        ap (λ l. recover_labels env.json l stored.meta.annotations) same_labels
        ∙ ap (recover_labels env.json (trim_pod env.json pod (some keys)).meta.labels)
            same_annotations
        ∙ recovered in
      (labels, rw (seen, there, get_pod) refl, same)

  recover_pod-name : (p q : Pod) → recover_pod env p ≡ done q → q.meta.name ≡ p.meta.name
  unfolding recover_pod
  recover_pod-name p q h = ground arith

  recover_virtual-names :
      (ps qs : List Pod)
      → recover_virtual env ps ≡ done qs
      → map (λ (q : Pod). q.meta.name) qs
        ≡ map (λ (p : Pod). p.meta.name) (filter_by is_virtual_pod ps)
  unfolding recover_virtual
  recover_virtual-names [] qs h = ground arith
  recover_virtual-names (p ∷ ps) qs h =
      go (recover_pod env p) refl (recover_virtual env ps) refl (recover_virtual-names ps)
    where
      go :
          (q : Run Pod)
          → recover_pod env p ≡ q
          → (rest : Run (List Pod)) → recover_virtual env ps ≡ rest
          → ((qs : List Pod)
              → recover_virtual env ps ≡ done qs
              → map (λ (q : Pod). q.meta.name) qs
                ≡ map (λ (p : Pod). p.meta.name) (filter_by is_virtual_pod ps))
          → map (λ (q : Pod). q.meta.name) qs
            ≡ map (λ (p : Pod). p.meta.name) (filter_by is_virtual_pod (p ∷ ps))
      go (done q) one (done rest) more ih =
          ground (arith, recover_pod-name p q one, ih rest more, ih qs)
      go (done q) one panic more ih = ground (arith, ih qs)
      go panic one rest more ih = ground (arith, ih qs)

  -- `GetPods` shows exactly the listed pods that carry the mark, in the order of the list.
  get_pods-names :
      (listed qs : List Pod)
      → get_pods env (ok listed) ≡ done (ok qs)
      → map (λ (q : Pod). q.meta.name) qs
        ≡ map (λ (p : Pod). p.meta.name) (filter_by is_virtual_pod listed)
  unfolding get_pods
  get_pods-names listed qs h = ground (arith, recover_virtual-names listed qs)

-- `GetContainerLogs` panics exactly where the caller asks for a time or for a number of seconds: both are
-- stored through a pointer that is nil.
get_container_logs-panic :
    {L : Type 0} (stream : PodLogOptions → Result ApiError L) (container : String)
    (opts : ContainerLogOpts)
    → (get_container_logs stream container opts ≡ panic)
      ↔ ((opts.since_time ≢ 0) ⊎ (opts.since_seconds ≢ 0))
unfolding get_container_logs log_options
get_container_logs-panic stream container opts = (λ h. ground arith, λ h. ground arith)
