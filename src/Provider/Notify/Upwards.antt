-- ===== src/Provider/Notify/Upwards.antt =====
-- pkg/provider/pod.go: what the upper cluster is told of the pods that the virtual kubelet sent down.
use tensile_kube.Prelude.{
  String, ◌≡◌, refl, true, Option, none, some, List, [], ◌∷◌, map, arith, ◌==◌, Option-cases,
  Bool-cases, All, inl, inr,
}
use tensile_kube.Prelude.Dict.{Dict, index_nil, insert_all}
use tensile_kube.Prelude.Run.{done}
use tensile_kube.Api.{Pod}
use tensile_kube.Util.Consts.{Json, is_virtual_pod, virtual_pod_label, tripped_labels}
use tensile_kube.Util.Conversions.{trim_object_meta}
use tensile_kube.Util.Labels.{recover_labels, write_all}
use tensile_kube.Common.Resource.{Quantity}
use tensile_kube.Provider.PodEvents.{
  PodLibrary, update_pod, take_room, give_room, add_pod, delete_pod,
}
use tensile_kube.Provider.Notify.{received, with_labels, notify_pods}

abbrev trimmed_pod : Pod → Pod
trimmed_pod pod = record pod { meta = trim_object_meta pod.meta }

-- The events of the pods of the lower cluster.
pub data PodEvent : Type 0 where
  added : Pod → PodEvent
  updated : Pod → Pod → PodEvent
  deleted : Pod → PodEvent

module _ {Q : Type 0} (qs : Quantity Q) (lib : PodLibrary Q) where
  -- What the handler of the event puts into the channel of pods.
  abbrev pub reported : Option (Dict Q) → PodEvent → Option Pod
  reported vk (added pod) = (add_pod qs lib true pod vk).pod
  reported vk (updated old new) = (update_pod qs lib true old new vk).pod
  reported vk (deleted pod) = (delete_pod qs lib true pod vk).pod

  reported-virtual :
      (vk : Option (Dict Q)) (event : PodEvent) (p : Pod)
      → reported vk event ≡ some p
      → is_virtual_pod p ≡ true
  unfolding add_pod update_pod delete_pod take_room give_room trim_object_meta is_virtual_pod
  reported-virtual none (added pod) p h = ground arith
  reported-virtual (some c) (added pod) p h = ground arith
  reported-virtual none (updated old new) p h = ground arith
  reported-virtual (some c) (updated old new) p h = ground arith
  reported-virtual none (deleted pod) p h = ground arith
  reported-virtual (some c) (deleted pod) p h = ground arith

  -- The report of an event, before those of the later ones.
  abbrev put : Option Pod → List Pod → List Pod
  put none ps = ps
  put (some p) ps = p ∷ ps

  -- What the handlers report for events, each with the capacity that it meets.
  abbrev pub reports : List (Option (Dict Q) × PodEvent) → List Pod
  reports [] = []
  reports ((vk, event) ∷ events) = put (reported vk event) (reports events)

  put-virtual :
      (r : Option Pod) (ps : List Pod)
      → ((p : Pod) → r ≡ some p → is_virtual_pod p ≡ true)
      → All (λ p. is_virtual_pod p ≡ true) ps
      → All (λ p. is_virtual_pod p ≡ true) (put r ps)
  put-virtual none ps h hs = hs
  put-virtual (some p) ps h hs = (h p refl, hs)

  reports-virtual :
      (events : List (Option (Dict Q) × PodEvent))
      → All (λ p. is_virtual_pod p ≡ true) (reports events)
  reports-virtual [] = tt
  reports-virtual ((vk, event) ∷ events) =
      put-virtual (reported vk event) (reports events) (reported-virtual vk event)
        (reports-virtual events)

  module _ (json : Json) where
    write_all-some :
        (src m : Dict String)
        → (labels : Option (Dict String)) × (write_all src (some m) ≡ done labels)
    unfolding write_all
    write_all-some [] m = (some m, refl)
    write_all-some (kv ∷ src) m = (some (insert_all (kv ∷ src) m), refl)

    recover_labels-some :
        (m : Dict String) (annotations : Option (Dict String))
        → (labels : Option (Dict String)) × (recover_labels json (some m) annotations ≡ done labels)
    unfolding recover_labels
    recover_labels-some m annotations =
        let text = index_nil tripped_labels annotations in
        elim (Bool-cases (text == "")) [
          | inl empty ↦ (some m, rw (empty) refl)
          | inr full ↦ elim (Option-cases (json.unmarshal_labels text)) [
            | inl broken ↦ (some m, rw (full, broken) refl)
            | inr (src, read) ↦
                let (labels, written) = write_all-some src m in (labels, rw (full, read) written)
          ]
        ]

    marked_map :
        (labels : Option (Dict String))
        → (index_nil virtual_pod_label labels == "true") ≡ true
        → (m : Dict String) × (labels ≡ some m)
    unfolding index_nil
    marked_map none h = ([], ground arith)
    marked_map (some m) h = (m, refl)

    with_labels-virtual :
        (p : Pod)
        → is_virtual_pod p ≡ true
        → (q : Pod) × (with_labels json p ≡ done q) × (q.meta.name ≡ p.meta.name)
    unfolding with_labels is_virtual_pod index_nil
    with_labels-virtual p h =
        let (m, there) = marked_map p.meta.labels h in
        let (labels, e) = recover_labels-some m p.meta.annotations in
        (record p { meta = record p.meta { labels = labels } }, rw (there, e) refl, refl)

    notify_pods-virtual :
        (ps : List Pod)
        → All (λ p. is_virtual_pod p ≡ true) ps
        → (told : List Pod) × (notify_pods json (map received ps) ≡ done told)
          × (map (λ (q : Pod). q.meta.name) told ≡ map (λ (p : Pod). p.meta.name) ps)
    unfolding notify_pods
    notify_pods-virtual [] h = ([], refl, refl)
    notify_pods-virtual (p ∷ ps) (h, hs) =
        let (told, all, names) = notify_pods-virtual ps hs in
        let (q, one, name) = with_labels-virtual p h in (q ∷ told, rw (one, all) refl, ground arith)

    -- `NotifyPods` does not panic on what the handlers of pod events report, whatever the events, the
    -- capacity at each, and the codec are: it calls back once for each reported pod, in their order.
    pub notify_pods-reports :
        (events : List (Option (Dict Q) × PodEvent))
        → (told : List Pod) × (notify_pods json (map received (reports events)) ≡ done told)
          × (map (λ (q : Pod). q.meta.name) told ≡ map (λ (p : Pod). p.meta.name) (reports events))
    notify_pods-reports events = notify_pods-virtual (reports events) (reports-virtual events)
