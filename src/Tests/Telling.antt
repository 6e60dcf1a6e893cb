-- ===== src/Tests/Telling.antt =====
-- What the upper cluster is told, at a pod that starts to run.
use tensile_kube.Prelude.{◌≡◌, true, false, Option, none, some, List, [], ◌∷◌, map}
use tensile_kube.Prelude.Dict.{Dict}
use tensile_kube.Prelude.Int.{ℤ, pos}
use tensile_kube.Prelude.Run.{done}
use tensile_kube.Api.{Pod, PodStatus, empty_status}
use tensile_kube.Util.Consts.{Json}
use tensile_kube.Util.Conversions.{trim_pod, trim_object_meta}
use tensile_kube.Provider.PodEvents.{PodLibrary}
use tensile_kube.Provider.Notify.{received, notify_pods}
use tensile_kube.Provider.Notify.Upwards.{
  PodEvent, added, updated, deleted, reports, notify_pods-reports,
}
use tensile_kube.Tests.{web_pod, codec, no_selection}
use tensile_kube.Tests.Resources.{integers}

abbrev json : Json
json = codec (("tier", "front") ∷ []) no_selection

abbrev lib : PodLibrary ℤ
lib = record {
  equal = λ a b. false;
  one = pos 1;
  requests = λ p. [];
  same_containers = λ a b. true;
  same_status = λ a b. false;
}

abbrev running : PodStatus
running = record empty_status { phase = "Running" }

abbrev sent_pod : Pod
sent_pod =
    let sent = trim_pod json web_pod (some ("tier" ∷ [])) in
    record sent {
      meta = record sent.meta { uid = "u-9"; resource_version = "12" };
      status = running;
    }

abbrev told_pod : Pod
told_pod = record sent_pod { meta = trim_object_meta sent_pod.meta }

abbrev events : List (Option (Dict ℤ) × PodEvent)
events = (none, added web_pod) ∷ ((none, updated web_pod sent_pod) ∷ ((none, deleted web_pod) ∷ []))

notify_pods-reports_example :
    (told : List Pod) × (notify_pods json (map received (reports integers lib events)) ≡ done told)
    × (map (λ (q : Pod). q.meta.name) told
        ≡ map (λ (p : Pod). p.meta.name) (reports integers lib events))
notify_pods-reports_example = notify_pods-reports integers lib json events
