-- ===== src/Tests/Admission.antt =====
-- What the webhook injects, at concrete pods.
use mathlib.Core.Option
use tensile_kube.Prelude.{◌≡◌, refl, arith, ◌∷◌, [], none, some, List, map, String}
use tensile_kube.Prelude.Dict.{index, insert}
use tensile_kube.Prelude.Run.{Run, done, panic}
use tensile_kube.Api.{Pod}
use tensile_kube.Util.Consts.{ClustersNodeSelection, Json}
use tensile_kube.Webhook.Affinity.{
  label_map, is_ignored, inject_affinity, required_of, taken_affinity,
}
use tensile_kube.Webhook.Affinity.Fields.{Mixed, inject_affinity-panic}
use tensile_kube.Webhook.Affinity.Terms.{
  left_term, taken_term, nonempty, stays, inject_affinity-split,
}
use tensile_kube.Tests.{
  web_pod, web_spec, requirement, mixed_term, selector_of, node_affinity_of, affinity_of, codec,
}

abbrev zone : List String
zone = "zone" ∷ []

inject_affinity-split_example :
    inject_affinity (affinity_of (mixed_term [])) zone
    ≡ done (
      record (affinity_of (mixed_term [])) {
        node_affinity = some (record (node_affinity_of (mixed_term [])) {
          required = required_of (nonempty (map (left_term (stays zone)) (mixed_term [] ∷ [])));
        });
      },
      taken_affinity (nonempty (map (taken_term (stays zone)) (mixed_term [] ∷ []))),
    )
inject_affinity-split_example =
    inject_affinity-split (affinity_of (mixed_term [])) (node_affinity_of (mixed_term []))
      (selector_of (mixed_term [])) zone refl refl (refl, tt)

mixed : Mixed (λ r. is_ignored zone r.key) (mixed_term (requirement "metadata.name" ∷ []))
unfolding is_ignored label_map index insert
mixed = record {
  some_taken = omega arith;
  field = requirement "metadata.name";
  fields = [];
  first = refl;
  field_taken = refl;
}

inject_affinity-panic_example :
    inject_affinity (affinity_of (mixed_term (requirement "metadata.name" ∷ []))) zone ≡ panic
inject_affinity-panic_example =
    inject_affinity-panic (affinity_of (mixed_term (requirement "metadata.name" ∷ [])))
      (node_affinity_of (mixed_term (requirement "metadata.name" ∷ []))) zone [] []
      (mixed_term (requirement "metadata.name" ∷ [])) refl refl mixed

abbrev web_left : Pod
web_left = record web_pod { spec = record web_spec { node_selector = some (("zone", "a") ∷ []) } }

abbrev web_selection : ClustersNodeSelection
web_selection = record {
  node_selector = some (("arch", "arm") ∷ []);
  affinity = none;
  tolerations = none;
}

abbrev json : Json
json = codec [] web_selection
