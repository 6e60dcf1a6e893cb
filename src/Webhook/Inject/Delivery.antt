-- ===== src/Webhook/Inject/Delivery.antt =====
-- The constraints that the webhook takes off a pod reach the lower cluster through `TrimPod`.
use mathlib.Core.Option
use tensile_kube.Prelude.{String, ◌≡◌, false, Option, none, some, List, [], ◌∷◌, map, ◌==◌}
use tensile_kube.Prelude.Dict.{Dict}
use tensile_kube.Prelude.Run.{Run}
use tensile_kube.Api.{NodeSelectorTerm, NodeSelector, NodeAffinity, Affinity, Pod}
use tensile_kube.Util.Consts.{Json, ClustersNodeSelection}
use tensile_kube.Util.Conversions.{recover_affinity, prune_affinity, trim_pod}

-- What is left of an empty map or slice with `omitempty`, after it was written and read.
abbrev pub nil_map : Option (Dict String) → Option (Dict String)
nil_map none = none
nil_map (some []) = none
nil_map (some (e ∷ m)) = some (e ∷ m)

abbrev pub nil_slice {ℓ} : {A : Type ℓ} → Option (List A) → Option (List A)
nil_slice none = none
nil_slice (some []) = none
nil_slice (some (x ∷ xs)) = some (x ∷ xs)

-- The match expressions of a term are `omitempty`, and the terms of a selector are not.
abbrev pub read_selector : NodeSelector → NodeSelector
read_selector s = record {
  terms =
      Option.map
        (map (λ (t : NodeSelectorTerm). record t {
          match_expressions = nil_slice t.match_expressions;
        }))
        s.terms;
}

abbrev pub read_affinity : Affinity → Affinity
read_affinity a = record a {
  node_affinity =
      Option.map
        (λ (na : NodeAffinity). record na { required = Option.map read_selector na.required })
        a.node_affinity;
}

abbrev pub read_selection : ClustersNodeSelection → ClustersNodeSelection
read_selection cns = record {
  node_selector = nil_map cns.node_selector;
  affinity = Option.map read_affinity cns.affinity;
  tolerations = nil_slice cns.tolerations;
}

-- The codec stores the selection, and reads it back, but for empty maps and slices.
pub record StoresSelection (json : Json) (cns : ClustersNodeSelection) : Type 0 where
  pub text : String
  pub written : json.marshal_selection cns ≡ some text
  pub nonempty : (text == "") ≡ false
  pub read : json.unmarshal_selection text ≡ some (read_selection cns)

-- The constraints of the pod that `TrimPod` makes of one with a stored selection.
abbrev Restored : Json → Pod → Pod → ClustersNodeSelection → Option (List String) → Type 0
Restored json p left cns ignore_labels =
    ((trim_pod json p ignore_labels).spec.node_selector ≡ nil_map cns.node_selector)
    × ((trim_pod json p ignore_labels).spec.tolerations ≡ nil_slice cns.tolerations)
    × ((trim_pod json p ignore_labels).spec.affinity
        ≡ prune_affinity
            (recover_affinity left.spec.affinity (Option.map read_affinity cns.affinity)))
