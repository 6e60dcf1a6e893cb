-- ===== src/Provider/Setup/Ignored.antt =====
-- pkg/provider: what the flag `ignore-labels` does, and what the upper cluster sees of the virtual node.
use tensile_kube.Prelude.{
  String, ◌≡◌, ◌↔◌, refl, sym, subst, ◌∙◌, Bool, true, Option, none, some, List, ◌∷◌, arith,
  if◌then◌else◌, contains, All,
}
use tensile_kube.Prelude.Dict.{Dict, index, index_nil}
use tensile_kube.Prelude.Run.{done, panic, Result, ok}
use tensile_kube.Prelude.Strings.{lacks, join, split, split-join}
use tensile_kube.Api.{Pod, ApiError}
use tensile_kube.Util.Consts.{Json}
use tensile_kube.Util.Conversions.{trim_pod}
use tensile_kube.Util.Conversions.Trips.{marked_labels, trim_pod-labels}
use tensile_kube.Provider.Nodes.{check_node_status_ready}
use tensile_kube.Provider.Setup.{
  VirtualK8s, InitConfig, new_virtual_k8s, VirtualNode, describe_node,
}

new_virtual_k8s-ignore_labels :
    (cfg : InitConfig) (path flag : String) (accounts : Bool)
    (client master metrics : Result ApiError (Unit {0})) (version : Result ApiError String)
    (v : VirtualK8s)
    → new_virtual_k8s cfg path flag accounts client master metrics version ≡ done (ok v)
    → v.ignore_labels ≡ split "," flag
unfolding new_virtual_k8s
new_virtual_k8s-ignore_labels cfg path flag accounts (ok c) (ok m) (ok s) (ok text) v h =
    ground arith
new_virtual_k8s-ignore_labels cfg path flag accounts client master metrics version v h =
    ground arith

-- A provider that is started with a list of names, separated by commas, in `ignore-labels` sends a pod down
-- without a value at each label of the list, and with every other label of the pod and the mark of a
-- virtual pod.
pub new_virtual_k8s-trim_pod :
    (cfg : InitConfig) (path name : String) (names : List String) (accounts : Bool)
    (client master metrics : Result ApiError (Unit {0})) (version : Result ApiError String)
    (v : VirtualK8s)
    → All (λ n. lacks "," n ≡ true) (name ∷ names)
    → new_virtual_k8s cfg path (join "," (name ∷ names)) accounts client master metrics version
      ≡ done (ok v)
    → (json : Json) (pod : Pod) (j : String)
    → index_nil j (trim_pod json pod (some v.ignore_labels)).meta.labels
      ≡ (if contains j (name ∷ names) then "" else index j (marked_labels pod))
new_virtual_k8s-trim_pod cfg path name names accounts client master metrics version v plain h json
      pod j =
    let keys =
      new_virtual_k8s-ignore_labels cfg path (join "," (name ∷ names)) accounts client master
        metrics version v h
      ∙ split-join "," name names plain in
    subst
      (λ ks.
        index_nil j (trim_pod json pod (some ks)).meta.labels
        ≡ (if contains j (name ∷ names) then "" else index j (marked_labels pod)))
      (sym keys) (trim_pod-labels json pod (name ∷ names) j)

-- `ConfigureNode` panics exactly where the nodes of the lower cluster are listed and the virtual node has no
-- labels; where it configures the node, the node is ready by the provider's own test, and has the
-- capacity that was computed.
describe_node-ready :
    {Q : Type 0} (v : VirtualK8s) (ip : String) (capacity : Option (Dict Q)) (node : VirtualNode Q)
    → ((describe_node v ip capacity node ≡ panic)
        ↔ ((node.labels ≡ none) × ((c : Dict Q) × (capacity ≡ some c))))
      × ((after : VirtualNode Q)
          → describe_node v ip capacity node ≡ done (after, true)
          → (check_node_status_ready after.conditions ≡ true) × (after.capacity ≡ capacity))
unfolding describe_node check_node_status_ready
describe_node-ready {Q = Q} v ip none node =
    ((λ h. ground arith, λ h. ground arith), λ after h. ground arith)
describe_node-ready {Q = Q} v ip (some capacity) node = go node.labels refl
  where
    go :
        (labels : Option (Dict String))
        → node.labels ≡ labels
        → ((describe_node v ip (some capacity) node ≡ panic)
            ↔ ((node.labels ≡ none) × ((c : Dict Q) × (some capacity ≡ some c))))
          × ((after : VirtualNode Q)
              → describe_node v ip (some capacity) node ≡ done (after, true)
              → (check_node_status_ready after.conditions ≡ true)
                × (after.capacity ≡ some capacity))
    go none e =
        ((λ h. (e, (capacity, refl)), λ p. rw (e, describe_node) refl), λ after h. ground arith)
    go (some labels) e =
        ((λ h. ground arith, λ p. ground arith), λ after h. (ground arith, ground arith))
