-- ===== src/Webhook/Selector.antt =====
-- `injectNodeSelector` and `skipInject` of pkg/webhook/hook.go.
use tensile_kube.Prelude.{
  String, ◌≡◌, refl, none, some, List, [], ◌∷◌, arith, eq_iff, if◌then◌else◌,
}
use tensile_kube.Prelude.Dict.{
  Dict, lookup, insert, erase, NodupKeys, lookup-nil, lookup-insert, lookup-erase,
}
use tensile_kube.Webhook.Affinity.{is_ignored}

-- The selector of the pod, from which entries are deleted, and the final one.
abbrev pub Selectors : Type 0
Selectors = Dict String × Dict String

abbrev move_entry : List String → String → String → Selectors → Selectors
move_entry ignore_labels k v (selector, final) =
    if is_ignored ignore_labels k then (selector, final) else (erase k selector, insert k v final)

-- The loop over the entries that the map had at its start.
unfoldable pub selector_loop : List String → Dict String → Selectors → Selectors
selector_loop ignore_labels [] s = s
selector_loop ignore_labels ((k, v) ∷ entries) s =
    selector_loop ignore_labels entries (move_entry ignore_labels k v s)

unfoldable pub inject_node_selector : Dict String → List String → Selectors
unfolding selector_loop
inject_node_selector node_selector ignore_labels =
    selector_loop ignore_labels node_selector (node_selector, [])

lookup-selector_loop :
    (ignore_labels : List String) (entries : Dict String) (s : Selectors) (j : String)
    → NodupKeys entries
    → (lookup j (selector_loop ignore_labels entries s).0 ≡ elim (lookup j entries) [
      | none ↦ lookup j s.0
      | some v ↦ if is_ignored ignore_labels j then lookup j s.0 else none
    ])
      × (lookup j (selector_loop ignore_labels entries s).1 ≡ elim (lookup j entries) [
        | none ↦ lookup j s.1
        | some v ↦ if is_ignored ignore_labels j then lookup j s.1 else some v
      ])
unfolding selector_loop lookup
lookup-selector_loop ignore_labels [] s j u = (refl, refl)
lookup-selector_loop ignore_labels ((k, v) ∷ entries) s j (fresh, u) = ground (
  arith,
  eq_iff k j,
  lookup-selector_loop ignore_labels entries (move_entry ignore_labels k v s) j u,
  lookup-insert j k v s.1,
  lookup-erase j k s.0,
)

-- `injectNodeSelector` splits the node selector: an entry on an ignored label stays in the pod, and any
-- other is in the result and no longer in the pod.
inject_node_selector-split :
    (node_selector : Dict String) (ignore_labels : List String) (j : String)
    → NodupKeys node_selector
    → (lookup j (inject_node_selector node_selector ignore_labels).0
        ≡ (if is_ignored ignore_labels j then lookup j node_selector else none))
      × (lookup j (inject_node_selector node_selector ignore_labels).1
          ≡ (if is_ignored ignore_labels j then none else lookup j node_selector))
unfolding inject_node_selector
inject_node_selector-split node_selector ignore_labels j u = ground (
  arith,
  lookup-selector_loop ignore_labels node_selector (node_selector, []) j u,
  lookup-nil {V = String} j,
)
