-- ===== src/Tests/Freezing.antt =====
-- The freeze cache and the affinity that avoids its nodes, at concrete nodes.
use tensile_kube.Prelude.{◌≡◌, refl, true, none, some, [], ◌∷◌}
use tensile_kube.Util.Replace.{replace_pod_node_name_node_affinity}
use tensile_kube.Util.Replace.Excludes.{Node, admits, still_admits, admits-replace}
use tensile_kube.Tests.{affinity_of, mixed_term}

-- A node that is to be avoided, and that meets every other expression.
abbrev frozen_node : Node
frozen_node = record { host = "node-1"; meets = λ r. true; meets_field = λ r. true }

admits-replace_example :
    admits frozen_node
      (replace_pod_node_name_node_affinity none "rs-1" 0
        ("node-1" ∷ [])
        (some (affinity_of (mixed_term [])))).0
    ≡ still_admits ("node-1" ∷ []) frozen_node (some (affinity_of (mixed_term [])))
admits-replace_example =
    admits-replace none "rs-1" 0 ("node-1" ∷ []) frozen_node refl
      (some (affinity_of (mixed_term [])))
