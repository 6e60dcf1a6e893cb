-- ===== src/Util/Labels.antt =====
-- `trimLabels` and `RecoverLabels` of pkg/util/conversions.go. `delete` and the writes to the map
-- that the caller handed over are the second component of the result.
pub mod RoundTrip
use tensile_kube.Prelude.{String, Option, none, some, List, [], ◌∷◌, ◌==◌, if◌then◌else◌}
use tensile_kube.Prelude.Dict.{Dict, insert, erase, insert_all, index, index_nil}
use tensile_kube.Prelude.Run.{Run, done, panic}
use tensile_kube.Util.Consts.{Json, tripped_labels}

-- The tripped labels, and what is left of the labels.
abbrev pub Trimmed : Type 0
Trimmed = Dict String × Dict String

-- One round of the loop.
unfoldable pub trim_label : String → Trimmed → Trimmed
trim_label key (tripped, labels) =
    if index key labels == ""
    then (tripped, labels)
    else (insert key (index key labels) tripped, erase key labels)

unfoldable pub trim_loop : List String → Trimmed → Trimmed
trim_loop [] s = s
trim_loop (key ∷ keys) s = trim_loop keys (trim_label key s)

unfoldable pub trim_labels : Dict String → Option (List String) → Option (Dict String) × Dict String
trim_labels labels none = (none, labels)
trim_labels labels (some ignore_labels) =
    let (tripped, rest) = trim_loop ignore_labels ([], labels) in (some tripped, rest)

-- A write to a nil map panics; a range over an empty map writes nothing.
unfoldable pub write_all : Dict String → Option (Dict String) → Run (Option (Dict String))
write_all [] labels = done labels
write_all (kv ∷ src) none = panic
write_all (kv ∷ src) (some labels) = done (some (insert_all (kv ∷ src) labels))

module _ (json : Json) where
  unfoldable pub recover_labels :
      Option (Dict String) → Option (Dict String) → Run (Option (Dict String))
  unfolding write_all
  recover_labels labels annotations =
      let text = index_nil tripped_labels annotations in
      if text == ""
      then done labels
      else elim (json.unmarshal_labels text) [ none ↦ done labels | some m ↦ write_all m labels ]
