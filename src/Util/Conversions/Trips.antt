-- ===== src/Util/Conversions/Trips.antt =====
-- A pod goes down through `TrimPod` and its status comes back up through `RecoverLabels`.
use tensile_kube.Prelude.{
  String, ◌≡◌, refl, ◌∙◌, false, some, List, [], ◌∷◌, ◌==◌, if◌then◌else◌, contains, Bool-cases,
  inl, inr,
}
use tensile_kube.Prelude.Dict.{
  Dict, lookup, insert, insert_all, index, index_nil, index_congr, make_if_nil, lookup-insert,
  lookup-insert_self,
}
use tensile_kube.Prelude.Run.{done}
use tensile_kube.Api.{Pod}
use tensile_kube.Util.Consts.{Json, virtual_pod_label, tripped_labels}
use tensile_kube.Util.Labels.{Trimmed, trim_loop, trim_labels, write_all, recover_labels}
use tensile_kube.Util.Labels.RoundTrip.{recovered, trim_loop_listed, trim_loop_unlisted}
use tensile_kube.Util.Conversions.{trim_pod}

write_all-some :
    (src labels : Dict String) → write_all src (some labels) ≡ done (some (insert_all src labels))
unfolding write_all insert_all
write_all-some [] labels = refl
write_all-some (kv ∷ src) labels = refl

-- The labels of the copy before any is trimmed.
abbrev pub marked_labels : Pod → Dict String
marked_labels pod = insert virtual_pod_label "true" (make_if_nil pod.meta.labels)

-- The two parts in which `TrimPod` splits them.
abbrev pub split_labels : Pod → List String → Trimmed
split_labels pod keys = trim_loop keys ([], marked_labels pod)

-- The codec stores the tripped labels of this pod, and reads them back.
pub record Stores (json : Json) (tripped : Dict String) : Type 0 where
  pub text : String
  pub written : json.marshal_labels tripped ≡ some text
  pub nonempty : (text == "") ≡ false
  pub read : json.unmarshal_labels text ≡ some tripped

module _ (json : Json) (pod : Pod) (keys : List String) where
  recover-trim_pod :
      Stores json (split_labels pod keys).0
      → let p = trim_pod json pod (some keys) in
        recover_labels json p.meta.labels p.meta.annotations
        ≡ done (some (insert_all (split_labels pod keys).0 (split_labels pod keys).1))
  unfolding trim_pod trim_labels recover_labels index_nil
  recover-trim_pod h =
      rw
        (
          h.written,
          lookup-insert_self tripped_labels h.text (make_if_nil pod.meta.annotations),
          h.nonempty,
          h.read,
        )
        (write_all-some _ _)

  -- With a codec that keeps the tripped labels, `RecoverLabels` on the pod that `TrimPod` sends down
  -- gives back every label of the original pod, and the mark `virtual-pod: "true"`, whatever
  -- labels are ignored.
  pub trim_pod-round_trip :
      Stores json (split_labels pod keys).0
      → (labels : Dict String) × (recover_labels json
            (trim_pod json pod (some keys)).meta.labels
            (trim_pod json pod (some keys)).meta.annotations
          ≡ done (some labels))
        × ((j : String)
            → lookup j labels ≡ (
                if virtual_pod_label == j
                then some "true"
                else lookup j (make_if_nil pod.meta.labels)))
  trim_pod-round_trip h = (
    insert_all (split_labels pod keys).0 (split_labels pod keys).1,
    recover-trim_pod h,
    λ j. recovered keys (marked_labels pod) j ∙ lookup-insert j virtual_pod_label "true" _,
  )

  -- The lower cluster sees no ignored label with a value, and every other label as it was.
  pub trim_pod-labels :
      (j : String)
      → index_nil j (trim_pod json pod (some keys)).meta.labels
        ≡ (if contains j keys then "" else index j (marked_labels pod))
  unfolding trim_pod trim_labels index_nil
  trim_pod-labels j = elim (Bool-cases (contains j keys)) [
    | inl listed ↦ rw listed (trim_loop_listed j keys ([], marked_labels pod) listed)
    | inr unlisted ↦
        rw unlisted (index_congr j _ _ (trim_loop_unlisted j keys ([], marked_labels pod) unlisted))
  ]
