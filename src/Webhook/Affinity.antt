-- ===== src/Webhook/Affinity.antt =====
-- `injectAffinity` of pkg/webhook/hook.go: takes the constraints that are not on an ignored label out
-- of the required node affinity, by deletions in place, and returns what was taken.
pub mod Partition
pub mod Fields
pub mod Terms
use tensile_kube.Prelude.{
  ℕ, zero, suc, ◌+◌, ◌-◌, String, Bool, true, false, not, ◌&&◌, Option, none, some, List, [], ◌∷◌,
  ◌++◌, ◌==◌, leb, if◌then◌else◌, length, take, drop, filter_by,
}
use tensile_kube.Prelude.Dict.{Dict, insert, index}
use tensile_kube.Prelude.Run.{Run, done, panic, ◌>>=◌}
use tensile_kube.Api.{
  NodeSelectorRequirement, NodeSelectorTerm, NodeSelector, NodeAffinity, Affinity,
}

-- A Go slice: its backing array up to its capacity, and its length. A slice that was copied or decoded
-- has a capacity equal to its length.
pub record Slice {ℓ} (A : Type ℓ) : Type ℓ where
  pub backing : List A
  pub len : ℕ

abbrev pub items {ℓ} : {A : Type ℓ} → Slice A → List A
items s = take s.len s.backing

abbrev pub of_list {ℓ} : {A : Type ℓ} → List A → Slice A
of_list xs = record { backing = xs; len = length xs }

-- An index `i - d`, where a negative one makes the slice expression panic.
abbrev pub index_minus : ℕ → ℕ → Option ℕ
index_minus i d = if leb d i then some (i - d) else none

-- The backing array after the result was written to its front; a result that does not fit moves to a
-- new array.
abbrev store {ℓ} : {A : Type ℓ} → List A → List A → Slice A
store backing xs = record { backing = xs ++ drop (length xs) backing; len = length xs }

-- `append(s[:i], s[j:]...)`. Go allows `i` up to the capacity and `j` up to the length.
unfoldable pub splice {ℓ} : {A : Type ℓ} → Slice A → Option ℕ → ℕ → Run (Slice A)
splice s none j = panic
splice s (some i) j =
    if leb i (length s.backing) && leb j s.len
    then done (store s.backing (take i s.backing ++ drop j (items s)))
    else panic

-- `labelMap`, and the test that a key is in it.
unfoldable pub label_map : List String → Dict String → Dict String
label_map [] m = m
label_map (v ∷ vs) m = label_map vs (insert v v m)

unfoldable pub is_ignored : List String → String → Bool
unfolding label_map
is_ignored ignore_labels key = not (index key (label_map ignore_labels []) == "")

-- The slice that is cut down, what was taken from it, and the number of deletions.
pub record Cut : Type 0 where
  pub left : Slice NodeSelectorRequirement
  pub taken : List NodeSelectorRequirement
  pub count : ℕ

abbrev pub start_cut : List NodeSelectorRequirement → Cut
start_cut xs = record { left = of_list xs; taken = []; count = 0 }

-- One round: `offset` is what the code takes from the index for the front part of the slice.
abbrev cut_at : ℕ → ℕ → NodeSelectorRequirement → Cut → Run Cut
cut_at i offset r c = do
  left ← splice c.left (index_minus i offset) (i + 1 - c.count)
  done (record { left = left; taken = c.taken ++ (r ∷ []); count = c.count + 1 })

module _ (kept : NodeSelectorRequirement → Bool) where
  -- The loop over the expressions.
  unfoldable pub cut_expressions : ℕ → List NodeSelectorRequirement → Cut → Run Cut
  cut_expressions i [] c = done c
  cut_expressions i (r ∷ rs) c = do
    next ← if kept r then done c else cut_at i c.count r c
    cut_expressions (suc i) rs next

  -- The loop over the fields. The code takes the count of the expressions from the index.
  unfoldable pub cut_fields : ℕ → ℕ → List NodeSelectorRequirement → Cut → Run Cut
  cut_fields expressions_count i [] c = done c
  cut_fields expressions_count i (r ∷ rs) c = do
    next ← if kept r then done c else cut_at i expressions_count r c
    cut_fields expressions_count (suc i) rs next

abbrev pub list_of {ℓ} : {A : Type ℓ} → Option (List A) → List A
list_of none = []
list_of (some xs) = xs

-- A slice that was only appended to is nil until something is appended.
abbrev pub nil_if_empty {ℓ} : {A : Type ℓ} → List A → Option (List A)
nil_if_empty [] = none
nil_if_empty (x ∷ xs) = some (x ∷ xs)

-- A nil slice stays nil.
abbrev keep_nil {ℓ} : {A : Type ℓ} → Option (List A) → List A → Option (List A)
keep_nil none xs = none
keep_nil (some _) xs = some xs

unfoldable pub required_of : List NodeSelectorTerm → Option NodeSelector
required_of [] = none
required_of (t ∷ ts) = some (record { terms = some (t ∷ ts) })

unfoldable pub taken_affinity : List NodeSelectorTerm → Option Affinity
taken_affinity [] = none
taken_affinity (t ∷ ts) = some (record {
  node_affinity =
      some (record { required = some (record { terms = some (t ∷ ts) }); preferred = none });
  pod_affinity = none;
  pod_anti_affinity = none;
})

abbrev pub is_nil {ℓ} : {A : Type ℓ} → List A → Bool
is_nil [] = true
is_nil (x ∷ xs) = false

abbrev pub is_empty_term : NodeSelectorTerm → Bool
is_empty_term t = is_nil t.match_fields && is_nil (list_of t.match_expressions)

module _ (kept : NodeSelectorRequirement → Bool) where
  -- What one term becomes, and the term of what was taken from it.
  unfoldable pub inject_term : NodeSelectorTerm → Run (NodeSelectorTerm × NodeSelectorTerm)
  unfolding cut_expressions cut_fields splice
  inject_term term = do
    es ←
        cut_expressions kept 0 (list_of term.match_expressions)
          (start_cut (list_of term.match_expressions))
    fs ← cut_fields kept es.count 0 term.match_fields (start_cut term.match_fields)
    done (
      record {
        match_expressions = keep_nil term.match_expressions (items es.left);
        match_fields = items fs.left;
      },
      record { match_expressions = nil_if_empty es.taken; match_fields = fs.taken },
    )

  -- The terms that are left, and the terms that were taken; empty ones are dropped from both.
  unfoldable pub inject_terms :
      List NodeSelectorTerm → Run (List NodeSelectorTerm × List NodeSelectorTerm)
  unfolding inject_term
  inject_terms [] = done ([], [])
  inject_terms (t ∷ ts) = do
    (left, taken) ← inject_term t
    (lefts, takens) ← inject_terms ts
    done (
      if is_empty_term left then lefts else left ∷ lefts,
      if is_empty_term taken then takens else taken ∷ takens,
    )

  inject_required : Affinity → NodeAffinity → Option NodeSelector → Run (Affinity × Option Affinity)
  unfolding inject_terms required_of taken_affinity
  inject_required affinity na none = done (affinity, none)
  inject_required affinity na (some required) = do
    (lefts, takens) ← inject_terms (list_of required.terms)
    done (
      record affinity { node_affinity = some (record na { required = required_of lefts }) },
      taken_affinity takens,
    )

  inject_node_affinity : Affinity → Option NodeAffinity → Run (Affinity × Option Affinity)
  unfolding inject_required
  inject_node_affinity affinity none = done (affinity, none)
  inject_node_affinity affinity (some na) = inject_required affinity na na.required

-- The affinity of the pod afterwards, and the result of the function.
unfoldable pub inject_affinity : Affinity → List String → Run (Affinity × Option Affinity)
unfolding inject_node_affinity is_ignored
inject_affinity affinity ignore_labels =
    inject_node_affinity (λ r. is_ignored ignore_labels r.key) affinity affinity.node_affinity
