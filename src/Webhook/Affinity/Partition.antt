-- ===== src/Webhook/Affinity/Partition.antt =====
-- The deletions in place amount to a filter: what is left of a slice, and what was taken from it.
use mathlib.Core.List.{append_assoc, append-nil}
use native.Mathlib.Nat.{add-zero}
use tensile_kube.Prelude.{
  ℕ, suc, ◌+◌, ◌-◌, ◌≡◌, refl, subst, ◌∙◌, Bool, true, not, some, List, [], ◌∷◌, ◌++◌, arith, leb,
  length, take, drop, filter_by, take-append_length, drop-append_length, length-append, Bool-cases,
  inl, inr,
}
use tensile_kube.Prelude.Run.{done}
use tensile_kube.Api.{NodeSelectorRequirement}
use tensile_kube.Webhook.Affinity.{
  Slice, items, index_minus, splice, Cut, start_cut, cut_expressions,
}

-- A slice that holds `front`, then the items that the loop has not seen.
abbrev slice_at {ℓ} : {A : Type ℓ} → List A → List A → List A → Slice A
slice_at front rest junk = record {
  backing = (front ++ rest) ++ junk;
  len = length (front ++ rest);
}

module _ {ℓ} {A : Type ℓ} where
  items-slice_at : (front rest junk : List A) → items (slice_at front rest junk) ≡ front ++ rest
  items-slice_at front rest junk = take-append_length (front ++ rest) junk

  splice_one :
      (front rest junk : List A) (r : A)
      → splice (slice_at front (r ∷ rest) junk) (some (length front)) (suc (length front))
        ≡ done (slice_at front rest (drop (length (front ++ rest)) ((front ++ (r ∷ rest)) ++ junk)))
  unfolding splice
  splice_one front rest junk r =
      let inside : leb (length front) (length ((front ++ (r ∷ rest)) ++ junk)) ≡ true =
        ground (arith, length-append (front ++ (r ∷ rest)) junk, length-append front (r ∷ rest)) in
      let after : leb (suc (length front)) (length (front ++ (r ∷ rest))) ≡ true =
        ground (arith, length-append front (r ∷ rest)) in
      let head : take (length front) ((front ++ (r ∷ rest)) ++ junk) ≡ front =
        rw append_assoc (take-append_length front ((r ∷ rest) ++ junk)) in
      let tail : drop (suc (length front)) (items (slice_at front (r ∷ rest) junk)) ≡ rest =
        rw (items-slice_at front (r ∷ rest) junk) (drop-append_length front r rest) in
      rw (inside, after, head, tail)

-- The state of the loop.
abbrev cut_with :
    List NodeSelectorRequirement
    → List NodeSelectorRequirement
    → List NodeSelectorRequirement
    → List NodeSelectorRequirement
    → ℕ
    → Cut
cut_with front rest junk taken count = record {
  left = slice_at front rest junk;
  taken = taken;
  count = count;
}

module _ (kept : NodeSelectorRequirement → Bool) where
  abbrev pub keeps : List NodeSelectorRequirement → List NodeSelectorRequirement
  keeps = filter_by kept

  abbrev pub takes : List NodeSelectorRequirement → List NodeSelectorRequirement
  takes = filter_by (λ r. not (kept r))

  -- The loop from any state.
  cut_expressions_from :
      (rest front junk taken : List NodeSelectorRequirement) (count i : ℕ)
      → i ≡ length front + count
      → (junk' : List NodeSelectorRequirement) × (cut_expressions kept i rest
            (cut_with front rest junk taken count)
          ≡ done (
              cut_with
                (front ++ keeps rest)
                []
                junk'
                (taken ++ takes rest)
                (count + length (takes rest))))
  unfolding cut_expressions
  cut_expressions_from [] front junk taken count i e = (junk, simp (append-nil, add-zero))
  cut_expressions_from (r ∷ rest) front junk taken count i e = elim (Bool-cases (kept r)) [
    | inl keep ↦
        let (junk', ih) =
          cut_expressions_from rest (front ++ (r ∷ [])) junk taken count (suc i)
            (omega (arith, length-append front (r ∷ []))) in
        (junk', rw keep (simp append_assoc (simp append_assoc at ih)))
    | inr cut ↦
        let (junk', ih) =
          cut_expressions_from rest front
            (drop (length (front ++ rest)) ((front ++ (r ∷ rest)) ++ junk)) (taken ++ (r ∷ []))
            (count + 1) (suc i) (omega arith) in
        let at : index_minus i count ≡ some (length front) = ground arith in
        let past : i + 1 - count ≡ suc (length front) = omega arith in
        let total : count + 1 + length (takes rest) ≡ count + suc (length (takes rest)) =
          omega arith in
        (
          junk',
          rw (cut, at, past, splice_one front rest junk r)
              (rw (← total) (rw (← append_assoc taken (r ∷ []) (takes rest)) ih)),
        )
  ]

  -- Deleting by index what is not kept, while the index runs over a copy, leaves exactly the items that
  -- are kept, in their order, takes exactly the others, and never slices out of range.
  pub cut_expressions-filter :
      (xs : List NodeSelectorRequirement)
      → (c : Cut) × (cut_expressions kept 0 xs (start_cut xs) ≡ done c)
        × (items c.left ≡ keeps xs)
        × (c.taken ≡ takes xs)
        × (c.count ≡ length (takes xs))
  cut_expressions-filter xs =
      let (junk, run) = cut_expressions_from xs [] [] [] 0 0 refl in
      (
        cut_with (keeps xs) [] junk (takes xs) (0 + length (takes xs)),
        subst
            (λ (b : List NodeSelectorRequirement).
              cut_expressions kept 0 xs
                (record { left = record { backing = b; len = length xs }; taken = []; count = 0 })
              ≡ done (cut_with (keeps xs) [] junk (takes xs) (0 + length (takes xs))))
            (append-nil xs) run,
        items-slice_at (keeps xs) [] junk ∙ append-nil (keeps xs),
        refl,
        omega arith,
      )
