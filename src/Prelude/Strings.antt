-- ===== src/Prelude/Strings.antt =====
-- Go's `strings.Split` at a separator of one character, `strings.Join`, and `strings.Trim` of one
-- character.
use Prim.Native.Char.{Char, code}
use Prim.Native.String.{String, ◌++◌ as ◌<>◌}
use mathlib.Core.Path.{◌≡◌, refl, subst}
use mathlib.Core.Bool.{Bool, true, false, not, ◌&&◌}
use mathlib.Core.List.{List, [], ◌∷◌}
use text.Mathlib.TextLemmas.{nil-append, cons-append, append-nil}
use native.Mathlib.Omega.{arith}
use tensile_kube.Prelude.Equality.{◌==◌, nat_beq, if◌then◌else◌, Bool-cases}
use mathlib.Core.Logic.{inl, inr}
use tensile_kube.Prelude.Lists.{All}

-- The character goes to the front of the first part.
abbrev pub prepend : Char → List String → List String
prepend c [] = String.◌∷◌ c "" ∷ []
prepend c (x ∷ xs) = String.◌∷◌ c x ∷ xs

module _ (sep : Char) where
  abbrev pub lacks : String → Bool
  lacks String.[] = true
  lacks (String.◌∷◌ c rest) = not (nat_beq (code c) (code sep)) && lacks rest

  unfoldable pub split : String → List String
  split String.[] = "" ∷ []
  split (String.◌∷◌ c rest) =
      let parts = split rest in if nat_beq (code c) (code sep) then "" ∷ parts else prepend c parts

  abbrev pub join : List String → String
  join [] = ""
  join (p ∷ []) = p
  join (p ∷ (q ∷ ps)) = p <> String.◌∷◌ sep (join (q ∷ ps))

  split-append :
      (p s : String) (x : String) (xs : List String)
      → lacks p ≡ true
      → split s ≡ x ∷ xs
      → split (p <> s) ≡ (p <> x) ∷ xs
  unfolding split
  split-append String.[] s x xs h e = rw (nil-append s, nil-append x) e
  split-append (String.◌∷◌ c p) s x xs h e =
      rw (cons-append c p s, cons-append c p x) (ground (arith, split-append p s x xs))

  pub split_lacking : (p : String) → lacks p ≡ true → split p ≡ p ∷ []
  unfolding split
  split_lacking p h = subst (λ q. split q ≡ q ∷ []) (append-nil p) (split-append p "" "" [] h refl)

  pub split_nonempty : (s : String) → (x : String) × (xs : List String) × (split s ≡ x ∷ xs)
  unfolding split
  split_nonempty String.[] = ("", [], refl)
  split_nonempty (String.◌∷◌ c rest) = elim (Bool-cases (nat_beq (code c) (code sep))) [
    | inl same ↦ ("", split rest, rw (same) refl)
    | inr differ ↦ let (x, xs, e) = split_nonempty rest in (String.◌∷◌ c x, xs, rw (differ, e) refl)
  ]

  -- A text of parts that lack the separator is split into these parts; without a part it is one empty part.
  pub split-join :
      (p : String) (ps : List String)
      → All (λ q. lacks q ≡ true) (p ∷ ps)
      → split (join (p ∷ ps)) ≡ p ∷ ps
  unfolding split
  split-join p [] (h, hs) = split_lacking p h
  split-join p (q ∷ ps) (h, hs) =
      subst (λ x. split (p <> String.◌∷◌ sep (join (q ∷ ps))) ≡ x ∷ (q ∷ ps)) (append-nil p)
        (split-append p (String.◌∷◌ sep (join (q ∷ ps))) "" (q ∷ ps) h
          (ground (arith, split-join q ps hs)))

  pub split_several :
      (s : String)
      → lacks s ≡ false
      → (x y : String) × (xs : List String) × (split s ≡ x ∷ (y ∷ xs))
  unfolding split
  split_several String.[] h = ground arith
  split_several (String.◌∷◌ c rest) h = elim (Bool-cases (nat_beq (code c) (code sep))) [
    | inl same ↦ let (x, xs, e) = split_nonempty rest in ("", x, xs, rw (same, e) refl)
    | inr differ ↦
        let (x, y, xs, e) = split_several rest (ground arith) in
        (String.◌∷◌ c x, y, xs, rw (differ, e) refl)
  ]

-- Without the character at both ends.
module _ (c : Char) where
  abbrev trim_left : String → String
  trim_left String.[] = ""
  trim_left (String.◌∷◌ d rest) =
      let trimmed = trim_left rest in
      if nat_beq (code d) (code c) then trimmed else String.◌∷◌ d rest

  abbrev trim_right : String → String
  trim_right String.[] = ""
  trim_right (String.◌∷◌ d rest) =
      let trimmed = trim_right rest in
      if nat_beq (code d) (code c) && (trimmed == "") then "" else String.◌∷◌ d trimmed

  abbrev pub trim : String → String
  trim s = trim_right (trim_left s)
