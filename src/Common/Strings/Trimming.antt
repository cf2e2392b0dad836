-- ===== src/Common/Strings/Trimming.antt =====
-- A trimmed text has nothing left to trim.
use mathlib.Core.Path.{◌≡◌, refl, ap, ◌∙◌}
use mathlib.Core.Bool.{Bool, ◌&&◌, false}
use mathlib.Core.Logic.{inl, inr}
use mathlib.Core.List.{[], ◌∷◌}
use Prim.Native.Nat.{ℕ}
use native.Mathlib.Omega.{arith}
use zhi_file_service_go.Common.Tests.{Bool-cases}
use zhi_file_service_go.Common.Lists.{All}
use zhi_file_service_go.Common.Strings.{
  Text, is_empty, is_space, strip_left, strip_right, strip, trim, is_blank,
}

module _ (p : ℕ → Bool) where
  -- The text begins with no character that is stripped.
  abbrev pub StartsSolid : Text → Type 0
  StartsSolid [] = Unit
  StartsSolid (c ∷ s) = p c ≡ false

  strip_left-solid : (s : Text) → StartsSolid (strip_left p s)
  unfolding strip_left
  strip_left-solid [] = tt
  strip_left-solid (c ∷ s) = elim (Bool-cases (p c)) [
    | inl e ↦ rw e (strip_left-solid s)
    | inr e ↦ rw e e
  ]

  strip_left_of_solid : (s : Text) → StartsSolid s → strip_left p s ≡ s
  unfolding strip_left
  strip_left_of_solid [] h = refl
  strip_left_of_solid (c ∷ s) h = rw h

  strip_right-solid : (s : Text) → StartsSolid s → StartsSolid (strip_right p s)
  unfolding strip_right
  strip_right-solid [] h = tt
  strip_right-solid (c ∷ s) h = ground arith

  strip_right_idem : (s : Text) → strip_right p (strip_right p s) ≡ strip_right p s
  unfolding strip_right
  strip_right_idem [] = refl
  strip_right_idem (c ∷ s) = ground (arith, strip_right_idem s)

  pub strip_idem : (s : Text) → strip p (strip p s) ≡ strip p s
  unfolding strip
  strip_idem s =
      ap (strip_right p) (strip_left_of_solid _ (strip_right-solid _ (strip_left-solid s)))
      ∙ strip_right_idem (strip_left p s)

  -- A predicate of characters that holds all over a text holds all over what is left of it.
  module _ (P : ℕ → Type 0) where
    All-strip_left : (s : Text) → All P s → All P (strip_left p s)
    unfolding strip_left
    All-strip_left [] h = tt
    All-strip_left (c ∷ s) h = elim (Bool-cases (p c)) [
      | inl e ↦ rw e (All-strip_left s h.1)
      | inr e ↦ rw e h
    ]

    All-strip_right : (s : Text) → All P s → All P (strip_right p s)
    unfolding strip_right
    All-strip_right [] h = tt
    All-strip_right (c ∷ s) h = elim (Bool-cases (is_empty (strip_right p s) && p c)) [
      | inl e ↦ rw e tt
      | inr e ↦ rw e (h.0, All-strip_right s h.1)
    ]

    pub All-strip : (s : Text) → All P s → All P (strip p s)
    unfolding strip
    All-strip s h = All-strip_right (strip_left p s) (All-strip_left s h)

  -- What is left begins with no character that is stripped.
  pub strip-solid : (s : Text) → StartsSolid (strip p s)
  unfolding strip
  strip-solid s = strip_right-solid (strip_left p s) (strip_left-solid s)

-- TrimSpace does nothing to what it returned.
pub trim_idem : (s : Text) → trim (trim s) ≡ trim s
unfolding trim
trim_idem s = strip_idem is_space s

pub is_blank-trim : (s : Text) → is_blank (trim s) ≡ is_blank s
is_blank-trim s = ap is_empty (trim_idem s)

pub All-trim : (P : ℕ → Type 0) (s : Text) → All P s → All P (trim s)
unfolding trim
All-trim P s h = All-strip is_space P s h

-- A text without spaces has nothing to trim.
strip_right_of_none : (p : ℕ → Bool) (s : Text) → All (λ c. p c ≡ false) s → strip_right p s ≡ s
unfolding strip_right
strip_right_of_none p [] h = refl
strip_right_of_none p (c ∷ s) h = ground (arith, h.0, strip_right_of_none p s h.1)

strip_left_of_none : (p : ℕ → Bool) (s : Text) → All (λ c. p c ≡ false) s → strip_left p s ≡ s
unfolding strip_left
strip_left_of_none p [] h = refl
strip_left_of_none p (c ∷ s) h = ground (arith, h.0)

pub trim_of_solid : (s : Text) → All (λ c. is_space c ≡ false) s → trim s ≡ s
unfolding trim strip
trim_of_solid s h =
    ap (strip_right is_space) (strip_left_of_none is_space s h) ∙ strip_right_of_none is_space s h
