-- ===== src/Common/Strings/Casing.antt =====
-- Upper and lower case and the trimming of spaces do not disturb each other.
use Prim.Native.Nat.{ℕ}
use mathlib.Core.Path.{◌≡◌, refl, ap, ◌∙◌}
use mathlib.Core.Bool.{Bool}
use mathlib.Core.List.{[], ◌∷◌, map}
use native.Mathlib.Omega.{arith}
use zhi_file_service_go.Common.Strings.{
  Text, is_empty, is_space, strip_left, strip_right, strip, trim, upper_char, lower_char, to_upper,
  to_lower,
}
use zhi_file_service_go.Common.Strings.Trimming.{trim_idem}

module _ (p : ℕ → Bool) (f : ℕ → ℕ) (same : (c : ℕ) → p (f c) ≡ p c) where
  strip_left-map : (s : Text) → strip_left p (map f s) ≡ map f (strip_left p s)
  unfolding strip_left
  strip_left-map [] = refl
  strip_left-map (c ∷ s) = ground (arith, same c, strip_left-map s)

  is_empty-map : (s : Text) → is_empty (map f s) ≡ is_empty s
  is_empty-map [] = refl
  is_empty-map (c ∷ s) = refl

  strip_right-map : (s : Text) → strip_right p (map f s) ≡ map f (strip_right p s)
  unfolding strip_right
  strip_right-map [] = refl
  strip_right-map (c ∷ s) =
      ground (arith, same c, strip_right-map s, is_empty-map (strip_right p s))

  strip-map : (s : Text) → strip p (map f s) ≡ map f (strip p s)
  unfolding strip
  strip-map s = ap (strip_right p) (strip_left-map s) ∙ strip_right-map (strip_left p s)

map_idem : (f : ℕ → ℕ) (s : Text) → ((c : ℕ) → f (f c) ≡ f c) → map f (map f s) ≡ map f s
map_idem f [] h = refl
map_idem f (c ∷ s) h = ground (arith, h c, map_idem f s h)

is_space-upper_char : (c : ℕ) → is_space (upper_char c) ≡ is_space c
unfolding is_space upper_char
is_space-upper_char c = ground arith

is_space-lower_char : (c : ℕ) → is_space (lower_char c) ≡ is_space c
unfolding is_space lower_char
is_space-lower_char c = ground arith

upper_char_idem : (c : ℕ) → upper_char (upper_char c) ≡ upper_char c
unfolding upper_char
upper_char_idem c = ground arith

lower_char_idem : (c : ℕ) → lower_char (lower_char c) ≡ lower_char c
unfolding lower_char
lower_char_idem c = ground arith

pub upper_trim_idem : (s : Text) → to_upper (trim (to_upper (trim s))) ≡ to_upper (trim s)
unfolding to_upper trim
upper_trim_idem s =
    ap (map upper_char) (strip-map is_space upper_char is_space-upper_char (trim s))
    ∙ map_idem upper_char (trim (trim s)) upper_char_idem
    ∙ ap (map upper_char) (trim_idem s)

pub lower_trim_idem : (s : Text) → to_lower (trim (to_lower (trim s))) ≡ to_lower (trim s)
unfolding to_lower trim
lower_trim_idem s =
    ap (map lower_char) (strip-map is_space lower_char is_space-lower_char (trim s))
    ∙ map_idem lower_char (trim (trim s)) lower_char_idem
    ∙ ap (map lower_char) (trim_idem s)
