-- ===== src/Common/Strings.antt =====
-- Go strings as the sequence of their code points, and what the program calls of Go's `strings`
-- package. Case mapping keeps the letters whose two cases are both outside of ASCII: the
-- texts it is applied to are compared with ASCII constants or checked against an ASCII pattern.
pub mod Trimming
pub mod Casing
use Prim.Native.Char.{code}
use Prim.Native.String.{String}
use Prim.Native.Nat.{ℕ, ◌+◌, ◌-◌}
use mathlib.Core.Path.{◌≡◌, refl}
use mathlib.Core.Logic.{◌↔◌}
use mathlib.Core.Bool.{Bool, true, false, ◌&&◌, ◌||◌}
use mathlib.Core.List.{List, [], ◌∷◌, map}
use native.Mathlib.Omega.{arith}
use zhi_file_service_go.Common.Tests.{leb, ◌==◌, if◌then◌else◌}

abbrev pub Text : Type 0
Text = List ℕ

-- The code points of a literal.
abbrev pub text : String → Text
text String.[] = []
text (String.◌∷◌ c s) = code c ∷ text s

-- s == t
unfoldable pub text_eq : Text → Text → Bool
text_eq [] [] = true
text_eq [] (d ∷ t) = false
text_eq (c ∷ s) [] = false
text_eq (c ∷ s) (d ∷ t) = c == d && text_eq s t

pub text_eq_iff : (s t : Text) → (text_eq s t ≡ true) ↔ (s ≡ t)
unfolding text_eq
text_eq_iff [] [] = ground arith
text_eq_iff [] (d ∷ t) = ground arith
text_eq_iff (c ∷ s) [] = ground arith
text_eq_iff (c ∷ s) (d ∷ t) = ground (arith, text_eq_iff s t)

pub text_eq_refl : (s : Text) → text_eq s s ≡ true
text_eq_refl s = (text_eq_iff s s).1 refl

-- s == ""
abbrev pub is_empty : Text → Bool
is_empty [] = true
is_empty (c ∷ s) = false

-- unicode.IsSpace
unfoldable pub is_space : ℕ → Bool
is_space c =
    leb 0x9 c && leb c 0xd
    || c == 0x20
    || c == 0x85
    || c == 0xa0
    || c == 0x1680
    || leb 0x2000 c && leb c 0x200a
    || c == 0x2028
    || c == 0x2029
    || c == 0x202f
    || c == 0x205f
    || c == 0x3000

strip_left : (ℕ → Bool) → Text → Text
strip_left p [] = []
strip_left p (c ∷ s) = if p c then strip_left p s else c ∷ s

-- A character goes where it passes the test and nothing but such follows.
unfoldable pub strip_right : (ℕ → Bool) → Text → Text
strip_right p [] = []
strip_right p (c ∷ s) = let r = strip_right p s in if is_empty r && p c then [] else c ∷ r

-- Both ends lose the characters that pass the test: strings.Trim(s, cutset).
unfoldable pub strip : (ℕ → Bool) → Text → Text
unfolding strip_left strip_right
strip p s = strip_right p (strip_left p s)

-- strings.TrimSpace
unfoldable pub trim : Text → Text
unfolding strip is_space
trim s = strip is_space s

-- strings.TrimSpace(s) == ""
abbrev pub is_blank : Text → Bool
is_blank s = is_empty (trim s)

-- strings.ToUpper and strings.ToLower, character by character: ASCII, and the four other letters whose
-- other case is ASCII (the long s, the dotless and the dotted i, the Kelvin sign). The others keep
-- their case.
unfoldable pub upper_char : ℕ → ℕ
upper_char c =
    if leb b'a' c && leb c b'z'
    then c - 32
    else if c == 383
    then b'S'
    else if c == 305
    then b'I'
    else c

unfoldable pub lower_char : ℕ → ℕ
lower_char c =
    if leb b'A' c && leb c b'Z'
    then c + 32
    else if c == 8490
    then b'k'
    else if c == 304
    then b'i'
    else c

-- What strings.EqualFold compares of a character, for those that fold to an ASCII one
abbrev pub fold_char : ℕ → ℕ
fold_char c =
    if leb b'A' c && leb c b'Z'
    then c + 32
    else if c == 8490
    then b'k'
    else if c == 383
    then b's'
    else c

unfoldable pub to_upper : Text → Text
unfolding upper_char
to_upper s = map upper_char s

unfoldable pub to_lower : Text → Text
unfolding lower_char
to_lower s = map lower_char s

trims : trim (text " \tSHA256 \n") ≡ text "SHA256"
unfolding trim
trims = refl

uppers : to_upper (text "sha256") ≡ text "SHA256"
unfolding to_upper
uppers = refl
