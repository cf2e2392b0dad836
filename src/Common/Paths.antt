-- ===== src/Common/Paths.antt =====
-- Join of Go's package path, on slash-separated texts.
use zhi_file_service_go.Common.Strings.{Text, text, is_empty, text_eq}
use zhi_file_service_go.Common.Tests.{if◌then◌else◌, ◌==◌}
use mathlib.Core.Path.{◌≡◌, refl}
use mathlib.Core.Bool.{Bool, true, false}
use mathlib.Core.List.{List, [], ◌∷◌, ◌++◌}
use Prim.Native.Nat.{ℕ}

-- The elements of a path between its slashes, the first one so far before the rest.
abbrev begun : ℕ → List Text → List Text
begun c [] = (c ∷ []) ∷ []
begun c (e ∷ es) = (c ∷ e) ∷ es

elements : Text → List Text
elements [] = [] ∷ []
elements (c ∷ s) = let rest = elements s in if c == b'/' then [] ∷ rest else begun c rest

-- Where ".." leads: the elements kept so far are in reverse.
up : Bool → List Text → List Text
up true [] = []
up false [] = text ".." ∷ []
up rooted (e ∷ es) = if text_eq e (text "..") then text ".." ∷ e ∷ es else es

cleaned : Bool → List Text → List Text → List Text
unfolding up
cleaned rooted kept [] = kept
cleaned rooted kept (e ∷ es) =
    cleaned rooted
      (if is_empty e
        then kept
        else if text_eq e (text ".")
        then kept
        else if text_eq e (text "..")
        then up rooted kept
        else e ∷ kept)
      es

-- The elements, which are in reverse, with slashes between them and `tail` at the end.
joined : List Text → Text → Text
joined [] tail = tail
joined (e ∷ []) tail = e ++ tail
joined (e ∷ es) tail = joined es (b'/' ∷ e ++ tail)

abbrev is_rooted : Text → Bool
is_rooted [] = false
is_rooted (c ∷ s) = c == b'/'

abbrev or_dot : Text → Text
or_dot [] = text "."
or_dot (c ∷ s) = c ∷ s

-- path.Clean
unfoldable pub clean : Text → Text
unfolding elements cleaned joined
clean s =
    let kept = cleaned (is_rooted s) [] (elements s) in
    if is_rooted s then b'/' ∷ joined kept [] else or_dot (joined kept [])

with_slashes : List Text → Text
with_slashes [] = []
with_slashes (e ∷ []) = e
with_slashes (e ∷ es) = e ++ (b'/' ∷ with_slashes es)

abbrev given_elements : List Text → List Text
given_elements [] = []
given_elements (e ∷ es) = if is_empty e then given_elements es else e ∷ given_elements es

abbrev clean_of : List Text → Text
clean_of [] = []
clean_of (e ∷ es) = clean (with_slashes (e ∷ es))

-- path.Join
unfoldable pub path_join : List Text → Text
unfolding clean with_slashes
path_join es = clean_of (given_elements es)

joins :
    path_join (text "t" ∷ [] ∷ text "uploads" ∷ text "s" ∷ text "a.txt" ∷ [])
    ≡ text "t/uploads/s/a.txt"
unfolding path_join elements cleaned joined text_eq
joins = refl

climbs : path_join (text "../a/./b/.." ∷ text "c" ∷ []) ≡ text "../a/c"
unfolding path_join elements cleaned joined up text_eq
climbs = refl
