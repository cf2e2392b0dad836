-- ===== src/Common/Sorting.antt =====
-- The insertion sort that swaps each new element leftwards past the larger ones, over elements
-- with an integer key; and slices.Sort on the keys alone, which has one possible answer.
pub mod Laws
pub mod Distinct
use mathlib.Core.Path.{◌≡◌, refl, sym}
use mathlib.Core.Bool.{Bool, true, false}
use mathlib.Core.List.{List, [], ◌∷◌, ◌++◌, reverse, Perm, perm_middle, reverse_perm}
use mathlib.Core.List.Perm
use native.Mathlib.Omega.{arith}
use zhi_file_service_go.Common.Tests.{if◌then◌else◌, Bool-cases}
use zhi_file_service_go.Common.Lists.{All}
use zhi_file_service_go.Common.Int.{ℤ, ltb_ℤ, leb_ℤ, eq_ℤ, leb_ℤ_trans, ltb_ℤ_le}

-- The prefix in its own order, in front of `rest`.
unfoldable pub unwind {ℓ} : {A : Type ℓ} → List A → List A → List A
unwind [] rest = rest
unwind (y ∷ before) rest = unwind before (y ∷ rest)

module _ {ℓ} {A : Type ℓ} (key : A → ℤ) where
  -- `before` is the sorted prefix, its last element first: the new element passes the larger ones.
  unfoldable pub sink : A → List A → List A
  sink x [] = x ∷ []
  sink x (y ∷ before) = if ltb_ℤ (key x) (key y) then y ∷ sink x before else x ∷ y ∷ before

  unfoldable pub sink_all : List A → List A → List A
  sink_all before [] = before
  sink_all before (x ∷ rest) = sink_all (sink x before) rest

  unfoldable pub sort : List A → List A
  unfolding sink sink_all unwind
  sort xs = unwind (sink_all [] xs) []
