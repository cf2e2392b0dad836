-- ===== src/Common/Sorting/Distinct.antt =====
-- Elements with distinct keys are sorted strictly.
use mathlib.Core.Path.{◌≡◌}
use mathlib.Core.Bool.{true, false}
use mathlib.Core.Logic.{inl, inr}
use mathlib.Core.List.{List, [], ◌∷◌}
use native.Mathlib.Omega.{arith}
use zhi_file_service_go.Common.Tests.{Bool-cases}
use zhi_file_service_go.Common.Lists.{All}
use zhi_file_service_go.Common.Int.{ℤ, ltb_ℤ, leb_ℤ, eq_ℤ}
use zhi_file_service_go.Common.Sorting.{sink, sink_all, unwind, sort}
use zhi_file_service_go.Common.Sorting.Laws.{IsAscending, All-sink, sort-IsAscending}

module _ {ℓ} {A : Type ℓ} (key : A → ℤ) where
  abbrev pub Differs : A → A → Type 0
  Differs x y = eq_ℤ (key x) (key y) ≡ false

  abbrev pub IsDistinct : List A → Type 0
  IsDistinct [] = Unit
  IsDistinct (x ∷ xs) = All (Differs x) xs × IsDistinct xs

  -- Every element of the one list differs from every element of the other.
  abbrev Apart : List A → List A → Type 0
  Apart xs ys = All (λ x. All (Differs x) ys) xs

  Differs-symm : (x y : A) → Differs x y → Differs y x
  Differs-symm x y h = ground arith

  sink-IsDistinct :
      (x : A) (before : List A)
      → All (Differs x) before
      → IsDistinct before
      → IsDistinct (sink key x before)
  unfolding sink
  sink-IsDistinct x [] h d = (tt, tt)
  sink-IsDistinct x (y ∷ before) h d = elim (Bool-cases (ltb_ℤ (key x) (key y))) [
    | inl e ↦ rw e (
      All-sink key (Differs y) x before (Differs-symm x y h.0) d.0,
      sink-IsDistinct x before h.1 d.1,
    )
    | inr e ↦ rw e (h, d)
  ]

  Apart-left :
      (x : A) (xs ys : List A) → All (Differs x) ys → Apart xs ys → Apart (sink key x xs) ys
  Apart-left x xs ys h a = All-sink key (λ z. All (Differs z) ys) x xs h a

  -- To say it of the prefix's first element and the prefix: symmetric, element by element.
  Apart-head : (xs : List A) (y : A) (ys : List A) → Apart xs (y ∷ ys) → All (Differs y) xs
  Apart-head [] y ys a = tt
  Apart-head (x ∷ xs) y ys a = (Differs-symm x y a.0.0, Apart-head xs y ys a.1)

  Apart-tail : (xs : List A) (y : A) (ys : List A) → Apart xs (y ∷ ys) → Apart xs ys
  Apart-tail [] y ys a = tt
  Apart-tail (x ∷ xs) y ys a = (a.0.1, Apart-tail xs y ys a.1)

  sink_all-IsDistinct :
      (before rest : List A)
      → IsDistinct before
      → IsDistinct rest
      → Apart before rest
      → IsDistinct (sink_all key before rest)
  unfolding sink_all
  sink_all-IsDistinct before [] d e a = d
  sink_all-IsDistinct before (x ∷ rest) d e a =
      sink_all-IsDistinct (sink key x before) rest
        (sink-IsDistinct x before (Apart-head before x rest a) d) e.1
        (Apart-left x before rest e.0 (Apart-tail before x rest a))

  Apart-cons :
      (before : List A) (y : A) (rest : List A)
      → All (Differs y) before
      → Apart before rest
      → Apart before (y ∷ rest)
  Apart-cons [] y rest h a = tt
  Apart-cons (x ∷ before) y rest h a =
      ((Differs-symm y x h.0, a.0), Apart-cons before y rest h.1 a.1)

  unwind-IsDistinct :
      (before rest : List A)
      → IsDistinct before
      → IsDistinct rest
      → Apart before rest
      → IsDistinct (unwind before rest)
  unfolding unwind
  unwind-IsDistinct [] rest d e a = e
  unwind-IsDistinct (y ∷ before) rest d e a =
      unwind-IsDistinct before (y ∷ rest) d.1 (a.0, e) (Apart-cons before y rest d.0 a.1)

  Apart-nil : (xs : List A) → Apart xs []
  Apart-nil [] = tt
  Apart-nil (x ∷ xs) = (tt, Apart-nil xs)

  pub sort-IsDistinct : (xs : List A) → IsDistinct xs → IsDistinct (sort key xs)
  unfolding sort
  sort-IsDistinct xs d =
      unwind-IsDistinct (sink_all key [] xs) [] (sink_all-IsDistinct [] xs tt d tt) tt
        (Apart-nil (sink_all key [] xs))

  abbrev pub IsStrict : List A → Type 0
  IsStrict [] = Unit
  IsStrict (x ∷ xs) = All (λ y. ltb_ℤ (key x) (key y) ≡ true) xs × IsStrict xs

  All-lt :
      (x : A) (xs : List A)
      → All (λ y. leb_ℤ (key x) (key y) ≡ true) xs
      → All (Differs x) xs
      → All (λ y. ltb_ℤ (key x) (key y) ≡ true) xs
  All-lt x [] a d = tt
  All-lt x (y ∷ xs) a d = (ground arith, All-lt x xs a.1 d.1)

  IsStrict-of_IsDistinct : (xs : List A) → IsAscending key xs → IsDistinct xs → IsStrict xs
  IsStrict-of_IsDistinct [] a d = tt
  IsStrict-of_IsDistinct (x ∷ xs) a d = (All-lt x xs a.0 d.0, IsStrict-of_IsDistinct xs a.1 d.1)

  -- Elements with distinct keys are sorted strictly.
  pub sort-IsStrict : (xs : List A) → IsDistinct xs → IsStrict (sort key xs)
  sort-IsStrict xs d =
      IsStrict-of_IsDistinct (sort key xs) (sort-IsAscending key xs) (sort-IsDistinct xs d)
