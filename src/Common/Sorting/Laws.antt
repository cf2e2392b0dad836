-- ===== src/Common/Sorting/Laws.antt =====
-- The sort returns its elements in ascending order of their keys.
use mathlib.Core.Path.{◌≡◌, refl}
use mathlib.Core.Bool.{true, false}
use mathlib.Core.Logic.{inl, inr}
use mathlib.Core.List.{List, [], ◌∷◌, ◌++◌, Perm, perm_middle, append-nil}
use mathlib.Core.List.Perm
use native.Mathlib.Omega.{arith}
use zhi_file_service_go.Common.Tests.{Bool-cases}
use zhi_file_service_go.Common.Lists.{All, is_nil}
use zhi_file_service_go.Common.Int.{ℤ, ltb_ℤ, leb_ℤ, leb_ℤ_trans, ltb_ℤ_le}
use zhi_file_service_go.Common.Sorting.{sink, sink_all, unwind, sort}

unwind-perm {ℓ} : {A : Type ℓ} (before rest : List A) → Perm (unwind before rest) (before ++ rest)
unfolding unwind
unwind-perm [] rest = Perm.refl rest
unwind-perm (y ∷ before) rest = Perm.trans (unwind-perm before (y ∷ rest)) (perm_middle before rest)

module _ {ℓ} {A : Type ℓ} (key : A → ℤ) where
  sink-perm : (x : A) (before : List A) → Perm (sink key x before) (x ∷ before)
  unfolding sink
  sink-perm x [] = Perm.refl (x ∷ [])
  sink-perm x (y ∷ before) = elim (Bool-cases (ltb_ℤ (key x) (key y))) [
    | inl e ↦ rw e (Perm.trans (Perm.cons y (sink-perm x before)) (Perm.swap x y before))
    | inr e ↦ rw e (Perm.refl (x ∷ y ∷ before))
  ]

  sink_all-perm : (before rest : List A) → Perm (sink_all key before rest) (before ++ rest)
  unfolding sink_all
  sink_all-perm before [] = rw append-nil (Perm.refl before)
  sink_all-perm before (x ∷ rest) = Perm.trans (sink_all-perm (sink key x before) rest) (
      Perm.trans (Perm.append_right rest (sink-perm x before))
        (Perm.symm (perm_middle before rest)))

  -- The sort keeps every element, as often as it stands there.
  pub sort-perm : (xs : List A) → Perm (sort key xs) xs
  unfolding sort
  sort-perm xs =
      Perm.trans (unwind-perm (sink_all key [] xs) []) (rw append-nil (sink_all-perm [] xs))

  -- Ascending from the front; the prefix of the loop is descending.
  abbrev pub IsAscending : List A → Type 0
  IsAscending [] = Unit
  IsAscending (x ∷ xs) = All (λ y. leb_ℤ (key x) (key y) ≡ true) xs × IsAscending xs

  abbrev IsDescending : List A → Type 0
  IsDescending [] = Unit
  IsDescending (x ∷ xs) = All (λ y. leb_ℤ (key y) (key x) ≡ true) xs × IsDescending xs

  pub All-sink :
      (P : A → Type 0) (x : A) (before : List A) → P x → All P before → All P (sink key x before)
  unfolding sink
  All-sink P x [] px ps = (px, tt)
  All-sink P x (y ∷ before) px ps = elim (Bool-cases (ltb_ℤ (key x) (key y))) [
    | inl e ↦ rw e (ps.0, All-sink P x before px ps.1)
    | inr e ↦ rw e (px, ps)
  ]

  All-le_trans :
      (a b : A) (xs : List A)
      → leb_ℤ (key b) (key a) ≡ true
      → All (λ y. leb_ℤ (key y) (key b) ≡ true) xs
      → All (λ y. leb_ℤ (key y) (key a) ≡ true) xs
  All-le_trans a b [] h ps = tt
  All-le_trans a b (y ∷ xs) h ps =
      (leb_ℤ_trans (key y) (key b) (key a) ps.0 h, All-le_trans a b xs h ps.1)

  sink-IsDescending :
      (x : A) (before : List A) → IsDescending before → IsDescending (sink key x before)
  unfolding sink
  sink-IsDescending x [] d = (tt, tt)
  sink-IsDescending x (y ∷ before) d = elim (Bool-cases (ltb_ℤ (key x) (key y))) [
    | inl e ↦ rw e (All-sink _ x before (lt_le e) d.0, sink-IsDescending x before d.1)
    | inr e ↦
        let below = ltb_ℤ_le (key x) (key y) e in
        rw e ((below, All-le_trans x y before below d.0), d)
  ]
    where
      lt_le : ltb_ℤ (key x) (key y) ≡ true → leb_ℤ (key x) (key y) ≡ true
      lt_le e = ground arith

  sink_all-IsDescending :
      (before rest : List A) → IsDescending before → IsDescending (sink_all key before rest)
  unfolding sink_all
  sink_all-IsDescending before [] d = d
  sink_all-IsDescending before (x ∷ rest) d =
      sink_all-IsDescending (sink key x before) rest (sink-IsDescending x before d)

  -- Every element of the prefix is at most every element behind it.
  abbrev AllBelow : List A → List A → Type 0
  AllBelow before rest = All (λ x. All (λ y. leb_ℤ (key x) (key y) ≡ true) rest) before

  AllBelow-cons :
      (before : List A) (y : A) (rest : List A)
      → All (λ x. leb_ℤ (key x) (key y) ≡ true) before
      → AllBelow before rest
      → AllBelow before (y ∷ rest)
  AllBelow-cons [] y rest h b = tt
  AllBelow-cons (x ∷ before) y rest h b = ((h.0, b.0), AllBelow-cons before y rest h.1 b.1)

  unwind-IsAscending :
      (before rest : List A)
      → IsDescending before
      → AllBelow before rest
      → IsAscending rest
      → IsAscending (unwind before rest)
  unfolding unwind
  unwind-IsAscending [] rest d b a = a
  unwind-IsAscending (y ∷ before) rest d b a =
      unwind-IsAscending before (y ∷ rest) d.1 (AllBelow-cons before y rest d.0 b.1) (b.0, a)

  AllBelow-nil : (before : List A) → AllBelow before []
  AllBelow-nil [] = tt
  AllBelow-nil (x ∷ before) = (tt, AllBelow-nil before)

  -- The sort returns an ascending list.
  pub sort-IsAscending : (xs : List A) → IsAscending (sort key xs)
  unfolding sort
  sort-IsAscending xs =
      unwind-IsAscending (sink_all key [] xs) [] (sink_all-IsDescending [] xs tt)
        (AllBelow-nil (sink_all key [] xs)) tt

  All-sink_all :
      (P : A → Type 0) (before rest : List A)
      → All P before
      → All P rest
      → All P (sink_all key before rest)
  unfolding sink_all
  All-sink_all P before [] pb pr = pb
  All-sink_all P before (x ∷ rest) pb pr =
      All-sink_all P (sink key x before) rest (All-sink P x before pr.0 pb) pr.1

  All-unwind :
      (P : A → Type 0) (before rest : List A)
      → All P before
      → All P rest
      → All P (unwind before rest)
  unfolding unwind
  All-unwind P [] rest pb pr = pr
  All-unwind P (x ∷ before) rest pb pr = All-unwind P before (x ∷ rest) pb.1 (pb.0, pr)

  pub All-sort : (P : A → Type 0) (xs : List A) → All P xs → All P (sort key xs)
  unfolding sort
  All-sort P xs ps = All-unwind P (sink_all key [] xs) [] (All-sink_all P [] xs tt ps) tt

  unwind-nonempty : (before rest : List A) (x : A) → is_nil (unwind before (x ∷ rest)) ≡ false
  unfolding unwind
  unwind-nonempty [] rest x = refl
  unwind-nonempty (y ∷ before) rest x = unwind-nonempty before (x ∷ rest) y

  unwind_of_nonempty :
      (before rest : List A) → is_nil before ≡ false → is_nil (unwind before rest) ≡ false
  unfolding unwind
  unwind_of_nonempty [] rest h = absurd (ground arith)
  unwind_of_nonempty (y ∷ before) rest h = unwind-nonempty before rest y

  sink-nonempty : (x : A) (before : List A) → is_nil (sink key x before) ≡ false
  unfolding sink
  sink-nonempty x [] = refl
  sink-nonempty x (y ∷ before) = elim (Bool-cases (ltb_ℤ (key x) (key y))) [
    | inl e ↦ rw e refl
    | inr e ↦ rw e refl
  ]

  sink_all-nonempty :
      (before rest : List A) → is_nil before ≡ false → is_nil (sink_all key before rest) ≡ false
  unfolding sink_all
  sink_all-nonempty before [] h = h
  sink_all-nonempty before (x ∷ rest) h =
      sink_all-nonempty (sink key x before) rest (sink-nonempty x before)

  pub sort-nonempty : (x : A) (xs : List A) → is_nil (sort key (x ∷ xs)) ≡ false
  unfolding sort sink_all
  sort-nonempty x xs =
      unwind_of_nonempty (sink_all key (sink key x []) xs) []
        (sink_all-nonempty (sink key x []) xs (sink-nonempty x []))
