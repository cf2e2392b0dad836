-- ===== src/Admin/Pages/Keyed.antt =====
-- A page of rows with different keys has no row twice.
use zhi_file_service_go.Common.{
  ◌≡◌, refl, ap, sym, inl, inr, ◌+◌, ℕ, zero, suc, Bool, Bool-cases, ◌&&◌, Option, List, [], ◌∷◌,
  ◌++◌, All, take, Text, Time,
}
use zhi_file_service_go.Upload.Tables.{keep_where}
use zhi_file_service_go.Job.Maintenance.Batches.{All-take, All-keep_where, All-map}
use zhi_file_service_go.Admin.Pages.{
  CursorValue, PageEnv, drop, is_before, cursor_of, placed, newest_first, after_cursor, page_rows,
}

pub take-drop : {A : Type 0} (n : ℕ) (xs : List A) → xs ≡ take n xs ++ drop n xs
take-drop zero xs = refl
take-drop (suc n) [] = refl
take-drop (suc n) (x ∷ xs) = ap (λ ys. x ∷ ys) (take-drop n xs)

module _ {A : Type 0} (key : A → Text) where
  abbrev pub Apart : A → List A → Type 0
  Apart x ys = All (λ y. ¬ (key x ≡ key y)) ys

  -- No two rows have the same key.
  abbrev pub AreApart : List A → Type 0
  AreApart [] = Unit
  AreApart (x ∷ xs) = Apart x xs × AreApart xs

  keep_where-AreApart : (p : A → Bool) (xs : List A) → AreApart xs → AreApart (keep_where p xs)
  keep_where-AreApart p [] h = tt
  keep_where-AreApart p (x ∷ xs) h =
      let rest = keep_where-AreApart p xs h.1 in
      elim (Bool-cases (p x)) [
        | inl e ↦
            rw e (All-map _ _ (keep_where p xs) (λ y k. k.1) (All-keep_where _ p xs h.0), rest)
        | inr e ↦ rw e rest
      ]

  take-AreApart : (n : ℕ) (xs : List A) → AreApart xs → AreApart (take n xs)
  take-AreApart zero xs h = tt
  take-AreApart (suc n) [] h = tt
  take-AreApart (suc n) (x ∷ xs) h = (All-take _ n xs h.0, take-AreApart n xs h.1)

  -- What stands before a row is apart from it.
  pub before-Apart :
      (xs : List A) (x : A) (rest : List A)
      → AreApart (xs ++ (x ∷ rest))
      → All (λ y. ¬ (key y ≡ key x)) xs
  before-Apart [] x rest h = tt
  before-Apart (y ∷ xs) x rest h = (here xs h.0, before-Apart xs x rest h.1)
    where
      here : (zs : List A) → Apart y (zs ++ (x ∷ rest)) → ¬ (key y ≡ key x)
      here [] k = k.0
      here (z ∷ zs) k = here zs k.1

  module _ (env : PageEnv) (created : A → Time) where
    pub placed-All :
        (P : A → Type 0) (x : A) (ys : List A)
        → P x
        → All P ys
        → All P (placed env created key x ys)
    unfolding placed
    placed-All P x [] p h = (p, tt)
    placed-All P x (y ∷ ys) p h =
        elim (Bool-cases (is_before env (created x) (key x) (cursor_of env created key y))) [
          | inl e ↦ rw e (h.0, placed-All P x ys p h.1)
          | inr e ↦ rw e (p, h)
        ]

    pub newest_first-All :
        (P : A → Type 0) (xs : List A) → All P xs → All P (newest_first env created key xs)
    unfolding newest_first
    newest_first-All P [] h = tt
    newest_first-All P (x ∷ xs) h =
        placed-All P x (newest_first env created key xs) h.0 (newest_first-All P xs h.1)

    placed-AreApart :
        (x : A) (ys : List A) → Apart x ys → AreApart ys → AreApart (placed env created key x ys)
    unfolding placed
    placed-AreApart x [] a h = (tt, tt)
    placed-AreApart x (y ∷ ys) a h =
        let rest = placed-AreApart x ys a.1 h.1 in
        elim (Bool-cases (is_before env (created x) (key x) (cursor_of env created key y))) [
          | inl e ↦ rw e (placed-All _ x ys (λ k. a.0 (sym k)) h.0, rest)
          | inr e ↦ rw e (a, h)
        ]

    newest_first-AreApart : (xs : List A) → AreApart xs → AreApart (newest_first env created key xs)
    unfolding newest_first
    newest_first-AreApart [] h = tt
    newest_first-AreApart (x ∷ xs) h =
        placed-AreApart x (newest_first env created key xs) (newest_first-All _ xs h.0)
          (newest_first-AreApart xs h.1)

    pub page_rows-AreApart :
        (matches : A → Bool) (c : Option CursorValue) (limit : ℕ) (rows : List A)
        → AreApart rows
        → AreApart (page_rows env created key matches c limit rows)
    unfolding page_rows
    page_rows-AreApart matches c limit rows h = take-AreApart (limit + 1) _ (
        newest_first-AreApart _
          (keep_where-AreApart (λ x. matches x && after_cursor env created key c x) rows h))
