-- ===== src/Upload/Tables/Find.antt =====
-- What a query for one row finds after an UPDATE of the rows that it looks among.
use zhi_file_service_go.Common.{
  ◌≡◌, refl, Bool, true, Bool-cases, any, ◌&&◌, Option, none, some, inl, inr, List, [], ◌∷◌, arith,
}
use zhi_file_service_go.Upload.Tables.{find_row, update_where}

-- A value that is found.
abbrev pub mapped {ℓ} : {A : Type ℓ} → (A → A) → Option A → Option A
mapped f none = none
mapped f (some a) = some (f a)

module _ {ℓ} {A : Type ℓ} where
  pub find_row-and :
      (p q : A → Bool) (r : A) (rows : List A)
      → find_row (λ x. p x && q x) rows ≡ some r
      → (p r && q r) ≡ true
  find_row-and p q r [] h = absurd (ground arith)
  find_row-and p q r (x ∷ xs) h = ground (arith, Bool-cases (p x && q x), find_row-and p q r xs)

  pub find_row-weaken :
      (p q : A → Bool) (r : A) (rows : List A)
      → find_row (λ x. p x && q x) rows ≡ some r
      → (s : A) × (find_row p rows ≡ some s)
  find_row-weaken p q r [] h = absurd (ground arith)
  find_row-weaken p q r (x ∷ xs) h = elim (Bool-cases (p x)) [
    | inl here ↦ (x, ground arith)
    | inr past ↦
        let later = find_row-weaken p q r xs (ground arith) in (later.0, ground (arith, later.1))
  ]

  pub find_row-update_where :
      (p q : A → Bool) (f : A → A) (rows : List A)
      → ((x : A) → (p (f x) && q (f x)) ≡ true)
      → find_row (λ x. p x && q x) (update_where p f rows) ≡ mapped f (find_row p rows)
  find_row-update_where p q f [] h = refl
  find_row-update_where p q f (x ∷ xs) h =
      ground (arith, Bool-cases (p x), h x, find_row-update_where p q f xs h)

  pub find_row-any :
      (p q : A → Bool) (r : A) (rows : List A)
      → find_row (λ x. p x && q x) rows ≡ some r
      → any p rows ≡ true
  find_row-any p q r [] h = absurd (ground arith)
  find_row-any p q r (x ∷ xs) h = ground (arith, Bool-cases (p x), find_row-any p q r xs)
