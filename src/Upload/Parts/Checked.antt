-- ===== src/Upload/Parts/Checked.antt =====
-- What the checks of parts accept, and what they return.
use zhi_file_service_go.Common.{
  ◌≡◌, refl, false, List, [], ◌∷◌, map, All, ℤ, pos, ltb_ℤ, arith, inl, inr,
}
use zhi_file_service_go.Common.Sorting.Distinct.{Differs, IsDistinct}
use zhi_file_service_go.Result.{Result-cases, ok}
use zhi_file_service_go.Storage.{UploadedPart}
use zhi_file_service_go.Upload.Parts.{
  was_seen, trimmed, part_key, check_parts, number_key, check_numbers,
}

-- Every number is at least 1, and none is the number of another part or was seen before.
abbrev pub NewNumbers {ℓ} : {A : Type ℓ} → (A → ℤ) → List ℤ → List A → Type 0
NewNumbers key seen [] = Unit
NewNumbers key seen (p ∷ ps) =
    (ltb_ℤ (key p) (pos 1) ≡ false)
    × (was_seen (key p) seen ≡ false)
    × NewNumbers key (key p ∷ seen) ps

abbrev pub AllPositive {ℓ} : {A : Type ℓ} → (A → ℤ) → List A → Type 0
AllPositive key ps = All (λ p. ltb_ℤ (key p) (pos 1) ≡ false) ps

abbrev pub AllFresh {ℓ} : {A : Type ℓ} → (A → ℤ) → List ℤ → List A → Type 0
AllFresh key seen ps = All (λ p. was_seen (key p) seen ≡ false) ps

module _ {ℓ} {A : Type ℓ} (key : A → ℤ) where
  AllFresh-tail :
      (n : ℤ) (seen : List ℤ) (ps : List A) → AllFresh key (n ∷ seen) ps → AllFresh key seen ps
  AllFresh-tail n seen [] f = tt
  AllFresh-tail n seen (p ∷ ps) f = (ground arith, AllFresh-tail n seen ps f.1)

  AllFresh-head :
      (p : A) (seen : List ℤ) (ps : List A)
      → AllFresh key (key p ∷ seen) ps
      → All (Differs key p) ps
  AllFresh-head p seen [] f = tt
  AllFresh-head p seen (q ∷ ps) f = (ground arith, AllFresh-head p seen ps f.1)

  AllFresh-cons :
      (p : A) (seen : List ℤ) (ps : List A)
      → All (Differs key p) ps
      → AllFresh key seen ps
      → AllFresh key (key p ∷ seen) ps
  AllFresh-cons p seen [] d f = tt
  AllFresh-cons p seen (q ∷ ps) d f = (ground arith, AllFresh-cons p seen ps d.1 f.1)

  pub new_facts :
      (seen : List ℤ) (ps : List A)
      → NewNumbers key seen ps
      → AllPositive key ps × AllFresh key seen ps × IsDistinct key ps
  new_facts seen [] h = (tt, tt, tt)
  new_facts seen (p ∷ ps) h =
      let (positive, fresh, distinct) = new_facts (key p ∷ seen) ps h.2 in
      (
        (h.0, positive),
        (h.1, AllFresh-tail (key p) seen ps fresh),
        (AllFresh-head p seen ps fresh, distinct),
      )

  pub new_of_facts :
      (seen : List ℤ) (ps : List A)
      → AllPositive key ps
      → AllFresh key seen ps
      → IsDistinct key ps
      → NewNumbers key seen ps
  new_of_facts seen [] a f d = tt
  new_of_facts seen (p ∷ ps) a f d =
      (a.0, f.0, new_of_facts (key p ∷ seen) ps a.1 (AllFresh-cons p seen ps d.0 f.1) d.1)

  pub AllFresh-nil : (ps : List A) → AllFresh key [] ps
  AllFresh-nil [] = tt
  AllFresh-nil (p ∷ ps) = (refl, AllFresh-nil ps)

-- What a list of parts must meet: positive numbers, each once.
pub record AreNumbered {ℓ} {A : Type ℓ} (key : A → ℤ) (ps : List A) : Type 0 where
  pub positive : AllPositive key ps
  pub distinct : IsDistinct key ps

pub check_parts_sound :
    (seen : List ℤ) (ps : List UploadedPart) {qs : List UploadedPart}
    → check_parts seen ps ≡ ok qs
    → NewNumbers part_key seen ps × (qs ≡ map trimmed ps)
unfolding check_parts
check_parts_sound seen [] h = ground arith
check_parts_sound seen (p ∷ ps) h = elim (Result-cases (check_parts (p.part_number ∷ seen) ps)) [
  | inl (rs, e) ↦ ground (arith, check_parts_sound (p.part_number ∷ seen) ps e)
  | inr (x, e) ↦ ground arith
]

pub check_parts_complete :
    (seen : List ℤ) (ps : List UploadedPart)
    → NewNumbers part_key seen ps
    → check_parts seen ps ≡ ok (map trimmed ps)
unfolding check_parts
check_parts_complete seen [] h = refl
check_parts_complete seen (p ∷ ps) h =
    ground (arith, check_parts_complete (p.part_number ∷ seen) ps h.2)

pub check_numbers_sound :
    (seen ns : List ℤ) {ms : List ℤ}
    → check_numbers seen ns ≡ ok ms
    → NewNumbers number_key seen ns × (ms ≡ ns)
unfolding check_numbers
check_numbers_sound seen [] h = ground arith
check_numbers_sound seen (n ∷ ns) h = elim (Result-cases (check_numbers (n ∷ seen) ns)) [
  | inl (rs, e) ↦ ground (arith, check_numbers_sound (n ∷ seen) ns e)
  | inr (x, e) ↦ ground arith
]

pub check_numbers_complete :
    (seen ns : List ℤ) → NewNumbers number_key seen ns → check_numbers seen ns ≡ ok ns
unfolding check_numbers
check_numbers_complete seen [] h = refl
check_numbers_complete seen (n ∷ ns) h = ground (arith, check_numbers_complete (n ∷ seen) ns h.2)
