-- ===== src/Upload/Parts/Normalized.antt =====
-- The parts that a completion works with, and the numbers that a presign request names.
use mathlib.Core.List.{Perm}
use zhi_file_service_go.Common.{◌≡◌, ◌≢◌, refl, ◌↔◌, inl, inr, List, [], ◌∷◌, map, All, ℤ, arith}
use zhi_file_service_go.Common.Sorting.{sort}
use zhi_file_service_go.Common.Sorting.Laws.{sort-perm}
use zhi_file_service_go.Common.Sorting.Distinct.{Differs, IsDistinct, IsStrict, sort-IsStrict}
use zhi_file_service_go.Result.{ok, Result-cases}
use zhi_file_service_go.Storage.{UploadedPart}
use zhi_file_service_go.Upload.Parts.{
  trimmed, part_key, check_parts, normalize_uploaded_parts, number_key, check_numbers,
  sorted_numbers, validate_presign_part_numbers,
}
use zhi_file_service_go.Upload.Parts.Checked.{
  AreNumbered, new_facts, new_of_facts, AllFresh-nil, check_parts_sound, check_parts_complete,
  check_numbers_sound, check_numbers_complete, NewNumbers,
}

module _ {ℓ} {A : Type ℓ} (key : A → ℤ) (ps : List A) where
  AreNumbered-of_new : NewNumbers key [] ps → AreNumbered key ps
  AreNumbered-of_new h =
      let (a, f, d) = new_facts key [] ps h in record { positive = a; distinct = d }

  new_of_AreNumbered : AreNumbered key ps → NewNumbers key [] ps
  new_of_AreNumbered n = new_of_facts key [] ps n.positive (AllFresh-nil key ps) n.distinct

All-Differs-trimmed :
    (p : UploadedPart) (ps : List UploadedPart)
    → All (Differs part_key p) ps
    → All (Differs part_key (trimmed p)) (map trimmed ps)
All-Differs-trimmed p [] h = tt
All-Differs-trimmed p (q ∷ ps) h = (h.0, All-Differs-trimmed p ps h.1)

IsDistinct-trimmed :
    (ps : List UploadedPart) → IsDistinct part_key ps → IsDistinct part_key (map trimmed ps)
IsDistinct-trimmed [] d = tt
IsDistinct-trimmed (p ∷ ps) d = (All-Differs-trimmed p ps d.0, IsDistinct-trimmed ps d.1)

normalize_sound :
    (ps : List UploadedPart) {qs : List UploadedPart}
    → normalize_uploaded_parts ps ≡ ok qs
    → AreNumbered part_key ps × (qs ≡ sort part_key (map trimmed ps))
unfolding normalize_uploaded_parts
normalize_sound ps h = elim (Result-cases (check_parts [] ps)) [
  | inl (rs, e) ↦
      let (new, same) = check_parts_sound [] ps e in
      (AreNumbered-of_new part_key ps new, ground (arith, same))
  | inr (x, e) ↦ absurd (ground arith)
]

normalize_complete :
    (ps : List UploadedPart)
    → AreNumbered part_key ps
    → normalize_uploaded_parts ps ≡ ok (sort part_key (map trimmed ps))
unfolding normalize_uploaded_parts
normalize_complete ps n = rw (check_parts_complete [] ps (new_of_AreNumbered part_key ps n))

-- normalizeUploadedParts accepts a list exactly when every part number is at least 1 and no two
-- parts have the same number.
pub normalize_uploaded_parts-accepts_iff :
    (ps : List UploadedPart)
    → ((qs : List UploadedPart) × (normalize_uploaded_parts ps ≡ ok qs)) ↔ AreNumbered part_key ps
normalize_uploaded_parts-accepts_iff ps = (
  λ r. (normalize_sound ps r.1).0,
  λ n. (sort part_key (map trimmed ps), normalize_complete ps n),
)

-- What normalizeUploadedParts returns has strictly ascending part numbers, and is a permutation of
-- the given parts with the spaces around their ETags and checksums trimmed.
pub normalize_uploaded_parts-IsStrict :
    (ps : List UploadedPart) {qs : List UploadedPart}
    → normalize_uploaded_parts ps ≡ ok qs
    → IsStrict part_key qs × Perm qs (map trimmed ps)
normalize_uploaded_parts-IsStrict ps h =
    let (n, same) = normalize_sound ps h in
    rw same (
      sort-IsStrict part_key (map trimmed ps) (IsDistinct-trimmed ps n.distinct),
      sort-perm part_key (map trimmed ps),
    )

sorted_sound :
    (ns : List ℤ) {ms : List ℤ}
    → sorted_numbers ns ≡ ok ms
    → AreNumbered number_key ns × (ms ≡ sort number_key ns)
unfolding sorted_numbers
sorted_sound ns h = elim (Result-cases (check_numbers [] ns)) [
  | inl (rs, e) ↦
      let (new, same) = check_numbers_sound [] ns e in
      (AreNumbered-of_new number_key ns new, ground (arith, same))
  | inr (x, e) ↦ absurd (ground arith)
]

sorted_complete :
    (ns : List ℤ) → AreNumbered number_key ns → sorted_numbers ns ≡ ok (sort number_key ns)
unfolding sorted_numbers
sorted_complete ns n = rw (check_numbers_complete [] ns (new_of_AreNumbered number_key ns n))

-- validatePresignPartNumbers accepts a list exactly when it is not empty, every number is at least 1
-- and no number stands twice.
pub validate_presign_part_numbers-accepts_iff :
    (ns : List ℤ)
    → ((ms : List ℤ) × (validate_presign_part_numbers ns ≡ ok ms))
      ↔ ((ns ≢ []) × AreNumbered number_key ns)
unfolding validate_presign_part_numbers
validate_presign_part_numbers-accepts_iff [] = (λ r. absurd (ground arith), λ h. absurd (h.0 refl))
validate_presign_part_numbers-accepts_iff (n ∷ ns) = (
  λ r. (λ e. ground arith, (sorted_sound (n ∷ ns) r.1).0),
  λ h. (sort number_key (n ∷ ns), sorted_complete (n ∷ ns) h.1),
)

-- What validatePresignPartNumbers returns is strictly ascending, and a permutation of what it was
-- given.
pub validate_presign_part_numbers-IsStrict :
    (ns : List ℤ) {ms : List ℤ}
    → validate_presign_part_numbers ns ≡ ok ms
    → IsStrict number_key ms × Perm ms ns
unfolding validate_presign_part_numbers
validate_presign_part_numbers-IsStrict [] h = absurd (ground arith)
validate_presign_part_numbers-IsStrict (n ∷ ns) h =
    let (numbered, same) = sorted_sound (n ∷ ns) h in
    rw same (sort-IsStrict number_key (n ∷ ns) numbered.distinct, sort-perm number_key (n ∷ ns))
