-- ===== src/Job/Usage/Sums.antt =====
-- Sums of file sizes, when a file is added and when one is deleted.
use zhi_file_service_go.Common.{
  ◌≡◌, refl, ap, sym, ◌∙◌, inl, inr, ◌+ℤ◌, zero, suc, Bool, true, false, Bool-cases, if◌then◌else◌,
  some, List, [], ◌∷◌, All, any, Text, text_eq, text_eq_iff, ℤ, pos, negsuc, leb_ℤ, Time, arith,
}
use zhi_file_service_go.Upload.Tables.{FileRow, find_row, keep_where}
use zhi_file_service_go.Admin.Repositories.Statements.{
  is_file, delete_file_row, at_least_zero, negated,
}
use zhi_file_service_go.Job.Blobs.Counted.{AreKeyed}
use zhi_file_service_go.Job.Blobs.Released.{deleted_rows, untouched}
use zhi_file_service_go.Job.Usage.{is_active_file, sum_sizes}

pub add_comm : (a b : ℤ) → a +ℤ b ≡ b +ℤ a
add_comm a b = ground arith

-- The size of a file is not negative.
abbrev pub AreSized : List FileRow → Type 0
AreSized files = All (λ f. leb_ℤ (pos 0) f.file_size ≡ true) files

-- What the tenant's active files take up.
abbrev pub stored : Text → List FileRow → ℤ
stored tenant_id files = sum_sizes (keep_where (is_active_file tenant_id) files)

nonneg_add :
    (a b : ℤ) → leb_ℤ (pos 0) a ≡ true → leb_ℤ (pos 0) b ≡ true → leb_ℤ (pos 0) (a +ℤ b) ≡ true
nonneg_add a b h k = ground arith

pub stored_nonneg :
    (tenant_id : Text) (files : List FileRow)
    → AreSized files
    → leb_ℤ (pos 0) (stored tenant_id files) ≡ true
unfolding sum_sizes
stored_nonneg tenant_id [] h = refl
stored_nonneg tenant_id (f ∷ fs) h = elim (Bool-cases (is_active_file tenant_id f)) [
  | inl e ↦ rw e (nonneg_add f.file_size (stored tenant_id fs) h.0 (stored_nonneg tenant_id fs h.1))
  | inr e ↦ rw e (stored_nonneg tenant_id fs h.1)
]

-- a + (b + s) = b + (a + s), of sums of sizes
exchange :
    (a b s : ℤ)
    → leb_ℤ (pos 0) a ≡ true
    → leb_ℤ (pos 0) b ≡ true
    → leb_ℤ (pos 0) s ≡ true
    → a +ℤ (b +ℤ s) ≡ b +ℤ (a +ℤ s)
exchange (pos a) (pos b) (pos s) h k l = ground arith
exchange (negsuc a) b s h k l = absurd (ground arith)
exchange (pos a) (negsuc b) s h k l = absurd (ground arith)
exchange (pos a) (pos b) (negsuc s) h k l = absurd (ground arith)

pub taken_off :
    (a s : ℤ)
    → leb_ℤ (pos 0) a ≡ true
    → leb_ℤ (pos 0) s ≡ true
    → at_least_zero ((a +ℤ s) +ℤ negated a) ≡ s
taken_off (pos zero) (pos s) h k = ground arith
taken_off (pos (suc a)) (pos s) h k = ground arith
taken_off (negsuc a) s h k = absurd (ground arith)
taken_off (pos a) (negsuc s) h k = absurd (ground arith)

pushed :
    (a b s left : ℤ) (tenant : Bool)
    → s ≡ (if tenant then b +ℤ left else left)
    → leb_ℤ (pos 0) a ≡ true
    → leb_ℤ (pos 0) b ≡ true
    → leb_ℤ (pos 0) left ≡ true
    → a +ℤ s ≡ (if tenant then b +ℤ (a +ℤ left) else a +ℤ left)
pushed a b s left true e h k l = ap (λ x. a +ℤ x) e ∙ exchange a b left h k l
pushed a b s left false e h k l = ap (λ x. a +ℤ x) e

pub deleted-AreSized :
    (id : Text) (at : Time) (files : List FileRow)
    → AreSized files
    → AreSized (deleted_rows id at files)
unfolding delete_file_row
deleted-AreSized id at [] h = tt
deleted-AreSized id at (f ∷ fs) h = elim (Bool-cases (is_file id f)) [
  | inl e ↦ rw e (h.0, deleted-AreSized id at fs h.1)
  | inr e ↦ rw e (h.0, deleted-AreSized id at fs h.1)
]

pub find-sized :
    (id : Text) (files : List FileRow) (r : FileRow)
    → AreSized files
    → find_row (is_file id) files ≡ some r
    → leb_ℤ (pos 0) r.file_size ≡ true
find-sized id [] r h e = absurd (ground arith)
find-sized id (f ∷ fs) r h e = ground (arith, Bool-cases (is_file id f), find-sized id fs r)

module _ (id : Text) (at : Time) where
  -- Deleting an active file takes its size off what its tenant stores.
  pub stored-deleted :
      (files : List FileRow) (r : FileRow) (tenant_id : Text)
      → AreKeyed files
      → AreSized files
      → find_row (is_file id) files ≡ some r
      → r.is_active ≡ true
      → stored tenant_id files ≡ (
          if text_eq r.tenant_id tenant_id
          then r.file_size +ℤ stored tenant_id (deleted_rows id at files)
          else stored tenant_id (deleted_rows id at files))
  unfolding sum_sizes delete_file_row
  stored-deleted [] r tenant_id k z h a = absurd (ground arith)
  stored-deleted (f ∷ fs) r tenant_id k z h a = elim (Bool-cases (is_file id f)) [
    | inl e ↦
        let same : f.file_id ≡ id = (text_eq_iff f.file_id id).0 e in
        let rest = untouched id at fs (ap (λ v. any (is_file v) fs) (sym same) ∙ k.0) in
        let here : f ≡ r = ground (arith, e, h) in
        let active : f.is_active ≡ true = ap (λ (x : FileRow). x.is_active) here ∙ a in
        let tenant = ap (λ (x : FileRow). x.tenant_id) here in
        let size = ap (λ (x : FileRow). x.file_size) here in
        rw (e, rest, active, sym tenant, sym size)
          (ground (arith, Bool-cases (text_eq f.tenant_id tenant_id)))
    | inr e ↦
        let later = stored-deleted fs r tenant_id k.1 z.1 (ground (arith, e, h)) a in
        let sized = find-sized id fs r z.1 (ground (arith, e, h)) in
        let left =
          stored_nonneg tenant_id (deleted_rows id at fs) (deleted-AreSized id at fs z.1) in
        elim (Bool-cases (is_active_file tenant_id f)) [
          | inl p ↦
              rw (e, p)
                (pushed f.file_size r.file_size _ _ (text_eq r.tenant_id tenant_id) later z.0 sized
                  left)
          | inr p ↦ rw (e, p) later
        ]
  ]
