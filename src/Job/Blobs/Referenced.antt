-- ===== src/Job/Blobs/Referenced.antt =====
-- The writes of the three services to blobs and files keep the reference counts right.
use zhi_file_service_go.Common.{
  ◌≡◌, refl, ap, sym, ◌∙◌, ◌⊎◌, inl, inr, ◌+ℤ◌, suc, true, false, Bool-cases, none, List, [], ◌∷◌,
  All, any, Text, text_eq, text_eq_iff, pos, negsuc, Time, arith,
}
use zhi_file_service_go.Upload.Tables.{BlobRow, FileRow, update_where, upsert_where}
use zhi_file_service_go.Upload.Statements.{is_blob, written_over}
use zhi_file_service_go.Admin.Repositories.Statements.{at_least_zero}
use zhi_file_service_go.Job.Maintenance.Batches.{All-update_where}
use zhi_file_service_go.Job.Blobs.Counted.{active_count, IsCounted}

pub same_text : (a b : Text) → text_eq a b ≡ text_eq b a
same_text a b = elim (Bool-cases (text_eq a b)) [
  | inl e ↦ let k = (text_eq_iff b a).1 (sym ((text_eq_iff a b).0 e)) in e ∙ sym k
  | inr e ↦ elim (Bool-cases (text_eq b a)) [
    | inl k ↦
        let back = (text_eq_iff a b).1 (sym ((text_eq_iff b a).0 k)) in
        absurd (ground (arith, e, back))
    | inr k ↦ e ∙ sym k
  ]
]

-- What a write does to one blob: the row, and the count of its active files.
module _ (id : Text) (at : Time) (files more : List FileRow) where
  abbrev pub one_more : BlobRow → BlobRow
  one_more b = record b { reference_count = b.reference_count +ℤ pos 1; updated_at = at }

  pub taken_up :
      (b : BlobRow)
      → active_count b.blob_object_id more ≡ suc (active_count b.blob_object_id files)
      → b.deleted_at ≡ none
      → IsCounted files b
      → IsCounted more (one_more b)
  taken_up b e d h =
      let exact = h.exact in record { exact = ground (arith, e, exact); in_use = inr d }

  pub left_alone :
      (b : BlobRow)
      → active_count b.blob_object_id more ≡ active_count b.blob_object_id files
      → IsCounted files b
      → IsCounted more b
  left_alone b e h = record { exact = h.exact ∙ ap (λ n. pos n) (sym e); in_use = h.in_use }

  abbrev pub one_less : BlobRow → BlobRow
  one_less b = record b {
    reference_count = at_least_zero (b.reference_count +ℤ negsuc 0);
    updated_at = at;
  }

  pub given_back :
      (b : BlobRow)
      → active_count b.blob_object_id files ≡ suc (active_count b.blob_object_id more)
      → IsCounted files b
      → IsCounted more (one_less b)
  given_back b e h =
      let exact = h.exact in
      record {
        exact = ground (arith, e, exact);
        in_use = elim h.in_use [ inl z ↦ absurd (ground (arith, e, exact, z)) | inr d ↦ inr d ];
      }

-- The blob is not deleted.
abbrev pub IsKept : Text → BlobRow → Type 0
IsKept id b = is_blob id b ≡ true → b.deleted_at ≡ none

module _ (id : Text) (files : List FileRow) where
  abbrev pub Ready : BlobRow → Type 0
  Ready b = IsCounted files b × IsKept id b

  -- The blob has a row, or no file refers to it: the foreign key of the files.
  pub upserted :
      (new : BlobRow) (blobs : List BlobRow)
      → new.blob_object_id ≡ id
      → new.reference_count ≡ pos 0
      → new.deleted_at ≡ none
      → any (is_blob id) blobs ≡ true ⊎ active_count id files ≡ 0
      → All Ready blobs
      → All Ready (upsert_where (is_blob id) (written_over new) new blobs)
  upserted new blobs n z d key h = elim (Bool-cases (any (is_blob id) blobs)) [
    | inl there ↦
        rw there
          (All-update_where Ready (is_blob id) (written_over new) blobs (λ b e k. over b k) h)
    | inr absent ↦ rw absent ((fresh (unused absent key), λ e. d), h)
  ]
    where
      over : (b : BlobRow) → Ready b → Ready (written_over new b)
      over b k = (record { exact = k.0.exact; in_use = k.0.in_use }, k.1)

      unused :
          any (is_blob id) blobs ≡ false
          → any (is_blob id) blobs ≡ true ⊎ active_count id files ≡ 0
          → active_count id files ≡ 0
      unused absent (inl there) = absurd (ground arith)
      unused absent (inr none_of) = none_of

      fresh : active_count id files ≡ 0 → IsCounted files new
      fresh e = record {
        exact = z ∙ sym (ap (λ k. pos k) (ap (λ v. active_count v files) n ∙ e));
        in_use = inl z;
      }

  -- The blobs after the count of one was raised, and the files with one more of it.
  pub adjusted :
      (at : Time) (f : FileRow) (blobs : List BlobRow)
      → f.blob_object_id ≡ id
      → f.is_active ≡ true
      → All Ready blobs
      → All
          (IsCounted (f ∷ files))
          (update_where (is_blob id) (one_more id at files (f ∷ files)) blobs)
  unfolding active_count
  adjusted at f [] n a h = tt
  adjusted at f (b ∷ blobs) n a h = elim (Bool-cases (is_blob id b)) [
    | inl e ↦ rw e (
      taken_up id at files (f ∷ files) b (counted_in e) (h.0.1 e) h.0.0,
      adjusted at f blobs n a h.1,
    )
    | inr e ↦
        rw e (left_alone id at files (f ∷ files) b (not_in e) h.0.0, adjusted at f blobs n a h.1)
  ]
    where
      of_blob : text_eq f.blob_object_id b.blob_object_id ≡ text_eq b.blob_object_id id
      of_blob = ap (λ v. text_eq v b.blob_object_id) n ∙ same_text id b.blob_object_id

      counted_in :
          is_blob id b ≡ true
          → active_count b.blob_object_id (f ∷ files) ≡ suc (active_count b.blob_object_id files)
      counted_in e = rw (of_blob, e, a) refl

      not_in :
          is_blob id b ≡ false
          → active_count b.blob_object_id (f ∷ files) ≡ active_count b.blob_object_id files
      not_in e = rw (of_blob, e) refl
