-- ===== src/Job/Blobs/Released.antt =====
-- What MarkDeleted of the admin service does to the counts of active files.
use zhi_file_service_go.Common.{
  ◌≡◌, refl, ap, sym, ◌∙◌, inl, inr, ℕ, suc, true, false, Bool-cases, if◌then◌else◌, some, List, [],
  ◌∷◌, All, any, Text, text_eq, text_eq_iff, Time, arith,
}
use zhi_file_service_go.Upload.Tables.{BlobRow, FileRow, find_row, update_where}
use zhi_file_service_go.Upload.Statements.{is_blob}
use zhi_file_service_go.Admin.Repositories.Statements.{is_file, delete_file_row}
use zhi_file_service_go.Job.Blobs.{is_active_of}
use zhi_file_service_go.Job.Blobs.Counted.{active_count, IsCounted, AreKeyed}
use zhi_file_service_go.Job.Blobs.Referenced.{same_text, given_back, left_alone, one_less}

module _ (id : Text) (at : Time) where
  abbrev pub deleted_rows : List FileRow → List FileRow
  deleted_rows files = update_where (is_file id) (delete_file_row at) files

  pub untouched :
      (files : List FileRow) → any (is_file id) files ≡ false → deleted_rows files ≡ files
  untouched [] h = refl
  untouched (f ∷ fs) h = ground (arith, untouched fs)

  -- Once an active file is deleted, its blob has one active file less, and the other blobs as many.
  pub released :
      (files : List FileRow) (r : FileRow) (blob : Text)
      → AreKeyed files
      → find_row (is_file id) files ≡ some r
      → r.is_active ≡ true
      → active_count blob files ≡ (
          if text_eq r.blob_object_id blob
          then suc (active_count blob (deleted_rows files))
          else active_count blob (deleted_rows files))
  unfolding active_count delete_file_row
  released [] r blob k h a = absurd (ground arith)
  released (f ∷ fs) r blob k h a = elim (Bool-cases (is_file id f)) [
    | inl e ↦
        let same : f.file_id ≡ id = (text_eq_iff f.file_id id).0 e in
        let rest = untouched fs (ap (λ v. any (is_file v) fs) (sym same) ∙ k.0) in
        let here : f ≡ r = ground (arith, e, h) in
        let active : f.is_active ≡ true = ap (λ (x : FileRow). x.is_active) here ∙ a in
        let blob_is = ap (λ (x : FileRow). x.blob_object_id) here in
        rw (e, rest, active, sym blob_is) (ground arith)
    | inr e ↦
        let later = released fs r blob k.1 (ground (arith, e, h)) a in
        rw e (
          ground (
            arith,
            later,
            Bool-cases (is_active_of blob f),
            Bool-cases (text_eq r.blob_object_id blob),
          ))
  ]

  any_file :
      (other : Text) (files : List FileRow)
      → any (is_file other) (deleted_rows files) ≡ any (is_file other) files
  unfolding delete_file_row
  any_file other [] = refl
  any_file other (f ∷ fs) = ground (arith, any_file other fs, Bool-cases (is_file id f))

  pub deleted-AreKeyed : (files : List FileRow) → AreKeyed files → AreKeyed (deleted_rows files)
  unfolding delete_file_row
  deleted-AreKeyed [] k = tt
  deleted-AreKeyed (f ∷ fs) k = elim (Bool-cases (is_file id f)) [
    | inl e ↦ rw e (any_file f.file_id fs ∙ k.0, deleted-AreKeyed fs k.1)
    | inr e ↦ rw e (any_file f.file_id fs ∙ k.0, deleted-AreKeyed fs k.1)
  ]

  pub released_blobs :
      (files : List FileRow) (r : FileRow) (blobs : List BlobRow)
      → AreKeyed files
      → find_row (is_file id) files ≡ some r
      → r.is_active ≡ true
      → All (IsCounted files) blobs
      → All (IsCounted (deleted_rows files)) (
          update_where
            (is_blob r.blob_object_id)
            (one_less r.blob_object_id at files (deleted_rows files))
            blobs)
  released_blobs files r [] k h a c = tt
  released_blobs files r (b ∷ blobs) k h a c =
      let rest = released_blobs files r blobs k h a c.1 in
      elim (Bool-cases (is_blob r.blob_object_id b)) [
        | inl e ↦ rw e (
          given_back r.blob_object_id at files (deleted_rows files) b
              (count ∙ ap (λ x. if x then suc left else left) (swapped ∙ e)) c.0,
          rest,
        )
        | inr e ↦ rw e (
          left_alone r.blob_object_id at files (deleted_rows files) b
              (sym (count ∙ ap (λ x. if x then suc left else left) (swapped ∙ e))) c.0,
          rest,
        )
      ]
    where
      left : ℕ
      left = active_count b.blob_object_id (deleted_rows files)

      count :
          active_count b.blob_object_id files
          ≡ (if text_eq r.blob_object_id b.blob_object_id then suc left else left)
      count = released files r b.blob_object_id k h a

      swapped : text_eq r.blob_object_id b.blob_object_id ≡ is_blob r.blob_object_id b
      swapped = same_text r.blob_object_id b.blob_object_id
