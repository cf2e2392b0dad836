-- ===== src/Job/Blobs/Counted.antt =====
-- The reference count of a blob is the number of its active files, and only blobs without any are
-- cleaned up.
use zhi_file_service_go.Common.{
  ◌≡◌, refl, ◌⊎◌, inl, inr, ℕ, suc, Bool, true, false, Bool-cases, ◌&&◌, if◌then◌else◌, not, Option,
  none, some, List, [], ◌∷◌, All, any, Text, ℤ, pos, eq_ℤ, eq_ℤ_iff, Time, arith,
}
use mathlib.Core.Path.{subst}
use zhi_file_service_go.Upload.Tables.{BlobRow, FileRow, Tables, find_row}
use zhi_file_service_go.Upload.Statements.{is_blob}
use zhi_file_service_go.Admin.Repositories.Statements.{is_file}
use zhi_file_service_go.Job.Maintenance.{Database, oldest, maintained}
use zhi_file_service_go.Job.Maintenance.Batches.{
  All-update_where, All-map, All-oldest, maintained-Ended,
}
use zhi_file_service_go.Job.Sessions.{or_now}
use zhi_file_service_go.Job.Blobs.{
  CleanupRecord, mark_blob, is_unreferenced, is_active_of, deleted_files, is_orphan, orphans,
  remove, joined, deleted_by, finalize_deleted_files, cleanup_orphan_blobs,
}

-- How many ACTIVE files refer to the blob.
unfoldable pub active_count : Text → List FileRow → ℕ
active_count id [] = 0
active_count id (f ∷ fs) =
    let rest = active_count id fs in if is_active_of id f then suc rest else rest

-- The count of a blob is right, and a blob that is in use is not deleted.
pub record IsCounted (files : List FileRow) (b : BlobRow) : Type 0 where
  pub exact : b.reference_count ≡ pos (active_count b.blob_object_id files)
  pub in_use : b.reference_count ≡ pos 0 ⊎ b.deleted_at ≡ none

abbrev pub AllCounted : Tables → Type 0
AllCounted t = All (IsCounted t.files) t.blobs

-- No two files have the same identifier.
abbrev pub AreKeyed : List FileRow → Type 0
AreKeyed [] = Unit
AreKeyed (f ∷ fs) = (any (is_file f.file_id) fs ≡ false) × AreKeyed fs

abbrev pub IsSound : Tables → Type 0
IsSound t = AllCounted t × AreKeyed t.files

mark_blob-IsSound :
    (now : Time) (c : CleanupRecord) (t : Tables) → IsSound t → IsSound (mark_blob now c t)
unfolding mark_blob
mark_blob-IsSound now c t h =
    (All-update_where (IsCounted t.files) _ _ t.blobs (λ b e k. marked b e k) h.0, h.1)
  where
    marked :
        (b : BlobRow)
        → (is_blob c.blob.blob_object_id b && eq_ℤ b.reference_count (pos 0)) ≡ true
        → IsCounted t.files b
        → IsCounted t.files
            (record b { deleted_at = some (or_now b.deleted_at now); updated_at = now })
    marked b e k = record {
      exact = k.exact;
      in_use = inl ((eq_ℤ_iff b.reference_count (pos 0)).0 (ground arith));
    }

find_row-All :
    (P : BlobRow → Type 0) (p : BlobRow → Bool) (rows : List BlobRow) (r : BlobRow)
    → All P rows
    → find_row p rows ≡ some r
    → P r
find_row-All P p [] r h e = absurd (ground arith)
find_row-All P p (x ∷ rows) r h e = elim (Bool-cases (p x)) [
  | inl hit ↦ subst P (ground arith) h.0
  | inr miss ↦ find_row-All P p rows r h.1 (ground arith)
]

-- The blob is one of the rows.
abbrev pub IsRow : BlobRow → List BlobRow → Type 0
IsRow b [] = ⊥
IsRow b (x ∷ rows) = (b ≡ x) ⊎ IsRow b rows

All-IsRow :
    (P : BlobRow → Type 0) (every rows : List BlobRow)
    → ((b : BlobRow) → IsRow b rows → IsRow b every)
    → All P rows
    → All (λ b. P b × IsRow b every) rows
All-IsRow P every [] up h = tt
All-IsRow P every (x ∷ rows) up h =
    ((h.0, up x (inl refl)), All-IsRow P every rows (λ b k. up b (inr k)) h.1)

-- The record's blob, whose object is asked for, has a row, and no ACTIVE file refers to it.
abbrev pub IsUnused : Tables → CleanupRecord → Type 0
IsUnused t c = IsRow c.blob t.blobs × (active_count c.blob.blob_object_id t.files ≡ 0)

unused_of_unreferenced :
    (files : List FileRow) (b : BlobRow)
    → IsCounted files b
    → is_unreferenced b ≡ true
    → active_count b.blob_object_id files ≡ 0
unused_of_unreferenced files b h u =
    let exact = h.exact in
    let nil = (eq_ℤ_iff b.reference_count (pos 0)).0 (ground arith) in ground arith

module _ (db : Database) (cutoff : Time) (limit : ℤ) (t : Tables) (h : IsSound t) where
  IsCounted-rows : All (λ b. IsCounted t.files b × IsRow b t.blobs) t.blobs
  IsCounted-rows = All-IsRow (IsCounted t.files) t.blobs t.blobs (λ b k. k) h.0

  joined-IsUnused :
      (f : FileRow) (found : Option BlobRow) (rest : List CleanupRecord)
      → find_row (is_blob f.blob_object_id) t.blobs ≡ found
      → All (IsUnused t) rest
      → All (IsUnused t) (joined db cutoff limit f found rest)
  joined-IsUnused f none rest e k = k
  joined-IsUnused f (some b) rest e k =
      elim (Bool-cases (is_unreferenced b && not (db.is_locked b.blob_object_id))) [
        | inl yes_free ↦
            let counted =
              find_row-All (λ r. IsCounted t.files r × IsRow r t.blobs) (is_blob f.blob_object_id)
                t.blobs b IsCounted-rows e in
            let unused = unused_of_unreferenced t.files b counted.0 (ground arith) in
            rw yes_free ((counted.1, unused), k)
        | inr busy ↦ rw busy k
      ]

  deleted_files-IsUnused :
      (fs : List FileRow) → All (IsUnused t) (deleted_files db cutoff limit t.blobs fs)
  unfolding deleted_files
  deleted_files-IsUnused [] = tt
  deleted_files-IsUnused (f ∷ fs) =
      elim (Bool-cases
        (not f.is_active && deleted_by cutoff f.deleted_at && not (db.is_locked f.file_id))) [
          | inl e ↦ rw e (joined-IsUnused f _ _ refl (deleted_files-IsUnused fs))
          | inr e ↦ rw e (deleted_files-IsUnused fs)
        ]

  orphans-IsUnused :
      (bs : List BlobRow)
      → All (λ b. IsCounted t.files b × IsRow b t.blobs) bs
      → All (IsUnused t) (orphans db cutoff limit t.files bs)
  unfolding orphans is_orphan
  orphans-IsUnused [] k = tt
  orphans-IsUnused (b ∷ bs) k = elim (Bool-cases (is_orphan db cutoff limit t.files b)) [
    | inl e ↦
        let unused = unused_of_unreferenced t.files b k.0.0 (ground arith) in
        rw e ((k.0.1, unused), orphans-IsUnused bs k.1)
    | inr e ↦ rw e (orphans-IsUnused bs k.1)
  ]

  batch-IsUnused :
      (records : List CleanupRecord)
      → All (IsUnused t) records
      → (All
          (IsUnused t)
          (maintained db
            (remove db cutoff limit)
            (mark_blob db.clock)
            (oldest (λ r. true) (λ r. r.ordered_by) limit records)
            t).asked)
        × IsSound
            (maintained db
              (remove db cutoff limit)
              (mark_blob db.clock)
              (oldest (λ r. true) (λ r. r.ordered_by) limit records)
              t).tables
  batch-IsUnused records k =
      let chosen = oldest (λ r. true) (λ r. r.ordered_by) limit records in
      maintained-Ended db (remove db cutoff limit) (mark_blob db.clock) (IsUnused t) IsSound
        (λ c u p q. mark_blob-IsSound db.clock c u q) chosen t
        (All-map _ _ chosen (λ c q. q.1)
          (All-oldest (IsUnused t) (λ r. true) (λ r. r.ordered_by) limit records k))
        h

  -- Where every reference count is right, no blob that is in use is deleted and no two files have one
  -- identifier, FinalizeDeletedFiles and CleanupOrphanBlobs ask the storage to delete the objects of
  -- rows of blobs to which no ACTIVE file refers, and of no others, and leave tables of that kind,
  -- whatever of the storage, the statements and the commit fails.
  pub cleanup-IsSound :
      (All (IsUnused t) (finalize_deleted_files db cutoff limit t).asked
        × IsSound (finalize_deleted_files db cutoff limit t).tables)
      × (All (IsUnused t) (cleanup_orphan_blobs db cutoff limit t).asked
          × IsSound (cleanup_orphan_blobs db cutoff limit t).tables)
  unfolding finalize_deleted_files cleanup_orphan_blobs
  cleanup-IsSound = (
    batch-IsUnused (deleted_files db cutoff limit t.blobs t.files) (deleted_files-IsUnused t.files),
    batch-IsUnused (orphans db cutoff limit t.files t.blobs)
        (orphans-IsUnused t.blobs IsCounted-rows),
  )
