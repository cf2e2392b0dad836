-- ===== src/Job/Blobs.antt =====
-- FileCleanupRepository and BlobRepository of internal/services/job/infra/postgres/repositories.go:
-- the objects that no file needs.
pub mod Counted
pub mod Referenced
pub mod Released
pub mod Writes
use zhi_file_service_go.Common.{
  ℕ, Bool, true, false, not, ◌&&◌, Option, none, some, List, [], ◌∷◌, is_some, any, if◌then◌else◌,
  leb, Text, text_eq, ℤ, pos, eq_ℤ, Time,
}
use zhi_file_service_go.Result.{Check}
use zhi_file_service_go.Storage.{ObjectRef}
use zhi_file_service_go.Upload.Tables.{BlobRow, FileRow, Tables, find_row, update_where}
use zhi_file_service_go.Upload.Statements.{is_blob}
use zhi_file_service_go.Job.Sessions.{or_now}
use zhi_file_service_go.Job.Maintenance.{Database, Batch, oldest, maintained}

-- cleanupRecord, of the fields that are read: file_id is '' for an orphan blob.
pub record CleanupRecord : Type 0 where
  pub file_id : Text
  pub blob : BlobRow
  -- the column of the ORDER BY
  pub ordered_by : Time

-- cleanupRecord.ObjectRef
abbrev pub object_ref : CleanupRecord → ObjectRef
object_ref r = record {
  provider = r.blob.storage_provider;
  bucket_name = r.blob.bucket_name;
  object_key = r.blob.object_key;
}

-- The UPDATE of both operations.
unfoldable pub mark_blob : Time → CleanupRecord → Tables → Tables
mark_blob now c t = record t {
  blobs =
      update_where (λ b. is_blob c.blob.blob_object_id b && eq_ℤ b.reference_count (pos 0))
        (λ b. record b { deleted_at = some (or_now b.deleted_at now); updated_at = now }) t.blobs;
}

-- b.reference_count = 0 AND b.deleted_at IS NULL
abbrev pub is_unreferenced : BlobRow → Bool
is_unreferenced b = eq_ℤ b.reference_count (pos 0) && not (is_some b.deleted_at)

-- deleted_at IS NOT NULL AND deleted_at <= $1
abbrev pub deleted_by : Time → Option Time → Bool
deleted_by cutoff none = false
deleted_by cutoff (some t) = leb t cutoff

-- An ACTIVE file of the blob
abbrev pub is_active_of : Text → FileRow → Bool
is_active_of blob_id f = text_eq f.blob_object_id blob_id && f.is_active

module _ (db : Database) (cutoff : Time) (limit : ℤ) where
  abbrev pub joined : FileRow → Option BlobRow → List CleanupRecord → List CleanupRecord
  joined f none rest = rest
  joined f (some b) rest =
      if is_unreferenced b && not (db.is_locked b.blob_object_id)
      then record { file_id = f.file_id; blob = b; ordered_by = or_now f.deleted_at cutoff } ∷ rest
      else rest

  -- The join of the deleted files with their blobs.
  unfoldable pub deleted_files : List BlobRow → List FileRow → List CleanupRecord
  deleted_files blobs [] = []
  deleted_files blobs (f ∷ fs) =
      let rest = deleted_files blobs fs in
      if not f.is_active && deleted_by cutoff f.deleted_at && not (db.is_locked f.file_id)
      then joined f (find_row (is_blob f.blob_object_id) blobs) rest
      else rest

  -- The blobs that no file refers to.
  unfoldable pub is_orphan : List FileRow → BlobRow → Bool
  is_orphan files b =
      is_unreferenced b
      && leb b.updated_at cutoff
      && not (any (is_active_of b.blob_object_id) files)
      && not (db.is_locked b.blob_object_id)

  unfoldable pub orphans : List FileRow → List BlobRow → List CleanupRecord
  unfolding is_orphan
  orphans files [] = []
  orphans files (b ∷ bs) =
      let rest = orphans files bs in
      if is_orphan files b
      then record { file_id = []; blob = b; ordered_by = b.updated_at } ∷ rest
      else rest

  abbrev pub remove : ℕ → CleanupRecord → Check
  remove n r = db.delete_object n (object_ref r)

  -- FinalizeDeletedFiles
  unfoldable pub finalize_deleted_files : Tables → Batch CleanupRecord
  unfolding deleted_files oldest maintained mark_blob
  finalize_deleted_files t =
      maintained db remove (mark_blob db.clock)
        (oldest (λ r. true) (λ r. r.ordered_by) limit (deleted_files t.blobs t.files)) t

  -- CleanupOrphanBlobs
  unfoldable pub cleanup_orphan_blobs : Tables → Batch CleanupRecord
  unfolding orphans oldest maintained mark_blob
  cleanup_orphan_blobs t =
      maintained db remove (mark_blob db.clock)
        (oldest (λ r. true) (λ r. r.ordered_by) limit (orphans t.files t.blobs)) t
