-- ===== src/Job/Blobs/Writes.antt =====
-- The writes to blobs and files, one after the other, of the commit of an upload, of an
-- administrator's deletion and of the two cleanups.
use zhi_file_service_go.Common.{◌≡◌, refl, ◌⊎◌, true, false, some, any, All, Text, ℤ, pos, Time}
use zhi_file_service_go.Upload.Tables.{FileRow, Tables, find_row}
use zhi_file_service_go.Upload.Statements.{
  BlobRecord, FileAssetRecord, is_blob, blob_row, upsert_blob_row, adjust_count, insert_file,
  apply_usage,
}
use zhi_file_service_go.Admin.Repositories.Statements.{
  is_file, delete_file_rows, release_blob, release_usage,
}
use zhi_file_service_go.Job.Maintenance.{Database}
use zhi_file_service_go.Job.Maintenance.Batches.{All-zip}
use zhi_file_service_go.Job.Blobs.{finalize_deleted_files, cleanup_orphan_blobs}
use zhi_file_service_go.Job.Blobs.Counted.{active_count, IsSound, cleanup-IsSound}
use zhi_file_service_go.Job.Blobs.Referenced.{IsKept, upserted, adjusted}
use zhi_file_service_go.Job.Blobs.Released.{released_blobs, deleted-AreKeyed}

-- The four statements of commit: `blob_at` and so on are the times that they read.
abbrev pub commit_tables :
    Time → Time → Time → Time → Text → ℤ → BlobRecord → FileAssetRecord → Tables → Tables
commit_tables blob_at count_at file_at usage_at tenant_id size b f t =
    apply_usage usage_at tenant_id size (
      insert_file file_at f (adjust_count count_at b.blob_id (pos 1) (upsert_blob_row blob_at b t)))

-- The three updates of MarkDeleted, of the row that it locked.
abbrev pub deletion_tables : Time → Text → FileRow → Tables → Tables
deletion_tables at id r t =
    release_usage at r.tenant_id r.file_size
      (release_blob at r.blob_object_id (delete_file_rows at id t))

-- What a commit relies on: the file is of the blob and has a new identifier; the blob has a row, or no
-- file refers to it, as the foreign key of the files has it; and the blob is not deleted.
pub record IsWritable (b : BlobRecord) (f : FileAssetRecord) (t : Tables) : Type 0 where
  pub of_blob : f.blob_id ≡ b.blob_id
  pub fresh : any (is_file f.file_id) t.files ≡ false
  pub keyed : any (is_blob b.blob_id) t.blobs ≡ true ⊎ active_count b.blob_id t.files ≡ 0
  pub kept : All (IsKept b.blob_id) t.blobs

pub data Writes (t : Tables) : Tables → Type 0 where
  here : Writes t t
  committed :
      (blob_at count_at file_at usage_at : Time) (tenant_id : Text) (size : ℤ) (b : BlobRecord)
      (f : FileAssetRecord) {u : Tables}
      → IsWritable b f u
      → Writes t u
      → Writes t (commit_tables blob_at count_at file_at usage_at tenant_id size b f u)
  deleted :
      (at : Time) (id : Text) (r : FileRow) {u : Tables}
      → find_row (is_file id) u.files ≡ some r
      → r.is_active ≡ true
      → Writes t u
      → Writes t (deletion_tables at id r u)
  finalized :
      (db : Database) (cutoff : Time) (limit : ℤ) {u : Tables}
      → Writes t u
      → Writes t (finalize_deleted_files db cutoff limit u).tables
  cleaned :
      (db : Database) (cutoff : Time) (limit : ℤ) {u : Tables}
      → Writes t u
      → Writes t (cleanup_orphan_blobs db cutoff limit u).tables

commit_tables-IsSound :
    (blob_at count_at file_at usage_at : Time) (tenant_id : Text) (size : ℤ) (b : BlobRecord)
    (f : FileAssetRecord) (t : Tables)
    → IsWritable b f t
    → IsSound t
    → IsSound (commit_tables blob_at count_at file_at usage_at tenant_id size b f t)
unfolding apply_usage insert_file adjust_count upsert_blob_row blob_row
commit_tables-IsSound blob_at count_at file_at usage_at tenant_id size b f t w h = (
  adjusted b.blob_id t.files count_at _ _ w.of_blob refl (
      upserted b.blob_id t.files (blob_row blob_at b) t.blobs refl refl refl w.keyed
        (All-zip _ _ t.blobs h.0 w.kept)),
  (w.fresh, h.1),
)

deletion_tables-IsSound :
    (at : Time) (id : Text) (r : FileRow) (t : Tables)
    → find_row (is_file id) t.files ≡ some r
    → r.is_active ≡ true
    → IsSound t
    → IsSound (deletion_tables at id r t)
unfolding release_usage release_blob delete_file_rows
deletion_tables-IsSound at id r t found active h = (
  released_blobs id at t.files r t.blobs h.1 found active h.0,
  deleted-AreKeyed id at t.files h.1,
)

-- From tables whose reference counts are right, with no two files of one identifier, any sequence
-- of the writes of commits, of administrators' deletions of active files and of the two cleanups
-- leaves tables of the same kind: each blob's count is the number of its active files, and no blob
-- with an active file is deleted. Of each commit it is asked that the file's identifier is new,
-- that the blob has a row if a file refers to it, and that the blob is not deleted.
pub Writes-IsSound : {t u : Tables} → Writes t u → IsSound t → IsSound u
Writes-IsSound here h = h
Writes-IsSound (committed a b c d tenant size blob f w r) h =
    commit_tables-IsSound a b c d tenant size blob f _ w (Writes-IsSound r h)
Writes-IsSound (deleted at id row found active r) h =
    deletion_tables-IsSound at id row _ found active (Writes-IsSound r h)
Writes-IsSound (finalized db cutoff limit r) h =
    (cleanup-IsSound db cutoff limit _ (Writes-IsSound r h)).0.1
Writes-IsSound (cleaned db cutoff limit r) h =
    (cleanup-IsSound db cutoff limit _ (Writes-IsSound r h)).1.1
