-- ===== src/Job/Sessions.antt =====
-- UploadSessionRepository and MultipartRepository of
-- internal/services/job/infra/postgres/repositories.go: the upload sessions that are left over.
pub mod Facts
pub mod Kept
pub mod Composed
pub mod Drained
use zhi_file_service_go.Common.{
  ℕ, Bool, true, false, not, ◌&&◌, Option, none, some, List, [], ◌∷◌, length, if◌then◌else◌, leb,
  Text, text, is_empty, ℤ, Time,
}
use zhi_file_service_go.Result.{Result, Check}
use zhi_file_service_go.Storage.{ObjectRef}
use zhi_file_service_go.Upload.Status.{
  SessionStatus, initiated, uploading, completing, completed, aborted, expired, failed,
  is_completing,
}
use zhi_file_service_go.Upload.Rows.{SessionRow, string_of}
use zhi_file_service_go.Upload.Tables.{Tables, update_where, keep_where}
use zhi_file_service_go.Job.Maintenance.{Database, Batch, oldest, is_among, executed, maintained}

-- status IN ('INITIATED', 'UPLOADING', 'COMPLETING')
abbrev pub is_pending : SessionStatus → Bool
is_pending initiated = true
is_pending uploading = true
is_pending completing = true
is_pending _ = false

-- status IN ('ABORTED', 'EXPIRED', 'FAILED')
abbrev pub is_given_up : SessionStatus → Bool
is_given_up aborted = true
is_given_up expired = true
is_given_up failed = true
is_given_up _ = false

abbrev pub or_now : Option Time → Time → Time
or_now none now = now
or_now (some t) now = t

-- SET of ExpirePendingSessions
unfoldable pub expire_row : Time → SessionRow → SessionRow
expire_row now r = record r {
  status = expired;
  updated_at = now;
  completion_token = none;
  completion_started_at = none;
}

-- SET of RepairStuckCompleting; the candidate's file_id is that of the row.
unfoldable pub repair_row : Time → SessionRow → SessionRow
repair_row now r =
    if is_empty (string_of r.file_id)
    then record r {
      status = failed;
      failed_at = some now;
      failure_code = some (text "JOB_REPAIR_STUCK_COMPLETING");
      failure_message = some (text "repair stuck completing session failed");
      updated_at = now;
    }
    else record r {
      status = completed;
      completed_at = some (or_now r.completed_at now);
      failure_code = none;
      failure_message = none;
      updated_at = now;
    }

abbrev pub session_key : SessionRow → Text
session_key r = r.upload_session_id

-- SET of CleanupMultipartUploads
unfoldable pub release_row : Time → SessionRow → SessionRow
release_row now r = record r { provider_upload_id = none; updated_at = now }

unfoldable pub release_upload : Time → SessionRow → Tables → Tables
unfolding release_row is_among
release_upload now c t = record t {
  sessions = update_where (is_among session_key (c ∷ [])) (release_row now) t.sessions;
}

abbrev pub object_of : SessionRow → ObjectRef
object_of r = record {
  provider = r.storage_provider;
  bucket_name = r.bucket_name;
  object_key = r.object_key;
}

module _ (db : Database) (cutoff : Time) (limit : ℤ) where
  unfoldable pub is_overdue : SessionRow → Bool
  is_overdue r =
      is_pending r.status && leb r.expires_at cutoff && not (db.is_locked r.upload_session_id)

  unfoldable pub is_stuck : SessionRow → Bool
  is_stuck r =
      is_completing r.status && leb r.updated_at cutoff && not (db.is_locked r.upload_session_id)

  unfoldable pub is_left_over : SessionRow → Bool
  is_left_over r =
      not (is_empty (string_of r.provider_upload_id))
      && leb r.updated_at cutoff
      && is_given_up r.status
      && not (db.is_locked r.upload_session_id)

  -- The UPDATE of the rows that are chosen.
  unfoldable pub update_chosen :
      List SessionRow → (SessionRow → SessionRow) → Tables → Result ℕ × Tables
  unfolding executed is_among
  update_chosen chosen change t =
      executed (db.fault 0) (length (keep_where (is_among session_key chosen) t.sessions))
        (record t { sessions = update_where (is_among session_key chosen) change t.sessions }) t

  -- ExpirePendingSessions
  unfoldable pub expire_pending_sessions : Tables → Result ℕ × Tables
  unfolding oldest is_overdue update_chosen expire_row
  expire_pending_sessions t =
      update_chosen (oldest is_overdue (λ r. r.expires_at) limit t.sessions) (expire_row db.now) t

  -- RepairStuckCompleting
  unfoldable pub repair_stuck_completing : Tables → Result ℕ × Tables
  unfolding oldest is_stuck update_chosen repair_row
  repair_stuck_completing t =
      update_chosen (oldest is_stuck (λ r. r.updated_at) limit t.sessions) (repair_row db.now) t

  -- CleanupMultipartUploads
  unfoldable pub cleanup_multipart_uploads : Tables → Batch SessionRow
  unfolding oldest is_left_over maintained release_upload
  cleanup_multipart_uploads t =
      maintained db (λ n r. db.abort_upload n (object_of r) (string_of r.provider_upload_id))
        (release_upload db.now) (oldest is_left_over (λ r. r.updated_at) limit t.sessions) t
