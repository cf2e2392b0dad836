-- ===== src/Job/Sessions/Facts.antt =====
-- What the three operations on upload sessions leave of the rows.
use zhi_file_service_go.Common.{◌≡◌, Option, none, some, ℕ, All, trim, ℤ, Time, arith}
use zhi_file_service_go.Xerrors.{Err}
use zhi_file_service_go.Result.{ok}
use zhi_file_service_go.Upload.Mode.{direct}
use zhi_file_service_go.Upload.Session.{Session}
use zhi_file_service_go.Upload.Validation.{normalize_params, fill_total_parts}
use zhi_file_service_go.Upload.Validation.Exact.{new_session-ok_iff}
use zhi_file_service_go.Upload.Rows.{SessionRow, row_params, from_row}
use zhi_file_service_go.Upload.Tables.{Tables}
use zhi_file_service_go.Job.Maintenance.{Database, executed}
use zhi_file_service_go.Job.Maintenance.Batches.{All-update_where}
use zhi_file_service_go.Job.Sessions.{
  expire_row, release_row, update_chosen, expire_pending_sessions,
}
use zhi_file_service_go.Job.Sessions.Kept.{IsSaved, expire_row-IsSaved}

-- A statement that fails changes nothing.
executed-keeps :
    (P : Tables → Type 0) (fault : Option Err) (n : ℕ) (after before : Tables)
    → P after
    → P before
    → P (executed fault n after before).1
unfolding executed
executed-keeps P none n after before a b = a
executed-keeps P (some e) n after before a b = b

-- ExpirePendingSessions leaves rows that hold valid sessions where all did: a session that it
-- expires is valid without its completion token. NOW() is not before any session was made.
pub expire_pending_sessions-IsSaved :
    (db : Database) (cutoff : Time) (limit : ℤ) (t : Tables)
    → All (IsSaved db.now) t.sessions
    → All (IsSaved db.now) (expire_pending_sessions db cutoff limit t).1.sessions
unfolding expire_pending_sessions update_chosen
expire_pending_sessions-IsSaved db cutoff limit t h =
    executed-keeps (λ u. All (IsSaved db.now) u.sessions) (db.fault 0) _ _ t
      (All-update_where (IsSaved db.now) _ (expire_row db.now) t.sessions
        (λ x e k. expire_row-IsSaved db.now x k) h)
      h

-- Once CleanupMultipartUploads has released the upload of a row in direct mode, the row holds no
-- session any more: querySession fails on it.
pub release_row-unreadable :
    (now : Time) (r : SessionRow) (s : Session)
    → r.upload_mode ≡ direct
    → ¬ (from_row (release_row now r) ≡ ok s)
unfolding from_row release_row row_params normalize_params fill_total_parts trim
release_row-unreadable now r s m h =
    let (same, v) = (new_session-ok_iff (row_params (release_row now r)) s).0 h in
    let parts = v.parts in ground arith
