-- ===== src/Job/Jobs.antt =====
-- The jobs of internal/services/job/app/jobs: the cutoff and the batch size that each hands to its
-- repository. Durations are in nanoseconds; the clock is that of the process.
use zhi_file_service_go.Common.{◌-◌, ℕ, ℤ, pos, Time}
use zhi_file_service_go.Result.{Result, Check, ok, err}
use zhi_file_service_go.Upload.Tables.{Tables}
use zhi_file_service_go.Job.Outbox.{RunResult, positive_or}
use zhi_file_service_go.Job.Maintenance.{Database, Batch}
use zhi_file_service_go.Job.Sessions.{
  expire_pending_sessions, repair_stuck_completing, cleanup_multipart_uploads,
}
use zhi_file_service_go.Job.Blobs.{finalize_deleted_files, cleanup_orphan_blobs}
use zhi_file_service_go.Job.Usage.{reconcile_tenant_usage}

-- Result of app/jobs, with the error beside it
pub record JobResult : Type 0 where
  pub items_processed : ℕ
  pub retry_count : ℕ
  pub outcome : Check

-- normalizeBatchSize
abbrev pub normalize_batch_size : ℤ → ℤ
normalize_batch_size value = pos (positive_or value 100)

-- Result{ItemsProcessed: processed}, err; processed is 0 beside an error.
unfoldable pub reported : Result ℕ → JobResult
reported (ok n) = record { items_processed = n; retry_count = 0; outcome = ok tt }
reported (err e) = record { items_processed = 0; retry_count = 0; outcome = err e }

abbrev pub cutoff : Database → ℤ → ℕ → Time
cutoff db configured default = db.clock - positive_or configured default

abbrev pub of_batch : {A : Type 0} → Batch A → JobResult × Tables
of_batch b = (reported b.answer, b.tables)

abbrev pub of_statement : Result ℕ × Tables → JobResult × Tables
of_statement (r, t) = (reported r, t)

module _ (db : Database) (batch_size configured : ℤ) where
  -- ExpireUploadSessionsJob: 30 minutes
  unfoldable pub expire_upload_sessions : Tables → JobResult × Tables
  unfolding expire_pending_sessions reported
  expire_upload_sessions t = of_statement (
      expire_pending_sessions db (cutoff db configured 1800000000000)
        (normalize_batch_size batch_size) t)

  -- RepairStuckCompletingJob: 15 minutes
  unfoldable pub repair_stuck : Tables → JobResult × Tables
  unfolding repair_stuck_completing reported
  repair_stuck t = of_statement (
      repair_stuck_completing db (cutoff db configured 900000000000)
        (normalize_batch_size batch_size) t)

  -- CleanupMultipartJob: 2 hours
  unfoldable pub cleanup_multipart : Tables → JobResult × Tables
  unfolding cleanup_multipart_uploads reported
  cleanup_multipart t = of_batch (
      cleanup_multipart_uploads db (cutoff db configured 7200000000000)
        (normalize_batch_size batch_size) t)

  -- FinalizeFileDeleteJob: 24 hours
  unfoldable pub finalize_file_delete : Tables → JobResult × Tables
  unfolding finalize_deleted_files reported
  finalize_file_delete t = of_batch (
      finalize_deleted_files db (cutoff db configured 86400000000000)
        (normalize_batch_size batch_size) t)

  -- CleanupOrphanBlobsJob: 24 hours
  unfoldable pub cleanup_orphans : Tables → JobResult × Tables
  unfolding cleanup_orphan_blobs reported
  cleanup_orphans t = of_batch (
      cleanup_orphan_blobs db (cutoff db configured 86400000000000)
        (normalize_batch_size batch_size) t)

-- ReconcileTenantUsageJob
unfoldable pub reconcile_usage : Database → ℤ → Tables → JobResult × Tables
unfolding reconcile_tenant_usage reported
reconcile_usage db batch_size t =
    of_statement (reconcile_tenant_usage db (normalize_batch_size batch_size) t)

-- ProcessOutboxEventsJob, of what RunOnce returned
abbrev pub process_outbox_events : RunResult × Check → JobResult
process_outbox_events (r, outcome) = record {
  items_processed = r.claimed;
  retry_count = r.failed;
  outcome = outcome;
}
