-- ===== src/Examples/Jobs.antt =====
-- The maintenance of the job service at concrete tables, and the claims of the outbox.
use zhi_file_service_go.Common.{
  ◌≡◌, ◌+◌, inl, inr, refl, true, false, none, some, [], ◌∷◌, All, map, Text, text, trim, text_eq,
  pos, arith,
}
use zhi_file_service_go.Common.Sorting.{sort, sink, sink_all, unwind}
use zhi_file_service_go.Xerrors.{Err}
use zhi_file_service_go.Result.{ok, err, accepted}
use zhi_file_service_go.Storage.{AccessLevel}
use zhi_file_service_go.Upload.Mode.{SessionMode}
use zhi_file_service_go.Upload.Status.{SessionStatus}
use zhi_file_service_go.Upload.Rows.{SessionRow, to_row, from_row}
use zhi_file_service_go.Upload.Tables.{Tables, BlobRow, FileRow, OutboxRow, OutboxStatus}
use zhi_file_service_go.Upload.World.{World, settled}
use zhi_file_service_go.Upload.Completion.{commit}
use zhi_file_service_go.Upload.Statements.{
  BlobRecord, FileAssetRecord, apply_usage, insert_file, adjust_count, upsert_blob_row,
}
use zhi_file_service_go.Job.Maintenance.{
  Database, normalize_limit, oldest, is_among, maintained, in_turn,
}
use zhi_file_service_go.Job.Sessions.{is_overdue, repair_row, release_row, expire_pending_sessions}
use zhi_file_service_go.Job.Sessions.Kept.{IsSaved, repaired_session, repair_row-repaired_session}
use zhi_file_service_go.Job.Sessions.Facts.{expire_pending_sessions-IsSaved, release_row-unreadable}
use zhi_file_service_go.Job.Sessions.Drained.{due_sessions, runs, runs-drain}
use zhi_file_service_go.Job.Sessions.Composed.{commit_after_expiry}
use zhi_file_service_go.Job.Blobs.{
  finalize_deleted_files, cleanup_orphan_blobs, deleted_files, orphans, is_orphan,
}
use zhi_file_service_go.Job.Usage.{sum_sizes}
use zhi_file_service_go.Job.Blobs.Counted.{active_count, IsSound, IsUnused, cleanup-IsSound}
use zhi_file_service_go.Job.Blobs.Writes.{Writes, commit_tables, Writes-IsSound}
use zhi_file_service_go.Job.Usage.Balanced.{Charges, AreBalanced, Charges-AreBalanced}
use zhi_file_service_go.Job.Reader.{
  ClaimQuery, claim_lease, first_undecoded, claim_pending, mark_published, event_key,
}
use zhi_file_service_go.Job.Reader.Leases.{claims-apart}
use zhi_file_service_go.Job.Reader.Settled.{Calls, published_once}
use zhi_file_service_go.Examples.Upload.{draft, draft-IsValid, taken, taken-IsValid}
use zhi_file_service_go.Examples.Completion.{calm, holding, uploaded}
use zhi_file_service_go.Examples.Requests.{draft-normal}

-- A database that answers everything, at a time after the draft's end.
abbrev free : Database
free = record {
  has_storage = true;
  now = 200;
  clock = 200;
  is_locked = λ id. false;
  fault = λ n. none;
  delete_object = λ n o. accepted;
  abort_upload = λ n o u. accepted;
  is_missing = λ e. false;
  decode_fault = λ p. none;
}

repair_row-repaired_session_example :
    repair_row 30 (to_row taken) ≡ to_row (repaired_session 30 taken)
unfolding trim
repair_row-repaired_session_example =
    repair_row-repaired_session 30 taken taken-IsValid
      (record {
        completing = refl;
        unfinished = refl;
        no_code = refl;
        no_message = refl;
        file_trimmed = refl;
      })
      (omega arith)

abbrev one_draft : Tables
one_draft = (holding draft).tables

expire_pending_sessions-IsSaved_example :
    All (IsSaved 200) (expire_pending_sessions free 150 (pos 10) one_draft).1.sessions
expire_pending_sessions-IsSaved_example =
    expire_pending_sessions-IsSaved free 150 (pos 10) one_draft (
      record {
        of_session = draft;
        valid = draft-IsValid;
        normal = draft-normal;
        times = record { started = tt; completed = tt; aborted = tt; failed = tt };
        made = omega arith;
        row = refl;
      },
      tt,
    )

-- One request of a whole object, of which the upload is released.
abbrev direct_row : SessionRow
direct_row = record (to_row draft) {
  upload_mode = SessionMode.direct;
  status = SessionStatus.failed;
}

release_row-unreadable_example : ¬ (from_row (release_row 200 direct_row) ≡ ok draft)
release_row-unreadable_example = release_row-unreadable 200 direct_row draft refl

runs-drain_example : due_sessions 150 (runs (λ k. free) 150 (pos 0) 1 one_draft) ≡ 0
unfolding to_row
runs-drain_example =
    runs-drain (λ k. free) 150 (pos 0) (λ k. record { answers = refl; unlocked = λ id. refl }) 1
      one_draft (omega arith)

-- The draft expires while the request that would complete it reads the object.
abbrev expired_world : World
expired_world = record (holding draft) {
  tables = (expire_pending_sessions free 150 (pos 10) one_draft).1;
}

commit_after_expiry_example :
    (e : Err) × ((commit calm taken (text "t1") uploaded (text "r1") expired_world).0 ≡ err e)
    × ((commit calm taken (text "t1") uploaded (text "r1") expired_world).1.tables
        ≡ (settled calm expired_world).tables)
unfolding settled oldest is_overdue normalize_limit sort sink sink_all unwind to_row text_eq
commit_after_expiry_example =
    commit_after_expiry free 150 (pos 10) one_draft calm taken (text "t1") uploaded (text "r1")
      expired_world refl refl refl refl

abbrev blob : BlobRecord
blob = record {
  blob_id = text "b1";
  tenant_id = text "acme";
  storage_provider = text "S3";
  bucket_name = text "b";
  object_key = text "k";
  size_bytes = pos 4096;
  content_type = text "video/mp4";
  etag = text "e";
  checksum = [];
  hash = record { algorithm = []; value = [] };
}

abbrev asset : FileAssetRecord
asset = record {
  file_id = text "f1";
  tenant_id = text "acme";
  owner_id = text "ann";
  blob_id = text "b1";
  file_name = text "a.bin";
  content_type = text "video/mp4";
  size_bytes = pos 4096;
  access_level = AccessLevel.private;
  storage_provider = text "S3";
  bucket_name = text "b";
  object_key = text "k";
  hash = none;
}

abbrev one_file : Tables
one_file = commit_tables 10 10 10 10 (text "acme") (pos 4096) blob asset one_draft

abbrev after_finalizing : Tables
after_finalizing = (finalize_deleted_files free 150 (pos 10) one_file).tables

Writes-IsSound_example : IsSound after_finalizing
unfolding text_eq active_count
Writes-IsSound_example =
    Writes-IsSound {t = one_draft} {u = after_finalizing}
      (Writes.finalized free 150 (pos 10) (
        Writes.committed 10 10 10 10 (text "acme") (pos 4096) blob asset
          (record { of_blob = refl; fresh = refl; keyed = inr refl; kept = tt }) Writes.here))
      (tt, tt)

-- A file in use, one that was deleted, whose blob is no longer referred to, and a blob without a file.
abbrev used_file : FileRow
used_file = record {
  file_id = text "f2";
  tenant_id = text "acme";
  owner_id = text "ann";
  blob_object_id = text "b2";
  original_filename = text "a.bin";
  content_type = none;
  file_size = pos 100;
  access_level = AccessLevel.private;
  is_active = true;
  storage_provider = text "S3";
  bucket_name = text "b";
  object_key = text "k2";
  file_hash = none;
  created_at = 10;
  updated_at = 10;
  deleted_at = none;
}

abbrev used_blob : BlobRow
used_blob = record {
  blob_object_id = text "b2";
  tenant_id = text "acme";
  storage_provider = text "S3";
  bucket_name = text "b";
  object_key = text "k2";
  etag = none;
  checksum = none;
  hash_value = none;
  hash_algorithm = none;
  file_size = pos 100;
  content_type = none;
  reference_count = pos 1;
  created_at = 10;
  updated_at = 10;
  deleted_at = none;
}

abbrev unused_blob : Text → BlobRow
unused_blob id = record used_blob { blob_object_id = id; object_key = id; reference_count = pos 0 }

abbrev deleted_and_used : Tables
deleted_and_used = record one_draft {
  files =
      used_file
      ∷ record used_file {
        file_id = text "f1";
        blob_object_id = text "b1";
        is_active = false;
        deleted_at = some 100;
      }
      ∷ [];
  blobs = used_blob ∷ unused_blob (text "b1") ∷ unused_blob (text "b3") ∷ [];
}

asked_for_objects :
    (map (λ c. c.blob.object_key) (finalize_deleted_files free 150 (pos 10) deleted_and_used).asked
      ≡ text "b1" ∷ [])
    × (map (λ c. c.blob.object_key) (cleanup_orphan_blobs free 150 (pos 10) deleted_and_used).asked
        ≡ text "b1" ∷ text "b3" ∷ [])
unfolding text_eq finalize_deleted_files cleanup_orphan_blobs deleted_files orphans is_orphan oldest
    maintained normalize_limit sort sink sink_all unwind in_turn
asked_for_objects = (refl, refl)

cleanup-IsSound_example :
    (All
        (IsUnused deleted_and_used)
        (finalize_deleted_files free 150 (pos 10) deleted_and_used).asked
      × IsSound (finalize_deleted_files free 150 (pos 10) deleted_and_used).tables)
    × (All
          (IsUnused deleted_and_used)
          (cleanup_orphan_blobs free 150 (pos 10) deleted_and_used).asked
        × IsSound (cleanup_orphan_blobs free 150 (pos 10) deleted_and_used).tables)
unfolding text_eq active_count
cleanup-IsSound_example = cleanup-IsSound free 150 (pos 10) deleted_and_used (
  (
    record { exact = refl; in_use = inr refl },
    (record { exact = refl; in_use = inl refl }, (record { exact = refl; in_use = inl refl }, tt)),
  ),
  (refl, (refl, tt)),
)

-- The usage of a tenant that has a file of a hundred bytes.
abbrev balanced : Tables
balanced = record deleted_and_used {
  usage =
      record {
        tenant_id = text "acme";
        used_storage_bytes = pos 100;
        used_file_count = pos 1;
        last_upload_at = none;
        version = pos 1;
        updated_at = 10;
      }
      ∷ [];
}

-- It gets a second one.
abbrev charged : Tables
charged =
    commit_tables 20 20 20 20 (text "acme") (pos 4096) blob (record asset { file_id = text "f3" })
      balanced

used_after : map (λ u. u.used_storage_bytes) charged.usage ≡ pos 4196 ∷ []
unfolding text_eq apply_usage insert_file adjust_count upsert_blob_row
used_after = refl

Charges-AreBalanced_example : AreBalanced charged
unfolding text_eq sum_sizes
Charges-AreBalanced_example =
    Charges-AreBalanced {t = balanced} {u = charged}
      (Charges.committed 20 20 20 20 (text "acme") (pos 4096) blob
        (record asset { file_id = text "f3" })
        (record { of_tenant = refl; of_file = refl; sized = refl; fresh = refl }) Charges.here)
      ((refl, tt), (refl, (refl, tt)), (refl, (refl, tt)))

abbrev event : OutboxRow
event = record {
  event_id = text "e1";
  aggregate_id = text "u1";
  event_type = text "upload.session.completed.v1";
  payload = text "{}";
  status = OutboxStatus.pending;
  retry_count = pos 0;
  next_attempt_at = none;
  published_at = none;
  created_at = 10;
  updated_at = 10;
}

abbrev with_event : Tables
with_event = record one_draft { outbox = event ∷ [] }

abbrev due : ClaimQuery
due = record { due_before = 200; limit = pos 10; event_types = [] }

claims-apart_example :
    All
      (λ e.
        is_among event_key
          (record event { next_attempt_at = some (200 + claim_lease); updated_at = 200 } ∷ [])
          e
        ≡ false)
      []
unfolding claim_pending first_undecoded oldest normalize_limit sort sink sink_all unwind text_eq
claims-apart_example =
    claims-apart free free due due with_event
      (record event { next_attempt_at = some (200 + claim_lease); updated_at = 200 } ∷ []) [] refl
      refl (omega arith)

published_once_example : All (λ (e : OutboxRow). text_eq e.event_id (trim (text "e1")) ≡ false) []
unfolding claim_pending first_undecoded mark_published oldest normalize_limit sort sink sink_all
    unwind text_eq trim
published_once_example =
    published_once free (text "e1") 150 with_event
      (mark_published free (text "e1") 150 with_event).1 refl Calls.here free due [] refl
