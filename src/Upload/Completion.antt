-- ===== src/Upload/Completion.antt =====
-- commit, finalizeFailure and Handle of CompleteUploadSessionHandler in
-- internal/services/upload/app/commands/complete_upload_session.go.
pub mod Commit
use zhi_file_service_go.Common.{
  String, Bool, true, false, not, ◌&&◌, Option, none, some, List, [], ◌∷◌, is_nil, if◌then◌else◌,
  Text, text, is_blank, trim, ℤ, pos, leb_ℤ, Time, is_zero,
}
use zhi_file_service_go.Xerrors.{
  Err, Code, new, join, upload_complete_in_progress, name, str, internal_error, code_of, code_text,
}
use zhi_file_service_go.Result.{Result, ok, err}
use zhi_file_service_go.Upload.Status.{
  SessionStatus, completing, completed, CompletionOwnership, acquired, held_by_caller,
  held_by_another, already_done, is_completing, is_completed,
}
use zhi_file_service_go.Upload.Hash.{ContentHash, normalize_hash}
use zhi_file_service_go.Upload.Session.{Session}
use zhi_file_service_go.Upload.Lifecycle.{acquire_completion, mark_completed, mark_failed}
use zhi_file_service_go.Upload.Auth.{require_file_write, ensure_session_access}
use zhi_file_service_go.Upload.Complete.{
  effective_size_bytes, effective_content_type, hash_algorithm, hash_string,
  is_terminal_complete_failure,
}
use zhi_file_service_go.Upload.Statements.{BlobRecord, FileAssetRecord, DedupHit, OutboxMessage}
use zhi_file_service_go.Upload.World.{
  Env, Action, World, CompletedPayload, FailedPayload, pure, lift, raise, attempt, ◌>>=◌, ◌>>◌,
  raise_if, clock, generate, within_transaction,
}
use zhi_file_service_go.Upload.View.{CompletedUploadSession, from_session}
use zhi_file_service_go.Upload.Repositories.{
  get_by_id, save_session, acquire_completion_of, confirm_completion_owner, upsert_blob,
  adjust_reference_count, create_file_asset, apply_delta, enqueue,
}
use zhi_file_service_go.Upload.Materialize.{
  CompleteUploadSessionCommand, MaterializedUpload, count, id_required, or_else_wrap, internal,
  completion_token_for, materialize,
}

-- What the handler answers for a session that is completed.
abbrev pub completed_view : Session → CompletedUploadSession
completed_view s = record { file_id = s.file_id; upload_session = from_session s (text "") [] }

abbrev pub hash_or_empty : Option ContentHash → ContentHash
hash_or_empty none = record { algorithm = text ""; value = text "" }
hash_or_empty (some h) = h

-- CompletedParts as commit sets it.
unfoldable pub counted : MaterializedUpload → Session → ℤ
counted m s =
    let parts = if is_nil m.provider_parts then s.total_parts else count m.provider_parts in
    if leb_ℤ parts (pos 0) then pos 1 else parts

abbrev pub blob_record : Session → MaterializedUpload → Text → BlobRecord
blob_record s m blob_id = record {
  blob_id = blob_id;
  tenant_id = s.tenant_id;
  storage_provider = s.object.provider;
  bucket_name = s.object.bucket_name;
  object_key = s.object.object_key;
  size_bytes = effective_size_bytes m.metadata s.size_bytes;
  content_type = effective_content_type m.metadata s.content_type;
  etag = trim m.metadata.etag;
  checksum = trim m.metadata.checksum;
  hash = hash_or_empty m.canonical_hash;
}

abbrev pub file_record : Session → MaterializedUpload → Text → Text → FileAssetRecord
file_record s m blob_id file_id = record {
  file_id = file_id;
  tenant_id = s.tenant_id;
  owner_id = s.owner_id;
  blob_id = blob_id;
  file_name = s.file_name;
  content_type = effective_content_type m.metadata s.content_type;
  size_bytes = effective_size_bytes m.metadata s.size_bytes;
  access_level = s.access_level;
  storage_provider = s.object.provider;
  bucket_name = s.object.bucket_name;
  object_key = s.object.object_key;
  hash = normalize_hash m.canonical_hash;
}

abbrev pub completed_payload :
    Session → MaterializedUpload → Text → Text → Text → Time → CompletedPayload
completed_payload s m blob_id file_id request_id occurred_at = record {
  occurred_at = occurred_at;
  request_id = trim request_id;
  tenant_id = s.tenant_id;
  upload_session = s.id;
  file_id = file_id;
  blob_object_id = blob_id;
  hash_algorithm = hash_algorithm m.canonical_hash;
  hash_value = hash_string m.canonical_hash;
  size_bytes = effective_size_bytes m.metadata s.size_bytes;
}

abbrev pub message : String → Session → Text → OutboxMessage
message event_type s payload = record {
  event_type = text event_type;
  aggregate_id = s.id;
  payload = payload;
}

abbrev pub code_or_internal : Option Code → Code
code_or_internal none = internal_error
code_or_internal (some c) = c

-- What is answered for a failure of materialize, after finalizeFailure.
abbrev pub failure_of {ℓ} : {A : Type ℓ} → Err → Result (Unit {0}) → Result A
failure_of cause (ok u) = err cause
failure_of cause (err e) = err (join cause e)

abbrev pub in_progress : Session → Err
in_progress s =
    new upload_complete_in_progress "upload completion is already in progress"
      (("resourceType", name "uploadSession") ∷ ("resourceId", str s.id) ∷ [])

-- The time for a session that is acquired but not completing.
abbrev pub started_of : Session → Time → Time
started_of s now = if is_zero s.updated_at then now else s.updated_at

abbrev pub or_unless {ℓ} : {A : Type ℓ} → Bool → Result A → Result (Unit {0})
or_unless completing_now (ok a) = ok tt
or_unless true (err e) = ok tt
or_unless false (err e) = err e

module _ (env : Env) where
  unfoldable pub blob_id_for : Option DedupHit → Action Text
  blob_id_for none = generate env (internal "generate blob id")
  blob_id_for (some hit) = pure hit.blob_id

  -- What commit writes besides the session.
  unfoldable pub write_records : Session → MaterializedUpload → Text → Text → Action (Unit {0})
  write_records owned m blob_id file_id = do
    upsert_blob env (blob_record owned m blob_id)
    adjust_reference_count env blob_id (pos 1)
    create_file_asset env (file_record owned m blob_id file_id)
    apply_delta env owned.tenant_id (effective_size_bytes m.metadata owned.size_bytes)

  -- What commit does with the session, from MarkCompleted on.
  unfoldable pub complete_owned :
      Session → MaterializedUpload → Text → Text → Text → Action CompletedUploadSession
  complete_owned owned m blob_id file_id request_id = do
    now ← clock env
    let marked = mark_completed file_id now (record owned { completed_parts = counted m owned })
    lift marked.0
    save_session env marked.1
    occurred_at ← clock env
    payload ← lift (
        or_else_wrap (internal "marshal upload completed payload") (
          env.marshal_completed
            (completed_payload marked.1 m blob_id file_id request_id occurred_at)))
    enqueue env (message "upload.session.completed.v1" marked.1 payload)
    pure (record { file_id = file_id; upload_session = from_session marked.1 (text "") [] })

  -- The part of commit's transaction for a session that is not completed yet.
  unfoldable pub commit_owned : Session → MaterializedUpload → Text → Action CompletedUploadSession
  commit_owned owned m request_id = do
    blob_id ← blob_id_for m.dedup_decision
    file_id ← generate env (internal "generate file id")
    write_records owned m blob_id file_id
    complete_owned owned m blob_id file_id request_id

  unfoldable pub commit_unless_done :
      Session → MaterializedUpload → Text → Action CompletedUploadSession
  commit_unless_done owned m request_id =
      if is_completed owned.status
      then pure (completed_view owned)
      else commit_owned owned m request_id

  -- The body of commit's transaction.
  unfoldable pub commit_body :
      Session → Text → MaterializedUpload → Text → Action CompletedUploadSession
  commit_body session token m request_id = do
    owned ← confirm_completion_owner env session.tenant_id session.id token
    commit_unless_done owned m request_id

  -- CompleteUploadSessionHandler.commit
  unfoldable pub commit : Session → Text → MaterializedUpload → Text → Action CompletedUploadSession
  commit session token m request_id =
      within_transaction env (commit_body session token m request_id)

  -- The part of finalizeFailure's transaction for a session that is completing; CodeOf gives a code,
  -- since the failure is terminal.
  unfoldable pub fail_owned : Session → Text → Err → Code → Action (Unit {0})
  fail_owned owned request_id cause code = do
    now ← clock env
    let marked = mark_failed (code_text code) (env.message_of cause) now owned
    lift marked.0
    save_session env marked.1
    occurred_at ← clock env
    payload ← lift (
        or_else_wrap (internal "marshal upload failed payload") (
          env.marshal_failed (record {
            occurred_at = occurred_at;
            request_id = trim request_id;
            tenant_id = owned.tenant_id;
            upload_session_id = owned.id;
            failure_code = code_text code;
            failure_message = env.message_of cause;
          })))
    enqueue env (message "upload.session.failed.v1" marked.1 payload)

  unfoldable pub fail_body : Session → Text → Text → Err → Code → Action (Unit {0})
  fail_body session token request_id cause code = do
    owned ← confirm_completion_owner env session.tenant_id session.id token
    if is_completing owned.status then fail_owned owned request_id cause code else pure tt

  -- CompleteUploadSessionHandler.finalizeFailure
  unfoldable pub finalize_failure : Session → Text → Text → Err → Action (Unit {0})
  finalize_failure session token request_id cause =
      if is_terminal_complete_failure cause
      then within_transaction env
          (fail_body session token request_id cause (code_or_internal (code_of cause)))
      else pure tt

  -- What follows materialize.
  unfoldable pub conclude :
      Session → Text → Text → Result MaterializedUpload → Action CompletedUploadSession
  conclude owned token request_id (ok m) = commit owned token m request_id
  conclude owned token request_id (err cause) = do
    finalized ← attempt (finalize_failure owned token request_id cause)
    lift (failure_of cause finalized)

  -- The error of AcquireCompletion counts only where the session is not completing after it.
  unfoldable pub ensure_completing : Session → Text → Action Session
  ensure_completing owned token = if is_completing owned.status then pure owned else (do
    now ← clock env
    let after = acquire_completion token (started_of owned now) owned
    lift (or_unless (is_completing after.1.status) after.0)
    pure after.1)

  -- What follows AcquireCompletion for its owner.
  unfoldable pub run_owned :
      Session → Text → CompleteUploadSessionCommand → Action CompletedUploadSession
  run_owned acquired_session token command = do
    owned ← ensure_completing acquired_session token
    materialized ← attempt (materialize env owned command)
    conclude owned token command.request_id materialized

  unfoldable pub by_ownership :
      CompletionOwnership
      → Session
      → Text
      → CompleteUploadSessionCommand
      → Action CompletedUploadSession
  by_ownership already_done s token command = pure (completed_view s)
  by_ownership held_by_another s token command = raise (in_progress s)
  by_ownership acquired s token command = run_owned s token command
  by_ownership held_by_caller s token command = run_owned s token command

  -- CompleteUploadSessionHandler.Handle
  unfoldable pub complete_upload_session :
      CompleteUploadSessionCommand → Action CompletedUploadSession
  complete_upload_session command = do
    lift (require_file_write command.auth)
    raise_if (is_blank command.upload_session_id) id_required
    session ← get_by_id env command.auth.tenant_id command.upload_session_id
    lift (ensure_session_access command.auth session)
    token ← completion_token_for env (trim command.idempotency_key)
    started_at ← clock env
    owned ←
        acquire_completion_of env command.auth.tenant_id command.upload_session_id token started_at
    by_ownership owned.1 owned.0 token command
