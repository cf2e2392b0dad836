-- ===== src/Upload/Validation.antt =====
-- Session.Validate and NewSession of internal/services/upload/domain/session.go. Validate writes
-- TotalParts on its way, so it returns the session beside its answer. Its nil receiver is left out.

pub mod Facts
pub mod Exact
use zhi_file_service_go.Common.{
  String, Bool, true, not, ◌&&◌, ◌||◌, Option, none, some, [], ◌∷◌, is_some, if◌then◌else◌, Text,
  is_empty, is_blank, trim, pos, ltb_ℤ, leb_ℤ, eq_ℤ, Time, is_zero, before, after, utc,
}
use zhi_file_service_go.Xerrors.{Err, new, errorf, str, name, upload_completion_ownership_invalid}
use zhi_file_service_go.Result.{Result, ok, err, ◌>>◌, Check, refuse, accepted}
use zhi_file_service_go.Storage.{AccessLevel, validate_ref}
use zhi_file_service_go.Upload.Status.{
  SessionStatus, initiated, completed, aborted, failed, is_completing, validate_status,
}
use zhi_file_service_go.Upload.Mode.{
  mode_text, validate_mode, requires_content_hash, requires_provider_upload_id,
}
use zhi_file_service_go.Upload.Hash.{ContentHash, hash_required, validate_hash, normalize_hash}
use zhi_file_service_go.Upload.Session.{
  Session, CreateSessionParams, normalize_time_ptr, normalize_updated_at,
}

abbrev required : String → Err
required message = errorf message []

-- validateAccessLevel
unfoldable pub validate_access_level : AccessLevel → Check
validate_access_level (AccessLevel.other s) =
    err (errorf "access level is invalid: %s" (str s ∷ []))
validate_access_level _ = accepted

-- errUploadCompletionOwnershipInvalid of domain/errors.go
unfoldable pub ownership_invalid : String → Err
ownership_invalid message =
    new upload_completion_ownership_invalid message (("field", name "completion") ∷ [])

-- t == nil || t.IsZero()
abbrev pub is_unset : Option Time → Bool
is_unset none = true
is_unset (some t) = is_zero t

-- validateCompletionOwnership
unfoldable pub validate_ownership : Text → Option Time → Check
unfolding ownership_invalid
validate_ownership token started_at = do
  refuse (is_blank token) (ownership_invalid "completion token is required")
  refuse (is_unset started_at) (ownership_invalid "completion started at is required")
  accepted

-- The checks of Validate in their order: lines 118 to 147,
validate_identity : Session → Check
unfolding validate_mode validate_status validate_access_level validate_ref
validate_identity s = do
  refuse (is_blank s.id) (required "session id is required")
  refuse (is_blank s.tenant_id) (required "tenant id is required")
  refuse (is_blank s.owner_id) (required "owner id is required")
  refuse (is_blank s.file_name) (required "file name is required")
  refuse (is_blank s.content_type) (required "content type is required")
  refuse (leb_ℤ s.size_bytes (pos 0)) (required "size bytes must be > 0")
  validate_mode s.mode
  validate_status s.status
  validate_access_level s.access_level
  validate_ref s.object

-- lines 148 to 165,
validate_times : Session → Check
validate_times s = do
  refuse (is_zero s.created_at) (required "created at is required")
  refuse (is_zero s.updated_at) (required "updated at is required")
  refuse (before s.updated_at s.created_at) (required "updated at must be >= created at")
  refuse (is_zero s.expires_at) (required "expires at is required")
  refuse (not (after s.expires_at s.created_at)) (required "expires at must be after created at")
  refuse (ltb_ℤ s.chunk_size_bytes (pos 0)) (required "chunk size bytes must be >= 0")
  accepted

abbrev validate_hash_ptr : Option ContentHash → Check
validate_hash_ptr none = accepted
validate_hash_ptr (some h) = validate_hash h

-- lines 167 to 174,
validate_content_hash : Session → Check
unfolding requires_content_hash
validate_content_hash s = do
  refuse (requires_content_hash s.mode && not (is_some s.hash)) (hash_required s.mode)
  validate_hash_ptr s.hash

-- lines 176 to 186.
validate_provider : Session → Check
unfolding requires_provider_upload_id
validate_provider s =
    if requires_provider_upload_id s.mode
    then (do
      refuse (is_empty s.provider_upload_id)
          (errorf "provider upload id is required for %s" (str (mode_text s.mode) ∷ []))
      refuse (ltb_ℤ s.total_parts (pos 1))
          (errorf "total parts must be >= 1 for %s" (str (mode_text s.mode) ∷ []))
      accepted)
    else refuse (not (is_empty s.provider_upload_id))
        (errorf "provider upload id must be empty for %s" (str (mode_text s.mode) ∷ []))

-- The write of lines 187 to 189, in the branch of the modes without multipart upload.
unfoldable pub fill_total_parts : Session → Session
unfolding requires_provider_upload_id
fill_total_parts s =
    if not (requires_provider_upload_id s.mode) && eq_ℤ s.total_parts (pos 0)
    then record s { total_parts = pos 1 }
    else s

-- Lines 190 to 200, after the write.
validate_parts : Session → Check
unfolding requires_provider_upload_id
validate_parts s = do
  refuse (not (requires_provider_upload_id s.mode) && not (eq_ℤ s.total_parts (pos 1)))
      (errorf "total parts must be 1 for %s" (str (mode_text s.mode) ∷ []))
  refuse (ltb_ℤ s.completed_parts (pos 0)) (required "completed parts must be >= 0")
  refuse (ltb_ℤ (pos 0) s.total_parts && ltb_ℤ s.total_parts s.completed_parts)
      (required "completed parts must be <= total parts")
  accepted

-- The switch of lines 208 to 227.
validate_terminal : SessionStatus → Session → Check
validate_terminal completed s = do
  refuse (is_empty s.file_id) (required "file id is required when session is completed")
  refuse (is_unset s.completed_at) (required "completed at is required when session is completed")
  accepted
validate_terminal aborted s =
    refuse (is_unset s.aborted_at) (required "aborted at is required when session is aborted")
validate_terminal failed s = do
  refuse (is_unset s.failed_at) (required "failed at is required when session is failed")
  refuse (is_empty s.failure_code || is_empty s.failure_message)
      (required "failure code and message are required when session is failed")
  accepted
validate_terminal _ s = accepted

-- Lines 202 to 227.
validate_status_fields : Session → Check
unfolding validate_ownership validate_terminal
validate_status_fields s = do
  if is_completing s.status
      then validate_ownership s.completion_token s.completion_started_at
      else accepted
  validate_terminal s.status s

unfoldable pub validate_head : Session → Check
unfolding validate_identity validate_times validate_content_hash validate_provider
validate_head s = do
  validate_identity s
  validate_times s
  validate_content_hash s
  validate_provider s

unfoldable pub validate_tail : Session → Check
unfolding validate_parts validate_status_fields
validate_tail s = do validate_parts s; validate_status_fields s

-- Session.Validate
unfoldable pub validate : Session → Check × Session
unfolding validate_head validate_tail fill_total_parts
validate s = elim (validate_head s) [
  | err e ↦ (err e, s)
  | ok _ ↦ let s' = fill_total_parts s in (validate_tail s', s')
]

-- if session.Status == "" { session.Status = SessionStatusInitiated }
abbrev pub status_or_initiated : SessionStatus → SessionStatus
status_or_initiated (SessionStatus.other []) = initiated
status_or_initiated s = s

-- The session that NewSession builds from its parameters before it validates it.
unfoldable pub normalize_params : CreateSessionParams → Session
unfolding normalize_hash normalize_time_ptr normalize_updated_at
normalize_params p = record {
  id = trim p.id;
  tenant_id = trim p.tenant_id;
  owner_id = trim p.owner_id;
  file_name = trim p.file_name;
  content_type = trim p.content_type;
  size_bytes = p.size_bytes;
  access_level = p.access_level;
  mode = p.mode;
  status = status_or_initiated p.status;
  chunk_size_bytes = p.chunk_size_bytes;
  total_parts = p.total_parts;
  completed_parts = p.completed_parts;
  object = p.object;
  provider_upload_id = trim p.provider_upload_id;
  file_id = trim p.file_id;
  hash = normalize_hash p.hash;
  completion_token = trim p.completion_token;
  completion_started_at = normalize_time_ptr p.completion_started_at;
  created_at = utc p.created_at;
  updated_at = normalize_updated_at (utc p.created_at) p.updated_at;
  completed_at = normalize_time_ptr p.completed_at;
  aborted_at = normalize_time_ptr p.aborted_at;
  failure_code = trim p.failure_code;
  failure_message = trim p.failure_message;
  failed_at = normalize_time_ptr p.failed_at;
  resumed_from_session_id = trim p.resumed_from_session_id;
  idempotency_key = trim p.idempotency_key;
  expires_at = utc p.expires_at;
}

-- return the session, or the error
abbrev checked : Check × Session → Result Session
checked (ok _, s) = ok s
checked (err e, s) = err e

-- NewSession
unfoldable pub new_session : CreateSessionParams → Result Session
unfolding normalize_params validate
new_session p = checked (validate (normalize_params p))
