-- ===== src/Upload/Session.antt =====
-- The upload session of internal/services/upload/domain/session.go: its state, and the parameters
-- from which one is made. A pointer to a time or a hash is an Option.
use zhi_file_service_go.Common.{Option, none, some, Text, ℤ, Time, is_zero, utc, if◌then◌else◌}
use zhi_file_service_go.Storage.{AccessLevel, ObjectRef}
use zhi_file_service_go.Upload.Status.{SessionStatus}
use zhi_file_service_go.Upload.Mode.{SessionMode}
use zhi_file_service_go.Upload.Hash.{ContentHash}

pub record Session : Type 0 where
  pub id : Text
  pub tenant_id : Text
  pub owner_id : Text
  pub file_name : Text
  pub content_type : Text
  pub size_bytes : ℤ
  pub access_level : AccessLevel
  pub mode : SessionMode
  pub status : SessionStatus
  pub chunk_size_bytes : ℤ
  pub total_parts : ℤ
  pub completed_parts : ℤ
  pub object : ObjectRef
  pub provider_upload_id : Text
  pub file_id : Text
  pub hash : Option ContentHash
  pub completion_token : Text
  pub completion_started_at : Option Time
  pub created_at : Time
  pub updated_at : Time
  pub completed_at : Option Time
  pub aborted_at : Option Time
  pub failure_code : Text
  pub failure_message : Text
  pub failed_at : Option Time
  pub resumed_from_session_id : Text
  pub idempotency_key : Text
  pub expires_at : Time

-- CreateSessionParams has the fields of Session, in another order.
abbrev pub CreateSessionParams : Type 0
CreateSessionParams = Session

-- normalizeTimePtr
unfoldable pub normalize_time_ptr : Option Time → Option Time
normalize_time_ptr none = none
normalize_time_ptr (some t) = some (utc t)

-- normalizeUpdatedAt
unfoldable pub normalize_updated_at : Time → Time → Time
normalize_updated_at created_at updated_at =
    if is_zero updated_at then utc created_at else utc updated_at
