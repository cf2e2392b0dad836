-- ===== src/Upload/Rows.antt =====
-- The rows of upload.upload_sessions: how Create and Save of SessionRepository in
-- internal/services/upload/infra/postgres/repositories.go write a session, and how querySession reads
-- one. A column of a string type has that type; a column that may be NULL is an Option. A column of
-- a time keeps microseconds; the digits below them, which a clock may give, are kept here.
pub mod RoundTrip
pub mod Normal
use zhi_file_service_go.Common.{
  Option, none, some, [], ◌∷◌, if◌then◌else◌, Text, text, ℤ, Time, is_zero, utc,
}
use zhi_file_service_go.Result.{Result}
use zhi_file_service_go.Storage.{AccessLevel, Provider}
use zhi_file_service_go.Upload.Status.{SessionStatus}
use zhi_file_service_go.Upload.Mode.{SessionMode}
use zhi_file_service_go.Upload.Hash.{ContentHash}
use zhi_file_service_go.Upload.Session.{Session, CreateSessionParams}
use zhi_file_service_go.Upload.Validation.{new_session}

pub record SessionRow : Type 0 where
  pub upload_session_id : Text
  pub tenant_id : Text
  pub owner_id : Text
  pub upload_mode : SessionMode
  pub target_access_level : AccessLevel
  pub original_filename : Text
  pub content_type : Option Text
  pub expected_size : ℤ
  pub file_hash : Option Text
  pub hash_algorithm : Option Text
  pub storage_provider : Provider
  pub bucket_name : Text
  pub object_key : Text
  pub provider_upload_id : Option Text
  pub chunk_size_bytes : ℤ
  pub total_parts : ℤ
  pub completed_parts : ℤ
  pub file_id : Option Text
  pub completion_token : Option Text
  pub completion_started_at : Option Time
  pub status : SessionStatus
  pub failure_code : Option Text
  pub failure_message : Option Text
  pub resumed_from_session_id : Option Text
  pub idempotency_key : Option Text
  pub created_at : Time
  pub updated_at : Time
  pub completed_at : Option Time
  pub aborted_at : Option Time
  pub failed_at : Option Time
  pub expires_at : Time

-- nullString
unfoldable pub null_string : Text → Option Text
null_string [] = none
null_string (c ∷ s) = some (c ∷ s)

-- nullTime
unfoldable pub null_time : Option Time → Option Time
null_time none = none
null_time (some t) = if is_zero t then none else some (utc t)

-- The String of a sql.NullString.
abbrev pub string_of : Option Text → Text
string_of none = text ""
string_of (some s) = s

-- timePtr
unfoldable pub time_ptr : Option Time → Option Time
time_ptr none = none
time_ptr (some t) = some (utc t)

-- hashValue
unfoldable pub hash_value : Option ContentHash → Option Text
hash_value none = none
hash_value (some h) = some h.value

-- hashAlgorithm of the repositories
unfoldable pub hash_algorithm_column : Option ContentHash → Option Text
hash_algorithm_column none = none
hash_algorithm_column (some h) = some h.algorithm

-- The arguments of the INSERT of Create, and but for created_at of the UPDATE of Save.
unfoldable pub to_row : Session → SessionRow
unfolding null_string null_time hash_value hash_algorithm_column
to_row s = record {
  upload_session_id = s.id;
  tenant_id = s.tenant_id;
  owner_id = s.owner_id;
  upload_mode = s.mode;
  target_access_level = s.access_level;
  original_filename = s.file_name;
  content_type = null_string s.content_type;
  expected_size = s.size_bytes;
  file_hash = hash_value s.hash;
  hash_algorithm = hash_algorithm_column s.hash;
  storage_provider = s.object.provider;
  bucket_name = s.object.bucket_name;
  object_key = s.object.object_key;
  provider_upload_id = null_string s.provider_upload_id;
  chunk_size_bytes = s.chunk_size_bytes;
  total_parts = s.total_parts;
  completed_parts = s.completed_parts;
  file_id = null_string s.file_id;
  completion_token = null_string s.completion_token;
  completion_started_at = null_time s.completion_started_at;
  status = s.status;
  failure_code = null_string s.failure_code;
  failure_message = null_string s.failure_message;
  resumed_from_session_id = null_string s.resumed_from_session_id;
  idempotency_key = null_string s.idempotency_key;
  created_at = utc s.created_at;
  updated_at = utc s.updated_at;
  completed_at = null_time s.completed_at;
  aborted_at = null_time s.aborted_at;
  failed_at = null_time s.failed_at;
  expires_at = utc s.expires_at;
}

abbrev pub hash_of : Option Text → Option Text → Option ContentHash
hash_of (some value) (some algorithm) = some (record { algorithm = algorithm; value = value })
hash_of _ _ = none

-- The parameters that querySession hands to NewSession.
unfoldable pub row_params : SessionRow → CreateSessionParams
unfolding time_ptr
row_params r = record {
  id = r.upload_session_id;
  tenant_id = r.tenant_id;
  owner_id = r.owner_id;
  file_name = r.original_filename;
  content_type = string_of r.content_type;
  size_bytes = r.expected_size;
  access_level = r.target_access_level;
  mode = r.upload_mode;
  status = r.status;
  chunk_size_bytes = r.chunk_size_bytes;
  total_parts = r.total_parts;
  completed_parts = r.completed_parts;
  object = record {
    provider = r.storage_provider;
    bucket_name = r.bucket_name;
    object_key = r.object_key;
  };
  provider_upload_id = string_of r.provider_upload_id;
  file_id = string_of r.file_id;
  hash = hash_of r.file_hash r.hash_algorithm;
  completion_token = string_of r.completion_token;
  completion_started_at = time_ptr r.completion_started_at;
  created_at = r.created_at;
  updated_at = r.updated_at;
  completed_at = time_ptr r.completed_at;
  aborted_at = time_ptr r.aborted_at;
  failure_code = string_of r.failure_code;
  failure_message = string_of r.failure_message;
  failed_at = time_ptr r.failed_at;
  resumed_from_session_id = string_of r.resumed_from_session_id;
  idempotency_key = string_of r.idempotency_key;
  expires_at = r.expires_at;
}

-- querySession, of a row that the query found
unfoldable pub from_row : SessionRow → Result Session
unfolding row_params
from_row r = new_session (row_params r)
