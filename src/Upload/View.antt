-- ===== src/Upload/View.antt =====
-- internal/services/upload/app/view: what the handlers answer with.
use zhi_file_service_go.Common.{Option, List, Text, ℤ, Time}
use zhi_file_service_go.Storage.{AccessLevel}
use zhi_file_service_go.Upload.Status.{SessionStatus}
use zhi_file_service_go.Upload.Mode.{SessionMode}
use zhi_file_service_go.Upload.Session.{Session}

-- A map of headers, a nil one the empty list.
abbrev pub Headers : Type 0
Headers = List (Text × Text)

pub record UploadSession : Type 0 where
  pub upload_session_id : Text
  pub tenant_id : Text
  pub upload_mode : SessionMode
  pub status : SessionStatus
  pub file_name : Text
  pub content_type : Text
  pub size_bytes : ℤ
  pub access_level : AccessLevel
  pub total_parts : ℤ
  pub uploaded_parts : ℤ
  pub put_url : Text
  pub put_headers : Headers
  pub file_id : Text
  pub created_at : Time
  pub updated_at : Time
  pub completed_at : Option Time

-- FromSession, of a session that is not nil
unfoldable pub from_session : Session → Text → Headers → UploadSession
from_session s put_url put_headers = record {
  upload_session_id = s.id;
  tenant_id = s.tenant_id;
  upload_mode = s.mode;
  status = s.status;
  file_name = s.file_name;
  content_type = s.content_type;
  size_bytes = s.size_bytes;
  access_level = s.access_level;
  total_parts = s.total_parts;
  uploaded_parts = s.completed_parts;
  put_url = put_url;
  put_headers = put_headers;
  file_id = s.file_id;
  created_at = s.created_at;
  updated_at = s.updated_at;
  completed_at = s.completed_at;
}

pub record CompletedUploadSession : Type 0 where
  pub file_id : Text
  pub upload_session : UploadSession

pub record PresignedPart : Type 0 where
  pub part_number : ℤ
  pub url : Text
  pub headers : Headers
  pub expires_at : Time

pub record UploadedPartView : Type 0 where
  pub part_number : ℤ
  pub etag : Text
  pub size_bytes : ℤ
