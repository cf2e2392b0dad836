-- ===== src/Xerrors.antt =====
-- pkg/xerrors/errors.go: the canonical error model, and the other shapes of Go's `error` that the
-- services make: fmt.Errorf with and without %w, errors.Join, and the sentinels of pkg/storage.
use zhi_file_service_go.Common.{
  ℕ, String, Bool, true, false, ◌||◌, Option, none, some, List, Text, text, ℤ,
}

-- The codes of pkg/xerrors, and those that the services' domain packages add.
pub data Code : Type 0 where
  invalid_argument payload_too_large unauthorized forbidden not_found conflict : Code
  rate_limited internal_error service_unavailable : Code
  file_not_found file_access_denied access_ticket_invalid access_ticket_expired : Code
  download_not_allowed tenant_scope_denied admin_permission_denied tenant_not_found : Code
  tenant_status_invalid tenant_policy_invalid audit_query_invalid : Code
  upload_session_not_found upload_session_state_conflict upload_complete_in_progress : Code
  upload_mode_invalid upload_hash_required upload_hash_invalid upload_hash_unsupported : Code
  upload_hash_mismatch upload_parts_missing upload_multipart_not_found : Code
  upload_multipart_conflict tenant_quota_exceeded mime_type_not_allowed : Code
  upload_completion_ownership_invalid : Code

pub Code-discrete : Discrete Code
Code-discrete = hlevel

-- What Details carries beside a key.
pub data Value : Type 0 where
  str : Text → Value
  name : String → Value
  int : ℤ → Value
  strs : List Text → Value
  flag : Bool → Value

abbrev pub Details : Type 0
Details = List (String × Value)

-- The errors of pkg/storage/errors.go.
pub data Sentinel : Type 0 where
  object_not_found multipart_not_found multipart_conflict precondition_failed : Sentinel
  provider_unavailable invalid_bucket_config invalid_presign_request : Sentinel

pub Sentinel-discrete : Discrete Sentinel
Sentinel-discrete = hlevel

pub data Err : Type 0 where
  -- xerrors.New(code, message, details)
  new : Code → String → Details → Err
  -- xerrors.Wrap(code, message, err, details)
  wrap : Code → String → Err → Details → Err
  -- fmt.Errorf(format, args...) with no %w
  errorf : String → List Value → Err
  -- fmt.Errorf("%w: message", err)
  annotated : String → Err → Err
  -- errors.Join(err, other)
  join : Err → Err → Err
  sentinel : Sentinel → Err

-- CodeOf follows Unwrap() error. The error of errors.Join has Unwrap() []error, which it does not
-- follow. The code "" is `none`.
unfoldable pub code_of : Err → Option Code
code_of (new c m d) = some c
code_of (wrap c m e d) = some c
code_of (errorf m a) = none
code_of (annotated m e) = code_of e
code_of (join e f) = none
code_of (sentinel s) = none

-- The string of a code.
unfoldable pub code_text : Code → Text
code_text invalid_argument = text "INVALID_ARGUMENT"
code_text payload_too_large = text "PAYLOAD_TOO_LARGE"
code_text unauthorized = text "UNAUTHORIZED"
code_text forbidden = text "FORBIDDEN"
code_text not_found = text "NOT_FOUND"
code_text conflict = text "CONFLICT"
code_text rate_limited = text "RATE_LIMITED"
code_text internal_error = text "INTERNAL_ERROR"
code_text service_unavailable = text "SERVICE_UNAVAILABLE"
code_text file_not_found = text "FILE_NOT_FOUND"
code_text file_access_denied = text "FILE_ACCESS_DENIED"
code_text access_ticket_invalid = text "ACCESS_TICKET_INVALID"
code_text access_ticket_expired = text "ACCESS_TICKET_EXPIRED"
code_text download_not_allowed = text "DOWNLOAD_NOT_ALLOWED"
code_text tenant_scope_denied = text "TENANT_SCOPE_DENIED"
code_text admin_permission_denied = text "ADMIN_PERMISSION_DENIED"
code_text tenant_not_found = text "TENANT_NOT_FOUND"
code_text tenant_status_invalid = text "TENANT_STATUS_INVALID"
code_text tenant_policy_invalid = text "TENANT_POLICY_INVALID"
code_text audit_query_invalid = text "AUDIT_QUERY_INVALID"
code_text upload_session_not_found = text "UPLOAD_SESSION_NOT_FOUND"
code_text upload_session_state_conflict = text "UPLOAD_SESSION_STATE_CONFLICT"
code_text upload_complete_in_progress = text "UPLOAD_COMPLETE_IN_PROGRESS"
code_text upload_mode_invalid = text "UPLOAD_MODE_INVALID"
code_text upload_hash_required = text "UPLOAD_HASH_REQUIRED"
code_text upload_hash_invalid = text "UPLOAD_HASH_INVALID"
code_text upload_hash_unsupported = text "UPLOAD_HASH_UNSUPPORTED"
code_text upload_hash_mismatch = text "UPLOAD_HASH_MISMATCH"
code_text upload_parts_missing = text "UPLOAD_PARTS_MISSING"
code_text upload_multipart_not_found = text "UPLOAD_MULTIPART_NOT_FOUND"
code_text upload_multipart_conflict = text "UPLOAD_MULTIPART_CONFLICT"
code_text tenant_quota_exceeded = text "TENANT_QUOTA_EXCEEDED"
code_text mime_type_not_allowed = text "MIME_TYPE_NOT_ALLOWED"
code_text upload_completion_ownership_invalid = text "UPLOAD_COMPLETION_OWNERSHIP_INVALID"

-- StatusFromCode, over the table httpStatusByCode; every code is in the table.
unfoldable pub status_from_code : Code → ℕ
status_from_code invalid_argument = 400
status_from_code payload_too_large = 413
status_from_code unauthorized = 401
status_from_code forbidden = 403
status_from_code not_found = 404
status_from_code conflict = 409
status_from_code rate_limited = 429
status_from_code internal_error = 500
status_from_code service_unavailable = 503
status_from_code file_not_found = 404
status_from_code file_access_denied = 403
status_from_code access_ticket_invalid = 404
status_from_code access_ticket_expired = 404
status_from_code download_not_allowed = 403
status_from_code tenant_scope_denied = 403
status_from_code admin_permission_denied = 403
status_from_code tenant_not_found = 404
status_from_code tenant_status_invalid = 409
status_from_code tenant_policy_invalid = 400
status_from_code audit_query_invalid = 400
status_from_code upload_session_not_found = 404
status_from_code upload_session_state_conflict = 409
status_from_code upload_complete_in_progress = 409
status_from_code upload_mode_invalid = 400
status_from_code upload_hash_required = 400
status_from_code upload_hash_invalid = 400
status_from_code upload_hash_unsupported = 400
status_from_code upload_hash_mismatch = 409
status_from_code upload_parts_missing = 409
status_from_code upload_multipart_not_found = 409
status_from_code upload_multipart_conflict = 409
status_from_code tenant_quota_exceeded = 409
status_from_code mime_type_not_allowed = 400
status_from_code upload_completion_ownership_invalid = 400

-- StatusOf; `none` is the nil error.
unfoldable pub status_of : Option Err → ℕ
unfolding status_from_code code_of
status_of none = 200
status_of (some e) = elim (code_of e) [
  | none ↦ status_from_code internal_error
  | some c ↦ status_from_code c
]

abbrev same_sentinel : Sentinel → Sentinel → Bool
same_sentinel s t = elim (Sentinel-discrete s t) [ yes p ↦ true | no p ↦ false ]

-- errors.Is(err, target) for a sentinel: it also looks into both sides of a join.
unfoldable pub is_sentinel : Sentinel → Err → Bool
unfolding Sentinel-discrete
is_sentinel t (new c m d) = false
is_sentinel t (wrap c m e d) = is_sentinel t e
is_sentinel t (errorf m a) = false
is_sentinel t (annotated m e) = is_sentinel t e
is_sentinel t (join e f) = is_sentinel t e || is_sentinel t f
is_sentinel t (sentinel s) = same_sentinel s t
