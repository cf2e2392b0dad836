-- ===== src/Access/File.antt =====
-- internal/services/access/domain/auth_context.go, file_view.go and errors.go: what a request may
-- read, and the read model of a file.
use zhi_file_service_go.Common.{
  Bool, true, false, not, List, [], ◌∷◌, any, Text, text, text_eq, is_empty, ℤ, Time,
}
use zhi_file_service_go.Xerrors.{
  Err, new, forbidden, file_access_denied, tenant_scope_denied, access_ticket_invalid,
  access_ticket_expired, str, name,
}
use zhi_file_service_go.Result.{◌>>◌, refuse, Check, accepted}
use zhi_file_service_go.Storage.{AccessLevel, Provider, ObjectRef}

abbrev pub scope_file_read : Text
scope_file_read = text "file:read"

pub record AuthContext : Type 0 where
  pub request_id : Text
  pub subject_id : Text
  pub subject_type : Text
  pub tenant_id : Text
  pub client_id : Text
  pub token_id : Text
  pub scopes : List Text

-- AuthContext.HasScope
abbrev pub has_scope : AuthContext → Text → Bool
has_scope a scope = any (λ current. text_eq current scope) a.scopes

-- AuthContext.RequireFileRead
unfoldable pub require_file_read : AuthContext → Check
require_file_read a = do
  refuse (is_empty a.subject_id) (new forbidden "subject is required" [])
  refuse (is_empty a.tenant_id) (new forbidden "tenant is required" [])
  refuse (not (has_scope a scope_file_read))
      (new forbidden "file read scope is required" (("requiredScope", str scope_file_read) ∷ []))
  accepted

-- A string type: the constants, and any other string.
pub data FileStatus : Type 0 where
  active deleted : FileStatus
  other : Text → FileStatus

abbrev pub is_active : FileStatus → Bool
is_active active = true
is_active _ = false

pub record FileView : Type 0 where
  pub file_id : Text
  pub tenant_id : Text
  pub owner_id : Text
  pub file_name : Text
  pub content_type : Text
  pub size_bytes : ℤ
  pub access_level : AccessLevel
  pub status : FileStatus
  pub storage_provider : Provider
  pub bucket_name : Text
  pub object_key : Text
  pub created_at : Time
  pub updated_at : Time

-- ErrFileAccessDenied
abbrev pub file_denied : Text → Err
file_denied id =
    new file_access_denied "file access denied"
      (("resourceType", name "file") ∷ ("resourceId", str id) ∷ [])

-- ErrTenantScopeDenied
abbrev pub scope_denied : Text → Err
scope_denied id =
    new tenant_scope_denied "tenant scope denied"
      (("resourceType", name "file") ∷ ("resourceId", str id) ∷ [])

-- ErrAccessTicketInvalid
abbrev pub ticket_invalid : Text → Err
ticket_invalid ticket =
    new access_ticket_invalid "access ticket is invalid"
      (("resourceType", name "accessTicket") ∷ ("resourceId", str ticket) ∷ [])

-- ErrAccessTicketExpired
abbrev pub ticket_expired : Text → Err
ticket_expired ticket =
    new access_ticket_expired "access ticket is expired"
      (("resourceType", name "accessTicket") ∷ ("resourceId", str ticket) ∷ [])

-- FileView.EnsureReadable
unfoldable pub ensure_readable : FileView → AuthContext → Check
ensure_readable f auth = do
  refuse (not (is_active f.status)) (file_denied f.file_id)
  refuse (not (text_eq auth.tenant_id f.tenant_id)) (scope_denied f.file_id)
  accepted

-- FileView.ObjectRef
abbrev pub object_ref : FileView → ObjectRef
object_ref f = record {
  provider = f.storage_provider;
  bucket_name = f.bucket_name;
  object_key = f.object_key;
}
