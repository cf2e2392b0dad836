-- ===== src/Upload/Auth.antt =====
-- internal/services/upload/domain/auth_context.go: what a request may do.
pub mod Access
use zhi_file_service_go.Common.{
  Bool, not, ◌||◌, List, [], ◌∷◌, any, Text, text, text_eq, trim, is_blank,
}
use zhi_file_service_go.Xerrors.{Err, new, forbidden, str, name}
use zhi_file_service_go.Result.{◌>>=◌, ◌>>◌, refuse, Check, accepted}
use zhi_file_service_go.Upload.Session.{Session}

abbrev pub scope_file_write : Text
scope_file_write = text "file:write"

pub record AuthContext : Type 0 where
  pub request_id : Text
  pub subject_id : Text
  pub subject_type : Text
  pub tenant_id : Text
  pub client_id : Text
  pub token_id : Text
  pub scopes : List Text

-- AuthContext.HasScope
unfoldable pub has_scope : AuthContext → Text → Bool
has_scope a scope = any (λ current. text_eq (trim current) scope) a.scopes

-- AuthContext.RequireFileWrite
unfoldable pub require_file_write : AuthContext → Check
unfolding has_scope
require_file_write a = do
  refuse (is_blank a.subject_id) (new forbidden "subject is required" [])
  refuse (is_blank a.tenant_id) (new forbidden "tenant is required" [])
  refuse (not (has_scope a scope_file_write))
      (new forbidden "file write scope is required" (("requiredScope", str scope_file_write) ∷ []))
  accepted

-- AuthContext.EnsureSessionAccess, its session not nil
unfoldable pub ensure_session_access : AuthContext → Session → Check
ensure_session_access a s = do
  refuse (not (text_eq (trim a.tenant_id) s.tenant_id)) (
      new forbidden "tenant does not match upload session"
        (("resourceType", name "uploadSession") ∷ ("resourceId", str s.id) ∷ []))
  refuse (not (text_eq (trim a.subject_id) s.owner_id)) (
      new forbidden "subject does not own upload session"
        (("resourceType", name "uploadSession") ∷ ("resourceId", str s.id) ∷ []))
  accepted
