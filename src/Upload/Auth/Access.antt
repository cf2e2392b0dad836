-- ===== src/Upload/Auth/Access.antt =====
-- Who passes the checks of a request.
use zhi_file_service_go.Common.{
  ◌≡◌, ◌↔◌, true, false, any, text_eq, text_eq_iff, trim, is_blank, arith,
}
use zhi_file_service_go.Result.{accepted}
use zhi_file_service_go.Upload.Session.{Session}
use zhi_file_service_go.Upload.Auth.{
  AuthContext, scope_file_write, require_file_write, ensure_session_access,
}

-- A request passes RequireFileWrite and EnsureSessionAccess exactly when it names a subject and a
-- tenant, one of its scopes is the write scope, and they are the owner and the tenant of the
-- session, spaces trimmed.
pub access_granted_iff :
    (a : AuthContext) (s : Session)
    → ((require_file_write a ≡ accepted) × (ensure_session_access a s ≡ accepted)) ↔ (
        (is_blank a.subject_id ≡ false)
        × (is_blank a.tenant_id ≡ false)
        × (any (λ current. text_eq (trim current) scope_file_write) a.scopes ≡ true)
        × (trim a.tenant_id ≡ s.tenant_id)
        × (trim a.subject_id ≡ s.owner_id))
unfolding require_file_write ensure_session_access
access_granted_iff a s =
    ground (
      arith,
      text_eq_iff (trim a.tenant_id) s.tenant_id,
      text_eq_iff (trim a.subject_id) s.owner_id,
    )
