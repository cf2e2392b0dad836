-- ===== src/Access/Queries.antt =====
-- internal/services/access/app/queries: the three queries of the access service. They change no
-- state, so the ports that they call are functions; the metrics of the presigning are left out.
pub mod Granted
use zhi_file_service_go.Common.{
  String, Bool, true, false, not, ◌&&◌, List, [], ◌∷◌, if◌then◌else◌, Text, text, ℤ, Time, after,
}
use zhi_file_service_go.Xerrors.{Err, wrap, service_unavailable}
use zhi_file_service_go.Result.{Result, ok, err, ◌>>=◌, ◌>>◌, refuse}
use zhi_file_service_go.Storage.{AccessLevel, ObjectRef}
use zhi_file_service_go.Access.File.{
  AuthContext, scope_file_read, require_file_read, FileView, ensure_readable, object_ref,
  ticket_invalid, ticket_expired,
}
use zhi_file_service_go.Access.Ticket.{
  DownloadDisposition, AccessTicketClaims, normalize_disposition, validate_claims, DownloadPolicy,
  ensure_allowed,
}

-- What the handlers hold: FileReadRepository, TenantPolicyReader, Verify of AccessTicketIssuer,
-- ObjectLocator, PresignManager and the clock at this call, and the settings.
pub record Ports : Type 0 where
  pub get_by_id : Text → Result FileView
  pub get_by_tenant_id : Text → Result DownloadPolicy
  pub verify : Text → Result AccessTicketClaims
  pub resolve_object_url : ObjectRef → Result Text
  pub presign_get_object : ObjectRef → ℤ → Result Text
  pub now : Time
  pub private_ttl : ℤ
  pub public_url_enabled : Bool

abbrev pub is_public : AccessLevel → Bool
is_public AccessLevel.public = true
is_public _ = false

-- if err != nil { return xerrors.Wrap(service_unavailable, message, err, nil) }
abbrev pub or_unavailable : String → Result Text → Result Text
or_unavailable message (ok url) = ok url
or_unavailable message (err e) = err (wrap service_unavailable message e [])

-- if err != nil { return domain.ErrAccessTicketInvalid(ticket) }
abbrev pub or_invalid {ℓ} : {A : Type ℓ} → Text → Result A → Result A
or_invalid ticket (ok a) = ok a
or_invalid ticket (err e) = err (ticket_invalid ticket)

abbrev pub serves_public_url : Ports → FileView → Bool
serves_public_url p file = p.public_url_enabled && is_public file.access_level

abbrev pub public_url : Ports → FileView → Result Text
public_url p file =
    or_unavailable "resolve public object url" (p.resolve_object_url (object_ref file))

-- The end of both download handlers.
abbrev pub object_url : Ports → FileView → Result Text
object_url p file =
    if serves_public_url p file
    then public_url p file
    else or_unavailable "presign private object"
        (p.presign_get_object (object_ref file) p.private_ttl)

-- The URL that the description of a file has.
abbrev pub shown_url : Ports → FileView → Result Text
shown_url p file = if serves_public_url p file then public_url p file else ok (text "")

pub record GetFileResult : Type 0 where
  pub file : FileView
  pub download_url : Text

-- GetFileHandler.Handle
unfoldable pub get_file : Ports → Text → AuthContext → Result GetFileResult
get_file p file_id auth = do
  require_file_read auth
  file ← p.get_by_id file_id
  ensure_readable file auth
  url ← shown_url p file
  ok (record { file = file; download_url = url })

pub record ResolveDownloadResult : Type 0 where
  pub file : FileView
  pub url : Text

-- ResolveDownloadHandler.Handle
unfoldable pub resolve_download :
    Ports → Text → DownloadDisposition → AuthContext → Result ResolveDownloadResult
resolve_download p file_id requested auth = do
  require_file_read auth
  file ← p.get_by_id file_id
  ensure_readable file auth
  disposition ← normalize_disposition requested
  policy ← p.get_by_tenant_id file.tenant_id
  ensure_allowed policy disposition
  url ← object_url p file
  ok (record { file = file; url = url })

pub record RedirectResult : Type 0 where
  pub file : FileView
  pub url : Text
  pub claim : AccessTicketClaims

-- The request that a ticket stands for.
abbrev pub ticket_auth : AccessTicketClaims → AuthContext
ticket_auth claims = record {
  request_id = text "";
  subject_id = claims.subject;
  subject_type = claims.subject_type;
  tenant_id = claims.tenant_id;
  client_id = text "";
  token_id = text "";
  scopes = scope_file_read ∷ [];
}

-- RedirectByAccessTicketHandler.Handle
unfoldable pub redirect_by_access_ticket : Ports → Text → Result RedirectResult
redirect_by_access_ticket p ticket = do
  claims ← or_invalid ticket (p.verify ticket)
  or_invalid ticket (validate_claims claims)
  refuse (not (after claims.expires_at p.now)) (ticket_expired ticket)
  file ← p.get_by_id claims.file_id
  ensure_readable file (ticket_auth claims)
  disposition ← or_invalid ticket (normalize_disposition claims.disposition)
  policy ← p.get_by_tenant_id claims.tenant_id
  ensure_allowed policy disposition
  url ← object_url p file
  ok (record { file = file; url = url; claim = claims })
