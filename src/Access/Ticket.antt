-- ===== src/Access/Ticket.antt =====
-- internal/services/access/domain/access_ticket.go and tenant_policy.go: the claims of a ticket, and
-- which downloads a tenant's policy allows.
use zhi_file_service_go.Common.{
  String, Bool, [], ◌∷◌, if◌then◌else◌, Text, text, text_eq, is_empty, trim, Time, is_zero,
}
use zhi_file_service_go.Xerrors.{Err, new, invalid_argument, download_not_allowed, name}
use zhi_file_service_go.Result.{Result, ok, err, ◌>>◌, refuse, Check, accepted}

-- A string type: the constants, and any other string.
pub data DownloadDisposition : Type 0 where
  inline attachment : DownloadDisposition
  other : Text → DownloadDisposition

abbrev pub disposition_text : DownloadDisposition → Text
disposition_text inline = text "inline"
disposition_text attachment = text "attachment"
disposition_text (other s) = s

pub record AccessTicketClaims : Type 0 where
  pub file_id : Text
  pub tenant_id : Text
  pub subject : Text
  pub subject_type : Text
  pub disposition : DownloadDisposition
  pub response_name : Text
  pub expires_at : Time

abbrev pub disposition_invalid : Err
disposition_invalid =
    new invalid_argument "invalid download disposition" (("field", name "responseDisposition") ∷ [])

-- NormalizeDisposition
unfoldable pub normalize_disposition : DownloadDisposition → Result DownloadDisposition
normalize_disposition disposition =
    let trimmed = trim (disposition_text disposition) in
    if is_empty trimmed
    then ok attachment
    else if text_eq trimmed (text "inline")
    then ok inline
    else if text_eq trimmed (text "attachment")
    then ok attachment
    else err disposition_invalid

abbrev pub required_claim : String → String → Err
required_claim message field = new invalid_argument message (("field", name field) ∷ [])

-- AccessTicketClaims.Validate
unfoldable pub validate_claims : AccessTicketClaims → Check
validate_claims c = do
  refuse (is_empty c.file_id) (required_claim "file id is required" "fileId")
  refuse (is_empty c.tenant_id) (required_claim "tenant id is required" "tenantId")
  refuse (is_empty c.subject) (required_claim "subject is required" "subject")
  refuse (is_zero c.expires_at) (required_claim "expires at is required" "expiresAt")
  accepted

pub record DownloadPolicy : Type 0 where
  pub tenant_id : Text
  pub download_disabled : Bool
  pub inline_preview_disabled : Bool
  pub attachment_download_disabled : Bool

abbrev pub not_allowed : String → Err
not_allowed reason =
    new download_not_allowed "file download is not allowed by current policy"
      (("reason", name reason) ∷ [])

disposition_allowed : DownloadPolicy → DownloadDisposition → Check
disposition_allowed p inline =
    refuse p.inline_preview_disabled (not_allowed "inline_preview_disabled")
disposition_allowed p attachment =
    refuse p.attachment_download_disabled (not_allowed "attachment_download_disabled")
disposition_allowed p d = accepted

-- TenantPolicy.EnsureAllowed
unfoldable pub ensure_allowed : DownloadPolicy → DownloadDisposition → Check
unfolding disposition_allowed
ensure_allowed p d = do
  refuse p.download_disabled (not_allowed "download_disabled")
  disposition_allowed p d
