-- ===== src/Access/Token.antt =====
-- internal/services/access/infra/token/hmac_ticket_issuer.go: tickets that carry their claims, signed.
-- The encodings and the MAC are functions of the settings. A string of bytes is a Text.
pub mod RoundTrip
pub mod Signed
use zhi_file_service_go.Common.{
  ℕ, ◌+◌, ◌*◌, ◌/◌, difference, String, Bool, true, false, not, ◌&&◌, ◌||◌, Option, none, some, [],
  ◌∷◌, ◌++◌, if◌then◌else◌, ◌==◌, Text, text, text_eq, is_blank, is_empty, trim, ℤ, pos, negsuc,
  Time, add,
}
use zhi_file_service_go.Xerrors.{Err, errorf, annotated}
use zhi_file_service_go.Result.{Result, ok, err, ◌>>=◌, ◌>>◌, refuse, Check}
use zhi_file_service_go.Access.Ticket.{
  DownloadDisposition, disposition_text, AccessTicketClaims, validate_claims,
}

-- ticketPrefix
abbrev pub ticket_prefix : Text
ticket_prefix = text "at_"

pub record SignedClaims : Type 0 where
  pub file_id : Text
  pub tenant_id : Text
  pub subject : Text
  pub subject_type : Text
  pub disposition : Text
  pub response_name : Text
  pub expires_at : ℤ

-- encoding/base64's RawURLEncoding, encoding/json, and HMAC with SHA-256 under a key.
pub record TokenSettings : Type 0 where
  pub encode : Text → Text
  pub decode : Text → Result Text
  pub marshal : SignedClaims → Result Text
  pub unmarshal : Text → Result SignedClaims
  pub mac : Text → Text → Text
  pub key : Text

-- The seconds from year 1 to 1970, and the nanoseconds of a second.
abbrev pub unix_epoch : ℕ
unix_epoch = 62135596800

abbrev pub nanoseconds : ℕ
nanoseconds = 1000000000

-- t.Unix(), and time.Unix(seconds, 0) where that is not before the zero time
abbrev pub unix : Time → ℤ
unix t = difference (t / nanoseconds) unix_epoch

abbrev pub of_unix : ℤ → Time
of_unix seconds = add unix_epoch seconds * nanoseconds

-- DownloadDisposition(s)
abbrev pub disposition_of_text : Text → DownloadDisposition
disposition_of_text s =
    if text_eq s (text "inline")
    then DownloadDisposition.inline
    else if text_eq s (text "attachment")
    then DownloadDisposition.attachment
    else DownloadDisposition.other s

-- The claims that Issue signs, and those that Verify reads.
abbrev pub to_signed : AccessTicketClaims → SignedClaims
to_signed c = record {
  file_id = c.file_id;
  tenant_id = c.tenant_id;
  subject = c.subject;
  subject_type = c.subject_type;
  disposition = disposition_text c.disposition;
  response_name = c.response_name;
  expires_at = unix c.expires_at;
}

abbrev pub of_signed : SignedClaims → AccessTicketClaims
of_signed s = record {
  file_id = s.file_id;
  tenant_id = s.tenant_id;
  subject = s.subject;
  subject_type = s.subject_type;
  disposition = disposition_of_text s.disposition;
  response_name = s.response_name;
  expires_at = of_unix s.expires_at;
}

abbrev pub invalid : String → Err
invalid message = errorf message []

abbrev pub after_error {ℓ} : {A : Type ℓ} → String → Result A → Result A
after_error message (ok a) = ok a
after_error message (err e) = err (annotated message e)

-- strings.HasPrefix with strings.TrimPrefix: what follows the prefix, if it is there
unfoldable pub after_prefix : Text → Text → Option Text
after_prefix [] s = some s
after_prefix (c ∷ p) [] = none
after_prefix (c ∷ p) (d ∷ s) = if c == d then after_prefix p s else none

abbrev begun_with : ℕ → Option (Text × Text) → Option (Text × Text)
begun_with c none = none
begun_with c (some (a, b)) = some (c ∷ a, b)

-- strings.SplitN(s, ".", 2), of two parts
unfoldable pub split_dot : Text → Option (Text × Text)
split_dot [] = none
split_dot (c ∷ s) = let rest = split_dot s in if c == b'.' then some ([], s) else begun_with c rest

-- HMACTicketIssuer.sign
unfoldable pub sign : TokenSettings → Text → Text
sign settings payload = settings.encode (settings.mac settings.key payload)

-- HMACTicketIssuer.Issue
unfoldable pub issue : TokenSettings → AccessTicketClaims → Result Text
unfolding sign
issue settings c = do
  validate_claims c
  payload ← after_error "marshal ticket claims" (settings.marshal (to_signed c))
  let encoded = settings.encode payload
  ok (ticket_prefix ++ (encoded ++ (text "." ++ sign settings encoded)))

-- Verify from the two parts on.
unfoldable pub verify_parts : TokenSettings → Text → Text → Result AccessTicketClaims
unfolding sign
verify_parts settings payload signature = do
  refuse (is_blank payload || is_blank signature) (invalid "invalid ticket format")
  refuse (not (text_eq (sign settings payload) signature)) (invalid "invalid ticket signature")
  raw ← after_error "decode ticket payload" (settings.decode payload)
  s ← after_error "unmarshal ticket payload" (settings.unmarshal raw)
  ok (of_signed s)

unfoldable pub verify_split : TokenSettings → Option (Text × Text) → Result AccessTicketClaims
unfolding verify_parts
verify_split settings none = err (invalid "invalid ticket format")
verify_split settings (some (payload, signature)) = verify_parts settings payload signature

unfoldable pub verify_body : TokenSettings → Option Text → Result AccessTicketClaims
unfolding verify_split split_dot
verify_body settings none = err (invalid "invalid ticket prefix")
verify_body settings (some body) = verify_split settings (split_dot body)

-- HMACTicketIssuer.Verify
unfoldable pub verify : TokenSettings → Text → Result AccessTicketClaims
unfolding verify_body after_prefix
verify settings ticket = verify_body settings (after_prefix ticket_prefix (trim ticket))
