-- ===== src/Access/Request.antt =====
-- A request for a ticket, the keys of its idempotency, and the start of
-- CreateAccessTicketHandler.Handle in
-- internal/services/access/app/commands/create_access_ticket.go.
use zhi_file_service_go.Common.{
  ℕ, String, ltb, Option, none, some, List, [], ◌∷◌, ◌++◌, if◌then◌else◌, Text, text, is_empty,
  trim, ℤ, pos, ltb_ℤ, eq_ℤ, ◌+◌,
}
use zhi_file_service_go.Xerrors.{Err, new, wrap, invalid_argument, internal_error, name}
use zhi_file_service_go.Result.{Result, ok, err, ◌>>=◌, ◌>>◌, refuse}
use zhi_file_service_go.Access.File.{AuthContext, require_file_read}
use zhi_file_service_go.Access.Ticket.{DownloadDisposition, disposition_text, normalize_disposition}

pub record CreateAccessTicketCommand : Type 0 where
  pub file_id : Text
  pub idempotency_key : Text
  pub expires_in : ℤ
  pub disposition : DownloadDisposition
  pub response_name : Text
  pub auth : AuthContext

-- The fields of the JSON object of which a fingerprint is the hash.
pub record FingerprintFields : Type 0 where
  pub file_id : Text
  pub tenant_id : Text
  pub subject_id : Text
  pub subject_type : Text
  pub disposition : Text
  pub response_name : Text
  pub ttl_nanos : ℤ

-- The packages that the keys are made with, crypto/sha256 with encoding/hex and encoding/json, and
-- the settings of the handler.
pub record Settings : Type 0 where
  pub sha256_hex : Text → Text
  pub marshal : FingerprintFields → Result Text
  pub default_ttl : ℤ
  pub redirect_base_path : Text

-- len(s): the bytes of the UTF-8 encoding
abbrev pub byte_length : Text → ℕ
byte_length [] = 0
byte_length (c ∷ s) =
    (if ltb c 0x80 then 1 else if ltb c 0x800 then 2 else if ltb c 0x10000 then 3 else 4)
    + byte_length s

-- strings.Join(lines, "\n")
abbrev pub join_lines : List Text → Text
join_lines [] = []
join_lines (s ∷ []) = s
join_lines (s ∷ t ∷ rest) = s ++ text "\n" ++ join_lines (t ∷ rest)

-- buildIdempotencyStorageKey
unfoldable pub build_storage_key : Settings → AuthContext → Text → Text → Text
build_storage_key settings auth file_id key = settings.sha256_hex (
    join_lines (
      trim auth.tenant_id
      ∷ trim auth.subject_type
      ∷ trim auth.subject_id
      ∷ trim file_id
      ∷ trim key
      ∷ []))

-- buildIdempotencyFingerprint
unfoldable pub build_fingerprint :
    Settings → Text → AuthContext → DownloadDisposition → Text → ℤ → Result Text
build_fingerprint settings file_id auth disposition response_name ttl = do
  payload ← settings.marshal (record {
    file_id = file_id;
    tenant_id = auth.tenant_id;
    subject_id = auth.subject_id;
    subject_type = auth.subject_type;
    disposition = disposition_text disposition;
    response_name = response_name;
    ttl_nanos = ttl;
  })
  ok (settings.sha256_hex payload)

-- The key in the store and the fingerprint, where the request has an idempotency key.
pub record Prepared : Type 0 where
  pub disposition : DownloadDisposition
  pub ttl : ℤ
  pub idempotency : Option (Text × Text)

abbrev pub or_internal : Result Text → Result Text
or_internal (ok s) = ok s
or_internal (err e) = err (wrap internal_error "build access ticket idempotency fingerprint" e [])

abbrev pub field_error : String → String → Err
field_error message field = new invalid_argument message (("field", name field) ∷ [])

abbrev pub effective_ttl : Settings → CreateAccessTicketCommand → ℤ
effective_ttl settings command =
    if eq_ℤ command.expires_in (pos 0) then settings.default_ttl else command.expires_in

keys_of : Settings → CreateAccessTicketCommand → DownloadDisposition → Result (Option (Text × Text))
keys_of settings command disposition =
    if is_empty (trim command.idempotency_key) then ok none else (do
      fingerprint ← or_internal (
          build_fingerprint settings command.file_id command.auth disposition command.response_name
            (effective_ttl settings command))
      ok (
          some (
            build_storage_key settings command.auth command.file_id (trim command.idempotency_key),
            fingerprint,
          )))

-- Handle up to the first call of the store.
unfoldable pub prepare : Settings → CreateAccessTicketCommand → Result Prepared
unfolding keys_of
prepare settings command = do
  require_file_read command.auth
  refuse (ltb_ℤ command.expires_in (pos 0))
      (field_error "expiresIn must be >= 0" "expiresInSeconds")
  refuse (ltb 128 (byte_length (trim command.idempotency_key)))
      (field_error "idempotency key is too long" "Idempotency-Key")
  disposition ← normalize_disposition command.disposition
  idempotency ← keys_of settings command disposition
  ok (record {
    disposition = disposition;
    ttl = effective_ttl settings command;
    idempotency = idempotency;
  })
