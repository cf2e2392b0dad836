-- ===== src/Upload/Policy.antt =====
-- The pure parts of internal/services/upload/app/commands/create_upload_session.go, and the lifetime
-- of a presigned URL of presign_multipart_parts.go. A set of modes is a list, a nil set the empty one.
pub mod Limits
use zhi_file_service_go.Common.{
  ◌≡◌, refl, ℕ, Bool, true, false, not, ◌&&◌, ◌||◌, String, List, [], ◌∷◌, ◌++◌, map, any, is_nil,
  if◌then◌else◌, Text, text, text_eq, is_empty, trim, strip, ◌==◌, map, fold_char, ℤ, pos, ltb_ℤ,
  leb_ℤ,
}
use zhi_file_service_go.Xerrors.{
  Err, new, upload_mode_invalid, tenant_quota_exceeded, mime_type_not_allowed, str, name, int,
}
use zhi_file_service_go.Result.{◌>>=◌, ◌>>◌, refuse, Check, accepted}
use zhi_file_service_go.Storage.{AccessLevel, private}
use zhi_file_service_go.Upload.Mode.{SessionMode, inline, direct, mode_text, default_total_parts}

-- TenantUploadPolicy of ports/tenant_policy_reader.go
pub record TenantUploadPolicy : Type 0 where
  pub allow_inline_upload : Bool
  pub allow_multipart : Bool
  pub max_inline_size : ℤ
  pub max_file_size : ℤ
  pub allowed_mime_types : List Text

-- newUploadModeRejected, newTenantQuotaExceeded and newMimeTypeNotAllowed
abbrev pub upload_mode_rejected : SessionMode → String → Err
upload_mode_rejected mode reason =
    new upload_mode_invalid "upload mode is not allowed by current policy"
      (("uploadMode", str (mode_text mode)) ∷ ("reason", name reason) ∷ [])

abbrev pub quota_exceeded : ℤ → Err
quota_exceeded limit = new tenant_quota_exceeded "tenant quota exceeded" (("limit", int limit) ∷ [])

abbrev pub mime_type_refused : Text → Err
mime_type_refused content_type =
    new mime_type_not_allowed "mime type is not allowed" (("contentType", str content_type) ∷ [])

-- strings.EqualFold, by letters that fold to ASCII ones
abbrev pub equal_fold : Text → Text → Bool
equal_fold s t = text_eq (map fold_char s) (map fold_char t)

-- containsFold
unfoldable pub contains_fold : List Text → Text → Bool
contains_fold values target = any (λ value. equal_fold (trim value) (trim target)) values

-- limit > 0 && size > limit
abbrev pub exceeds : ℤ → ℤ → Bool
exceeds limit size = ltb_ℤ (pos 0) limit && ltb_ℤ limit size

validate_mode_policy : TenantUploadPolicy → SessionMode → ℤ → Check
validate_mode_policy policy inline size_bytes = do
  refuse (not policy.allow_inline_upload) (upload_mode_rejected inline "inline_upload_disabled")
  refuse (exceeds policy.max_inline_size size_bytes)
      (upload_mode_rejected inline "max_inline_size_exceeded")
  accepted
validate_mode_policy policy direct size_bytes =
    refuse (not policy.allow_multipart) (upload_mode_rejected direct "multipart_upload_disabled")
validate_mode_policy policy mode size_bytes = accepted

-- validateUploadPolicy
unfoldable pub validate_upload_policy : TenantUploadPolicy → SessionMode → Text → ℤ → Check
unfolding validate_mode_policy contains_fold
validate_upload_policy policy mode content_type size_bytes = do
  refuse (exceeds policy.max_file_size size_bytes) (quota_exceeded policy.max_file_size)
  refuse
      (not (is_nil policy.allowed_mime_types)
        && not (contains_fold policy.allowed_mime_types content_type))
      (mime_type_refused content_type)
  validate_mode_policy policy mode size_bytes

-- normalizeAccessLevel
unfoldable pub normalize_access_level : AccessLevel → AccessLevel
normalize_access_level (AccessLevel.other []) = private
normalize_access_level level = level

-- normalizeTotalParts
unfoldable pub normalize_total_parts : SessionMode → ℤ → ℤ
unfolding default_total_parts
normalize_total_parts mode total_parts =
    if ltb_ℤ (pos 0) total_parts then total_parts else default_total_parts mode

-- normalizePresignTTL; a time.Duration is its nanoseconds.
unfoldable pub normalize_presign_ttl : ℤ → ℤ → ℤ → ℤ
normalize_presign_ttl value default_ttl max_ttl =
    if leb_ℤ value (pos 0) then default_ttl else if ltb_ℤ max_ttl value then max_ttl else value

-- The characters that the replacer of sanitizeFileName turns into underscores.
abbrev pub is_separator : ℕ → Bool
is_separator c = c == b'/' || c == b'\\' || c == b' '

abbrev pub is_dot_or_underscore : ℕ → Bool
is_dot_or_underscore c = c == b'.' || c == b'_'

abbrev pub or_file : Text → Text
or_file [] = text "file"
or_file (c ∷ s) = c ∷ s

-- sanitizeFileName
unfoldable pub sanitize_file_name : Text → Text
sanitize_file_name file_name =
    or_file
      (strip is_dot_or_underscore (trim (map (λ c. if is_separator c then b'_' else c) file_name)))

sanitizes : sanitize_file_name (text " ../a b\\c.txt") ≡ text "a_b_c.txt"
unfolding sanitize_file_name strip trim
sanitizes = refl
