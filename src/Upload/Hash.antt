-- ===== src/Upload/Hash.antt =====
-- domain/content_hash.go of the upload service.
use zhi_file_service_go.Common.{
  ℕ, String, Bool, true, not, ◌&&◌, ◌||◌, Option, none, some, [], ◌∷◌, ◌==◌, leb, length, Text,
  text, text_eq, is_empty, trim, to_upper, to_lower,
}
use zhi_file_service_go.Xerrors.{
  Err, new, upload_hash_invalid, upload_hash_unsupported, upload_hash_required, str, name,
}
use zhi_file_service_go.Result.{◌>>◌, Check, refuse, accepted}
use zhi_file_service_go.Upload.Mode.{SessionMode, mode_text}

pub record ContentHash : Type 0 where
  pub algorithm : Text
  pub value : Text

-- ContentHash.Normalize
unfoldable pub normalize : ContentHash → ContentHash
normalize h = record { algorithm = to_upper (trim h.algorithm); value = to_lower (trim h.value) }

-- a character of [a-f0-9]
abbrev pub is_hex : ℕ → Bool
is_hex c = leb b'a' c && leb c b'f' || leb b'0' c && leb c b'9'

abbrev pub all_hex : Text → Bool
all_hex [] = true
all_hex (c ∷ s) = is_hex c && all_hex s

-- sha256Pattern, ^[a-f0-9]{64}$
unfoldable pub matches_sha256 : Text → Bool
matches_sha256 s = length s == 64 && all_hex s

-- errUploadHashInvalid, errUploadHashUnsupported and errUploadHashRequired of domain/errors.go
abbrev pub hash_invalid : String → Err
hash_invalid message = new upload_hash_invalid message (("field", name "contentHash") ∷ [])

abbrev pub hash_unsupported : Text → Err
hash_unsupported algorithm =
    new upload_hash_unsupported "content hash algorithm is unsupported"
      (("field", name "contentHash.algorithm") ∷ ("algorithm", str algorithm) ∷ [])

abbrev pub hash_required : SessionMode → Err
hash_required mode =
    new upload_hash_required "content hash is required for upload mode"
      (("uploadMode", str (mode_text mode)) ∷ ("field", name "contentHash") ∷ [])

-- ContentHash.Validate
unfoldable pub validate_hash : ContentHash → Check
unfolding normalize matches_sha256
validate_hash h = do
  let normalized = normalize h
  refuse (is_empty normalized.algorithm || is_empty normalized.value)
      (hash_invalid "content hash algorithm and value are required")
  refuse (not (text_eq normalized.algorithm (text "SHA256")))
      (hash_unsupported normalized.algorithm)
  refuse (not (matches_sha256 normalized.value))
      (hash_invalid "content hash value must be lowercase hex sha256")
  accepted

-- normalizeHash of domain/session.go and of app/commands/create_upload_session.go, and cloneHash
-- of app/commands/complete_upload_session.go: nil stays nil.
unfoldable pub normalize_hash : Option ContentHash → Option ContentHash
normalize_hash none = none
normalize_hash (some h) = some (normalize h)
