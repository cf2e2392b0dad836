-- ===== src/Upload/Complete.antt =====
-- The functions of app/commands/complete_upload_session.go that decide without calling a port: which
-- hash a completed upload has, which size and content type, how an error of the multipart manager
-- is reported, and whether an error makes the session fail.
pub mod Hashes
use zhi_file_service_go.Common.{
  String, Bool, true, false, not, ◌&&◌, ◌||◌, Option, none, some, [], ◌∷◌, if◌then◌else◌, Text,
  text, text_eq, is_empty, trim, to_lower, ℤ, pos, ltb_ℤ,
}
use zhi_file_service_go.Xerrors.{
  Code, Code-discrete, Err, new, wrap, Details, name, str, code_of, is_sentinel,
  multipart_not_found, multipart_conflict, upload_hash_mismatch, upload_hash_unsupported,
  upload_hash_invalid, upload_multipart_not_found, upload_multipart_conflict, service_unavailable,
}
use zhi_file_service_go.Result.{Result, ok, err, ◌>>=◌, ◌>>◌, refuse, Check, accepted}
use zhi_file_service_go.Storage.{ObjectMetadata}
use zhi_file_service_go.Upload.Hash.{ContentHash, normalize, validate_hash, normalize_hash}
use zhi_file_service_go.Upload.Session.{Session}

abbrev pub mismatch : String → Err
mismatch message = new upload_hash_mismatch message (("field", name "contentHash") ∷ [])

-- if normalizedCommand != nil { normalizedCommand.Validate() }
abbrev pub validate_optional : Option ContentHash → Check
validate_optional none = accepted
validate_optional (some h) = validate_hash h

-- Both are there, and they are not the same.
abbrev pub conflict_between : Option ContentHash → Option ContentHash → Bool
conflict_between (some s) (some c) =
    not (text_eq s.algorithm c.algorithm) || not (text_eq s.value c.value)
conflict_between _ _ = false

abbrev pub or_else : Option ContentHash → Option ContentHash → Option ContentHash
or_else (some c) s = some c
or_else none s = s

-- resolveExpectedContentHash
unfoldable pub resolve_expected_content_hash :
    Option ContentHash → Option ContentHash → Result (Option ContentHash)
unfolding validate_hash normalize_hash
resolve_expected_content_hash session_hash command_hash = do
  let command = normalize_hash command_hash
  validate_optional command
  let session = normalize_hash session_hash
  refuse (conflict_between session command) (mismatch "declared hash does not match upload session")
  ok (or_else command session)

abbrev pub verified : Text → Text
verified checksum = to_lower (trim checksum)

abbrev pub derived : Text → ContentHash
derived checksum = record { algorithm = text "SHA256"; value = verified checksum }

-- An error of the validation is dropped: the hash is then nil.
abbrev pub if_accepted : Check → ContentHash → Option ContentHash
if_accepted (ok u) h = some h
if_accepted (err e) h = none

-- resolveCanonicalHash
unfoldable pub resolve_canonical_hash : Option ContentHash → Text → Result (Option ContentHash)
unfolding normalize validate_hash
resolve_canonical_hash (some expected) checksum =
    if is_empty (verified checksum)
    then err (mismatch "verified content hash is missing")
    else if not (text_eq (verified checksum) expected.value)
    then err (mismatch "declared hash does not match verified hash")
    else ok (some (normalize expected))
resolve_canonical_hash none checksum =
    if is_empty (verified checksum)
    then ok none
    else ok (if_accepted (validate_hash (derived checksum)) (derived checksum))

-- effectiveSizeBytes
unfoldable pub effective_size_bytes : ObjectMetadata → ℤ → ℤ
effective_size_bytes metadata fallback =
    if ltb_ℤ (pos 0) metadata.size_bytes then metadata.size_bytes else fallback

-- effectiveContentType
unfoldable pub effective_content_type : ObjectMetadata → Text → Text
effective_content_type metadata fallback =
    if not (is_empty (trim metadata.content_type))
    then trim metadata.content_type
    else trim fallback

-- hashAlgorithm
unfoldable pub hash_algorithm : Option ContentHash → Text
hash_algorithm none = text ""
hash_algorithm (some h) = h.algorithm

-- hashString
unfoldable pub hash_string : Option ContentHash → Text
hash_string none = text ""
hash_string (some h) = h.value

-- The details of wrapMultipartOperationError; the operations are constants without blanks around.
abbrev pub multipart_details : Session → String → String → Details
multipart_details session operation error_type =
    ("resourceType", name "uploadSession")
    ∷ ("resourceId", str session.id)
    ∷ ("uploadSessionId", str session.id)
    ∷ ("providerUploadId", str (trim session.provider_upload_id))
    ∷ ("operation", name operation)
    ∷ ("providerErrorType", name error_type)
    ∷ []

-- wrapMultipartOperationError
unfoldable pub wrap_multipart_operation_error : Session → String → Err → Err
unfolding is_sentinel
wrap_multipart_operation_error session operation e =
    if is_sentinel multipart_not_found e
    then wrap upload_multipart_not_found "multipart upload state is missing in storage provider" e
        (multipart_details session operation "multipartNotFound")
    else if is_sentinel multipart_conflict e
    then wrap upload_multipart_conflict "multipart upload state conflicts with storage provider" e
        (multipart_details session operation "multipartConflict")
    else wrap service_unavailable operation e
        (multipart_details session operation "providerUnavailable")

unfoldable pub is_terminal_code : Code → Bool
is_terminal_code Code.upload_hash_mismatch = true
is_terminal_code Code.upload_hash_unsupported = true
is_terminal_code Code.upload_hash_invalid = true
is_terminal_code Code.upload_multipart_not_found = true
is_terminal_code Code.upload_multipart_conflict = true
is_terminal_code _ = false

abbrev terminal_code_of : Option Code → Bool
unfolding is_terminal_code
terminal_code_of none = false
terminal_code_of (some c) = is_terminal_code c

-- isTerminalCompleteFailure
unfoldable pub is_terminal_complete_failure : Err → Bool
unfolding code_of is_terminal_code
is_terminal_complete_failure e = terminal_code_of (code_of e)
