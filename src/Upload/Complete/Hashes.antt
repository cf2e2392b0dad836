-- ===== src/Upload/Complete/Hashes.antt =====
-- Which hash a completed upload ends with, and which failures of the storage are final.
use zhi_file_service_go.Common.{
  ◌≡◌, ◌↔◌, false, Option, none, some, Text, text_eq_iff, is_empty, arith, String, ◌||◌,
}
use zhi_file_service_go.Xerrors.{Err, code_of, is_sentinel, multipart_not_found, multipart_conflict}
use zhi_file_service_go.Result.{ok, accepted}
use zhi_file_service_go.Upload.Hash.{ContentHash, normalize, normalize_hash}
use zhi_file_service_go.Upload.Session.{Session}
use zhi_file_service_go.Upload.Complete.{
  verified, conflict_between, validate_optional, or_else, resolve_expected_content_hash,
  resolve_canonical_hash, wrap_multipart_operation_error, is_terminal_code,
  is_terminal_complete_failure,
}

-- Where the session and the command both have a hash, it is the same.
abbrev pub Agree : Option ContentHash → Option ContentHash → Type 0
Agree (some s) (some c) = s ≡ c
Agree _ _ = Unit

conflict-Agree_iff : (s c : Option ContentHash) → (conflict_between s c ≡ false) ↔ Agree s c
conflict-Agree_iff none c = ground arith
conflict-Agree_iff (some s) none = ground arith
conflict-Agree_iff (some s) (some c) =
    ground (arith, text_eq_iff s.algorithm c.algorithm, text_eq_iff s.value c.value)

-- resolveExpectedContentHash returns a hash exactly when the hash of the command, where there is one,
-- is valid, and is that of the session where both are there, each normalised; the result is the
-- hash of the command, or without one that of the session.
pub resolve_expected_content_hash-ok_iff :
    (session command result : Option ContentHash)
    → (resolve_expected_content_hash session command ≡ ok result) ↔ (
        (validate_optional (normalize_hash command) ≡ accepted)
        × Agree (normalize_hash session) (normalize_hash command)
        × (result ≡ or_else (normalize_hash command) (normalize_hash session)))
unfolding resolve_expected_content_hash
resolve_expected_content_hash-ok_iff session command result =
    ground (arith, conflict-Agree_iff (normalize_hash session) (normalize_hash command))

-- With an expected hash, the object is confirmed exactly when the verified checksum, trimmed and in
-- lower case, is the expected value and is not empty; the result is then the expected hash,
-- normalised.
pub resolve_canonical_hash-confirms_iff :
    (expected : ContentHash) (checksum : Text) (result : Option ContentHash)
    → (resolve_canonical_hash (some expected) checksum ≡ ok result) ↔ (
        (is_empty (verified checksum) ≡ false)
        × (verified checksum ≡ expected.value)
        × (result ≡ some (normalize expected)))
unfolding resolve_canonical_hash
resolve_canonical_hash-confirms_iff expected checksum result =
    ground (arith, text_eq_iff (verified checksum) expected.value)

-- An error of the multipart manager makes the completion fail for good exactly when it is one of the
-- two that say that the provider's multipart state is lost or differs.
pub wrap_multipart-is_terminal :
    (session : Session) (operation : String) (e : Err)
    → is_terminal_complete_failure (wrap_multipart_operation_error session operation e)
      ≡ (is_sentinel multipart_not_found e || is_sentinel multipart_conflict e)
unfolding is_terminal_complete_failure wrap_multipart_operation_error code_of is_terminal_code
wrap_multipart-is_terminal session operation e = ground arith
