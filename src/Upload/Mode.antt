-- ===== src/Upload/Mode.antt =====
-- domain/session_mode.go of the upload service.
use zhi_file_service_go.Common.{Bool, true, false, [], ◌∷◌, Text, text, ℤ, pos}
use zhi_file_service_go.Xerrors.{Err, new, upload_mode_invalid, str}
use zhi_file_service_go.Result.{Check, err, accepted}

-- A string type: the constants, and any other string.
pub data SessionMode : Type 0 where
  inline presigned_single direct : SessionMode
  other : Text → SessionMode

abbrev pub mode_text : SessionMode → Text
mode_text inline = text "INLINE"
mode_text presigned_single = text "PRESIGNED_SINGLE"
mode_text direct = text "DIRECT"
mode_text (other s) = s

-- errUploadModeInvalid of domain/errors.go
unfoldable pub mode_invalid : SessionMode → Err
mode_invalid m =
    new upload_mode_invalid "upload mode is invalid" (("currentMode", str (mode_text m)) ∷ [])

-- SessionMode.Validate
unfoldable pub validate_mode : SessionMode → Check
validate_mode (other s) = err (mode_invalid (other s))
validate_mode _ = accepted

-- SessionMode.RequiresContentHash
unfoldable pub requires_content_hash : SessionMode → Bool
requires_content_hash presigned_single = true
requires_content_hash direct = true
requires_content_hash _ = false

-- SessionMode.RequiresProviderUploadID
unfoldable pub requires_provider_upload_id : SessionMode → Bool
requires_provider_upload_id direct = true
requires_provider_upload_id _ = false

-- SessionMode.DefaultTotalParts
unfoldable pub default_total_parts : SessionMode → ℤ
default_total_parts direct = pos 0
default_total_parts _ = pos 1
