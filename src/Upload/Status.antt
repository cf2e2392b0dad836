-- ===== src/Upload/Status.antt =====
-- domain/session_status.go and domain/completion_ownership.go of the upload service.
use zhi_file_service_go.Common.{Bool, true, false, List, [], ◌∷◌, map, Text, text}
use zhi_file_service_go.Xerrors.{Err, new, upload_session_state_conflict, str, strs}
use zhi_file_service_go.Result.{Check, err, accepted}

-- A string type: the constants, and any other string, "" among them.
pub data SessionStatus : Type 0 where
  initiated uploading completing completed aborted expired failed : SessionStatus
  other : Text → SessionStatus

abbrev pub status_text : SessionStatus → Text
status_text initiated = text "INITIATED"
status_text uploading = text "UPLOADING"
status_text completing = text "COMPLETING"
status_text completed = text "COMPLETED"
status_text aborted = text "ABORTED"
status_text expired = text "EXPIRED"
status_text failed = text "FAILED"
status_text (other s) = s

-- errUploadSessionStateConflict of domain/errors.go
unfoldable pub state_conflict : SessionStatus → List SessionStatus → Err
state_conflict current allowed = new upload_session_state_conflict "upload session state conflict" (
    ("currentStatus", str (status_text current))
    ∷ ("allowedStatus", strs (map status_text allowed))
    ∷ [])

-- SessionStatus.Validate
unfoldable pub validate_status : SessionStatus → Check
validate_status (other s) = err (state_conflict (other s) [])
validate_status _ = accepted

-- SessionStatus.IsTerminal
unfoldable pub is_terminal : SessionStatus → Bool
is_terminal completed = true
is_terminal aborted = true
is_terminal expired = true
is_terminal failed = true
is_terminal _ = false

-- s.Status == SessionStatusCompleting, and so on
abbrev pub is_completing : SessionStatus → Bool
is_completing completing = true
is_completing _ = false

abbrev pub is_completed : SessionStatus → Bool
is_completed completed = true
is_completed _ = false

abbrev pub is_failed : SessionStatus → Bool
is_failed failed = true
is_failed _ = false

pub data CompletionOwnership : Type 0 where
  acquired held_by_caller held_by_another already_done : CompletionOwnership

-- CompletionOwnership.OwnsCompletion
unfoldable pub owns_completion : CompletionOwnership → Bool
owns_completion acquired = true
owns_completion held_by_caller = true
owns_completion _ = false
