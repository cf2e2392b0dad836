-- ===== src/Upload/Lifecycle.antt =====
-- The methods of internal/services/upload/domain/session.go that move a session through its
-- states. A method returns its answer and the session as it leaves it, also where it fails.
pub mod Validity
pub mod Runs
pub mod Ownership
use zhi_file_service_go.Common.{
  not, ◌&&◌, some, [], ◌∷◌, if◌then◌else◌, Text, text_eq, is_empty, trim, ℤ, ltb_ℤ, Time, utc,
}
use zhi_file_service_go.Result.{Result, ok, err, Check, accepted}
use zhi_file_service_go.Upload.Status.{
  SessionStatus, initiated, uploading, completing, completed, aborted, expired, failed,
  state_conflict, CompletionOwnership, acquired, held_by_caller, held_by_another, already_done,
}
use zhi_file_service_go.Upload.Session.{Session}
use zhi_file_service_go.Upload.Validation.{validate, validate_ownership}

start_uploading : ℤ → Session → Check × Session
start_uploading completed_parts s = (
  accepted,
  record s {
    status = uploading;
    completed_parts =
        if ltb_ℤ s.completed_parts completed_parts then completed_parts else s.completed_parts;
  },
)

mark_uploading_at : SessionStatus → ℤ → Session → Check × Session
unfolding start_uploading
mark_uploading_at initiated n s = start_uploading n s
mark_uploading_at uploading n s = start_uploading n s
mark_uploading_at status n s = (err (state_conflict status (initiated ∷ uploading ∷ [])), s)

-- Session.MarkUploading
unfoldable pub mark_uploading : ℤ → Session → Check × Session
unfolding mark_uploading_at
mark_uploading completed_parts s = mark_uploading_at s.status completed_parts s

take_completion : Text → Time → Session → Result CompletionOwnership × Session
take_completion token started_at s = (
  ok acquired,
  record s {
    status = completing;
    completion_token = trim token;
    completion_started_at = some (utc started_at);
    updated_at = utc started_at;
  },
)

-- The owner of a session that is completing, as the caller with `token` sees it.
owner_seen_by : Text → Session → Check → Result CompletionOwnership
owner_seen_by token s (err e) = err e
owner_seen_by token s (ok _) =
    if text_eq s.completion_token (trim token) then ok held_by_caller else ok held_by_another

acquire_at : SessionStatus → Text → Time → Session → Result CompletionOwnership × Session
unfolding take_completion owner_seen_by validate_ownership
acquire_at initiated token t s = take_completion token t s
acquire_at uploading token t s = take_completion token t s
acquire_at completing token t s =
    (owner_seen_by token s (validate_ownership s.completion_token s.completion_started_at), s)
acquire_at completed token t s = (ok already_done, s)
acquire_at status token t s =
    (err (state_conflict status (initiated ∷ uploading ∷ completing ∷ completed ∷ [])), s)

acquire_checked : Check → Text → Time → Session → Result CompletionOwnership × Session
unfolding acquire_at
acquire_checked (err e) token t s = (err e, s)
acquire_checked (ok _) token t s = acquire_at s.status token t s

-- Session.AcquireCompletion
unfoldable pub acquire_completion : Text → Time → Session → Result CompletionOwnership × Session
unfolding acquire_checked validate_ownership
acquire_completion token started_at s =
    acquire_checked (validate_ownership token (some started_at)) token started_at s

mark_completed_at : SessionStatus → Text → Time → Session → Check × Session
mark_completed_at completed file_id t s =
    if not (is_empty s.file_id) && not (text_eq s.file_id (trim file_id))
    then (err (state_conflict completed (completed ∷ [])), s)
    else (accepted, s)
mark_completed_at completing file_id t s = validate (record s {
  status = completed;
  file_id = trim file_id;
  completed_at = some (utc t);
  updated_at = utc t;
})
mark_completed_at status file_id t s =
    (err (state_conflict status (completing ∷ completed ∷ [])), s)

-- Session.MarkCompleted
unfoldable pub mark_completed : Text → Time → Session → Check × Session
unfolding mark_completed_at
mark_completed file_id completed_at s = mark_completed_at s.status file_id completed_at s

mark_failed_at : SessionStatus → Text → Text → Time → Session → Check × Session
mark_failed_at failed code message t s = (accepted, s)
mark_failed_at completing code message t s = validate (record s {
  status = failed;
  failure_code = trim code;
  failure_message = trim message;
  failed_at = some (utc t);
  updated_at = utc t;
})
mark_failed_at status code message t s = (err (state_conflict status (completing ∷ failed ∷ [])), s)

-- Session.MarkFailed
unfoldable pub mark_failed : Text → Text → Time → Session → Check × Session
unfolding mark_failed_at
mark_failed code message failed_at s = mark_failed_at s.status code message failed_at s

start_abort : Time → Session → Check × Session
start_abort t s =
    (accepted, record s { status = aborted; aborted_at = some (utc t); updated_at = utc t })

abort_at : SessionStatus → Time → Session → Check × Session
unfolding start_abort
abort_at aborted t s = (accepted, s)
abort_at expired t s = (accepted, s)
abort_at failed t s = (accepted, s)
abort_at initiated t s = start_abort t s
abort_at uploading t s = start_abort t s
abort_at completed t s = (err (state_conflict completed (initiated ∷ uploading ∷ [])), s)
abort_at status t s =
    (err (state_conflict status (initiated ∷ uploading ∷ aborted ∷ expired ∷ failed ∷ [])), s)

-- Session.Abort
unfoldable pub abort : Time → Session → Check × Session
unfolding abort_at
abort aborted_at s = abort_at s.status aborted_at s
