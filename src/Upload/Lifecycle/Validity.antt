-- ===== src/Upload/Lifecycle/Validity.antt =====
-- The methods that move a session keep it valid, when they are given a time that is not before the
-- session's creation.
use zhi_file_service_go.Common.{
  ◌≤◌, ◌≡◌, true, false, some, is_blank, Text, trim, is_blank-trim, ℤ, leb_ℤ, Time, arith,
}
use zhi_file_service_go.Result.{accepted}
use zhi_file_service_go.Upload.Status.{completing, completed, failed}
use zhi_file_service_go.Upload.Session.{Session}
use zhi_file_service_go.Upload.Validation.Facts.{IsValid}
use zhi_file_service_go.Upload.Validation.Exact.{validate_of_IsValid}
use zhi_file_service_go.Upload.Lifecycle.{
  mark_uploading, acquire_completion, mark_completed, mark_failed, abort,
}

-- MarkUploading keeps a session valid when it is told of no more parts than the session has.
pub mark_uploading-IsValid :
    (n : ℤ) (s : Session)
    → IsValid s
    → leb_ℤ n s.total_parts ≡ true
    → IsValid (mark_uploading n s).1
unfolding mark_uploading
mark_uploading-IsValid n s v h = ground arith

-- AcquireCompletion keeps a session valid, whatever it answers.
pub acquire_completion-IsValid :
    (token : Text) (t : Time) (s : Session)
    → IsValid s
    → s.created_at ≤ t
    → IsValid (acquire_completion token t s).1
unfolding acquire_completion
acquire_completion-IsValid token t s v h = ground (arith, is_blank-trim token)

-- Abort keeps a session valid, whatever it answers.
pub abort-IsValid : (t : Time) (s : Session) → IsValid s → s.created_at ≤ t → IsValid (abort t s).1
unfolding abort
abort-IsValid t s v h = ground arith

-- The session that MarkCompleted hands to Validate.
abbrev pub as_completed : Text → Time → Session → Session
as_completed file_id t s = record s {
  status = completed;
  file_id = trim file_id;
  completed_at = some t;
  updated_at = t;
}

-- The session that MarkFailed hands to Validate.
abbrev pub as_failed : Text → Text → Time → Session → Session
as_failed code message t s = record s {
  status = failed;
  failure_code = trim code;
  failure_message = trim message;
  failed_at = some t;
  updated_at = t;
}

as_completed-IsValid :
    (file_id : Text) (t : Time) (s : Session)
    → IsValid s
    → is_blank file_id ≡ false
    → s.created_at ≤ t
    → IsValid (as_completed file_id t s)
as_completed-IsValid file_id t s v h c = ground (arith, is_blank-trim file_id)

as_failed-IsValid :
    (code message : Text) (t : Time) (s : Session)
    → IsValid s
    → is_blank code ≡ false
    → is_blank message ≡ false
    → s.created_at ≤ t
    → IsValid (as_failed code message t s)
as_failed-IsValid code message t s v h k c = ground arith

-- MarkCompleted succeeds on a valid session that is completing: a file id that is not blank and a
-- time that is not before the creation are all it needs. It sets the status, the file id and the
-- two times and nothing else, and the result is valid.
pub mark_completed_succeeds :
    (file_id : Text) (t : Time) (s : Session)
    → IsValid s
    → s.status ≡ completing
    → is_blank file_id ≡ false
    → s.created_at ≤ t
    → (mark_completed file_id t s ≡ (accepted, as_completed file_id t s))
      × IsValid (as_completed file_id t s)
unfolding mark_completed
mark_completed_succeeds file_id t s v at h c =
    let valid = as_completed-IsValid file_id t s v h c in
    (rw (at, mark_completed) (validate_of_IsValid (as_completed file_id t s) valid), valid)

-- MarkFailed succeeds on a valid session that is completing: a code and a message that are not
-- blank and a time that is not before the creation are all it needs. It sets the status, the
-- failure and the two times and nothing else, and the result is valid.
pub mark_failed_succeeds :
    (code message : Text) (t : Time) (s : Session)
    → IsValid s
    → s.status ≡ completing
    → is_blank code ≡ false
    → is_blank message ≡ false
    → s.created_at ≤ t
    → (mark_failed code message t s ≡ (accepted, as_failed code message t s))
      × IsValid (as_failed code message t s)
unfolding mark_failed
mark_failed_succeeds code message t s v at h k c =
    let valid = as_failed-IsValid code message t s v h k c in
    (rw (at, mark_failed) (validate_of_IsValid (as_failed code message t s) valid), valid)
