-- ===== src/Upload/Lifecycle/Runs.antt =====
-- Sequences of the methods of a session, in any order and with any arguments, against the diagram
-- of docs/services/upload-session-state-machine-spec.md. Expiry is an update by the job service.
use zhi_file_service_go.Common.{◌≡◌, refl, ◌⊎◌, true, List, [], ◌∷◌, Text, ℤ, Time, arith}
use zhi_file_service_go.Upload.Status.{
  SessionStatus, initiated, uploading, completing, completed, aborted, failed, is_terminal,
}
use zhi_file_service_go.Upload.Session.{Session}
use zhi_file_service_go.Upload.Validation.{validate}
use zhi_file_service_go.Upload.Lifecycle.{
  mark_uploading, acquire_completion, mark_completed, mark_failed, abort,
}

-- A call of one of the methods.
pub data Call : Type 0 where
  observe : ℤ → Call
  acquire : Text → Time → Call
  succeed : Text → Time → Call
  fail : Text → Text → Time → Call
  stop : Time → Call

-- The session as the call leaves it, whether or not it answers with an error.
unfoldable pub after_call : Call → Session → Session
unfolding mark_uploading acquire_completion mark_completed mark_failed abort
after_call (observe n) s = (mark_uploading n s).1
after_call (acquire token t) s = (acquire_completion token t s).1
after_call (succeed file_id t) s = (mark_completed file_id t s).1
after_call (fail code message t) s = (mark_failed code message t s).1
after_call (stop t) s = (abort t s).1

unfoldable pub after_calls : List Call → Session → Session
after_calls [] s = s
after_calls (c ∷ cs) s = after_calls cs (after_call c s)

-- The arrows of the diagram.
infix 40 ◌⟶◌
pub data ◌⟶◌ : SessionStatus → SessionStatus → Type 0 where
  start : initiated ⟶ uploading
  go_on : uploading ⟶ uploading
  take_initiated : initiated ⟶ completing
  take_uploading : uploading ⟶ completing
  finish : completing ⟶ completed
  break : completing ⟶ failed
  abort_initiated : initiated ⟶ aborted
  abort_uploading : uploading ⟶ aborted

ruleset arrows =
    (start, go_on, take_initiated, take_uploading, finish, break, abort_initiated, abort_uploading)

pub status-validate : (s : Session) → (validate s).1.status ≡ s.status
unfolding validate
status-validate s = ground arith

-- Every call leaves the status alone or follows an arrow of the diagram.
pub after_call-⟶ :
    (c : Call) (s : Session)
    → ((after_call c s).status ≡ s.status) ⊎ (s.status ⟶ (after_call c s).status)
unfolding after_call
after_call-⟶ (observe n) s = grind (arith, arrows)
after_call-⟶ (acquire token t) s = grind (arith, arrows)
after_call-⟶ (succeed file_id t) s = grind (arith, arrows, status-validate)
after_call-⟶ (fail code message t) s = grind (arith, arrows, status-validate)
after_call-⟶ (stop t) s = grind (arith, arrows)

-- A call leaves a session in a terminal state as it is, in every field.
after_call_of_terminal : (c : Call) (s : Session) → is_terminal s.status ≡ true → after_call c s ≡ s
unfolding after_call is_terminal
after_call_of_terminal (observe n) s h = ground arith
after_call_of_terminal _ s h = ground arith

-- Once a session is completed, aborted, expired or failed, no sequence of calls changes it.
pub terminal_absorbs :
    (cs : List Call) (s : Session) → is_terminal s.status ≡ true → after_calls cs s ≡ s
unfolding after_calls
terminal_absorbs [] s h = refl
terminal_absorbs (c ∷ cs) s h =
    let same = after_call_of_terminal c s h in rw same (terminal_absorbs cs s h)
