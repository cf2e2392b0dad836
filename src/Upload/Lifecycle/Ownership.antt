-- ===== src/Upload/Lifecycle/Ownership.antt =====
-- Who owns the completion of a session: AcquireCompletion over any sequence of attempts.
use zhi_file_service_go.Common.{
  ℕ, ◌+◌, ◌≤◌, ◌<◌, ◌≡◌, refl, ap, ◌⊎◌, inl, inr, Bool, true, false, List, [], ◌∷◌, map, All,
  if◌then◌else◌, Text, text_eq, trim, is_blank, is_blank-trim, Time, arith,
}
use zhi_file_service_go.Result.{Result, ok}
use zhi_file_service_go.Upload.Status.{
  SessionStatus, initiated, uploading, completing, CompletionOwnership, acquired, held_by_caller,
  held_by_another,
}
use zhi_file_service_go.Upload.Session.{Session}
use zhi_file_service_go.Upload.Validation.{is_unset}
use zhi_file_service_go.Upload.Lifecycle.{acquire_completion}
use zhi_file_service_go.Upload.Lifecycle.Runs.{Call, acquire, after_call, status-validate}

-- A completion token, and the time of the request that brings it.
abbrev pub Attempt : Type 0
Attempt = Text × Time

-- The answers that a sequence of attempts gets.
unfoldable pub answers : List Attempt → Session → List (Result CompletionOwnership)
answers [] s = []
answers ((token, t) ∷ rest) s =
    (acquire_completion token t s).0 ∷ answers rest (acquire_completion token t s).1

abbrev pub IsOpen : Session → Type 0
IsOpen s = (s.status ≡ initiated) ⊎ (s.status ≡ uploading)

-- An attempt with a token and a time.
abbrev pub IsProper : Attempt → Type 0
IsProper a = (is_blank a.0 ≡ false) × (0 < a.1)

-- What the holder of the token `owner` leaves to an attempt.
abbrev pub seen_by : Text → Attempt → Result CompletionOwnership
seen_by owner a = if text_eq (trim owner) (trim a.0) then ok held_by_caller else ok held_by_another

-- The session is completing on behalf of `owner`.
record IsHeld (owner : Text) (s : Session) : Type 0 where
  completing_now : s.status ≡ completing
  token_kept : s.completion_token ≡ trim owner
  started : is_unset s.completion_started_at ≡ false

first_attempt :
    (a : Attempt) (s : Session)
    → IsOpen s
    → IsProper a
    → ((acquire_completion a.0 a.1 s).0 ≡ ok acquired) × IsHeld a.0 (acquire_completion a.0 a.1 s).1
unfolding acquire_completion
first_attempt a s o p = ground arith

later_attempt :
    (owner : Text) (a : Attempt) (s : Session)
    → is_blank owner ≡ false
    → IsHeld owner s
    → IsProper a
    → acquire_completion a.0 a.1 s ≡ (seen_by owner a, s)
unfolding acquire_completion
later_attempt owner a s b h p = ground (arith, is_blank-trim owner)

later_answers :
    (owner : Text) (rest : List Attempt) (s : Session)
    → is_blank owner ≡ false
    → IsHeld owner s
    → All IsProper rest
    → answers rest s ≡ map (seen_by owner) rest
unfolding answers
later_answers owner [] s b h p = refl
later_answers owner (a ∷ rest) s b h p =
    rw (later_attempt owner a s b h p.0)
      (ap (λ r. seen_by owner a ∷ r) (later_answers owner rest s b h p.1))

-- Of any attempts on an open session the first acquires its completion. Every later one is told
-- that it holds the completion if its token, spaces trimmed, is the first one's, and otherwise that
-- another holds it.
pub first_attempt_wins :
    (first : Attempt) (rest : List Attempt) (s : Session)
    → IsOpen s
    → IsProper first
    → All IsProper rest
    → answers (first ∷ rest) s ≡ ok acquired ∷ map (seen_by first.0) rest
unfolding answers
first_attempt_wins first rest s o p ps =
    let (won, held) = first_attempt first s o p in
    rw (won, later_answers first.0 rest _ p.0 held ps)

-- How many of the calls of a sequence acquire the completion.
abbrev acquires : Result CompletionOwnership → ℕ
acquires (ok acquired) = 1
acquires _ = 0

abbrev acquires_by : Call → Session → ℕ
acquires_by (acquire token t) s = acquires (acquire_completion token t s).0
acquires_by _ s = 0

unfoldable pub acquisitions : List Call → Session → ℕ
acquisitions [] s = 0
acquisitions (c ∷ cs) s = acquires_by c s + acquisitions cs (after_call c s)

abbrev open_status : SessionStatus → Bool
open_status initiated = true
open_status uploading = true
open_status _ = false

closed-after_call :
    (c : Call) (s : Session)
    → open_status s.status ≡ false
    → open_status (after_call c s).status ≡ false
unfolding after_call
closed-after_call c s h = grind (arith, status-validate)

closes-after_call :
    (c : Call) (s : Session)
    → ((acquires_by c s ≡ 0) ⊎ (acquires_by c s ≡ 1))
      × (acquires_by c s ≡ 1 → open_status (after_call c s).status ≡ false)
      × (open_status s.status ≡ false → acquires_by c s ≡ 0)
unfolding after_call
closes-after_call c s = ground arith

closed_acquires_none :
    (cs : List Call) (s : Session) → open_status s.status ≡ false → acquisitions cs s ≡ 0
unfolding acquisitions
closed_acquires_none [] s h = refl
closed_acquires_none (c ∷ cs) s h = omega (
  arith,
  (closes-after_call c s).2 h,
  closed_acquires_none cs (after_call c s) (closed-after_call c s h),
)

-- In any sequence of calls of the methods of a session, in any order, at most one acquires its
-- completion.
pub acquired_at_most_once : (cs : List Call) (s : Session) → acquisitions cs s ≤ 1
unfolding acquisitions
acquired_at_most_once [] s = omega arith
acquired_at_most_once (c ∷ cs) s = elim (closes-after_call c s).0 [
  | inl none ↦ omega (arith, acquired_at_most_once cs (after_call c s))
  | inr one ↦
      omega (arith, closed_acquires_none cs (after_call c s) ((closes-after_call c s).1 one))
]
