-- ===== src/Job/Sessions/Kept.antt =====
-- The rows that ExpirePendingSessions and RepairStuckCompleting leave, and the methods of the domain.
use zhi_file_service_go.Common.{
  [], ◌∷◌, ◌≡◌, ◌≤◌, ◌<◌, refl, ap, sym, ◌∙◌, Bool, Bool-cases, inl, inr, true, false, none, some,
  if◌then◌else◌, Text, text, is_empty, is_blank, trim, Time, arith,
}
use zhi_file_service_go.Upload.Status.{completing, completed, expired, failed}
use zhi_file_service_go.Upload.Session.{Session, normalize_updated_at, normalize_time_ptr}
use zhi_file_service_go.Upload.Validation.{normalize_params}
use zhi_file_service_go.Upload.Validation.Facts.{IsValid}
use zhi_file_service_go.Upload.Lifecycle.{mark_completed, mark_failed}
use zhi_file_service_go.Upload.Lifecycle.Validity.{
  as_completed, as_failed, mark_completed_succeeds, mark_failed_succeeds,
}
use zhi_file_service_go.Upload.Rows.{SessionRow, null_string, null_time, string_of, to_row}
use zhi_file_service_go.Upload.Rows.RoundTrip.{TimesGiven}
use zhi_file_service_go.Job.Sessions.{or_now, expire_row, repair_row}

abbrev pub repair_code : Text
repair_code = text "JOB_REPAIR_STUCK_COMPLETING"

abbrev pub repair_message : Text
repair_message = text "repair stuck completing session failed"

-- A session that is completing and has neither completed nor failed before.
pub record IsFresh (s : Session) : Type 0 where
  pub completing : s.status ≡ completing
  pub unfinished : s.completed_at ≡ none
  pub no_code : s.failure_code ≡ []
  pub no_message : s.failure_message ≡ []
  pub file_trimmed : trim s.file_id ≡ s.file_id

null_time_of : (now : Time) → 0 < now → null_time (some now) ≡ some now
unfolding null_time
null_time_of now h = ground arith

file_of : (s : Text) → string_of (null_string s) ≡ s
unfolding null_string
file_of [] = refl
file_of (c ∷ s) = refl

failed_row :
    (code message : Text) (now : Time) (s : Session)
    → 0 < now
    → null_string (trim code) ≡ some code
    → null_string (trim message) ≡ some message
    → record (to_row s) {
      status = failed;
      failed_at = some now;
      failure_code = some code;
      failure_message = some message;
      updated_at = now;
    }
      ≡ to_row (as_failed code message now s)
unfolding to_row
failed_row code message now s p c m = rw (null_time_of now p, c, m) refl

code_written : null_string (trim repair_code) ≡ some repair_code
unfolding null_string trim
code_written = refl

message_written : null_string (trim repair_message) ≡ some repair_message
unfolding null_string trim
message_written = refl

no_file :
    (now : Time) (s : Session)
    → is_empty s.file_id ≡ true
    → repair_row now (to_row s) ≡ record (to_row s) {
      status = failed;
      failed_at = some now;
      failure_code = some repair_code;
      failure_message = some repair_message;
      updated_at = now;
    }
unfolding repair_row to_row null_string
no_file now s h =
    ap
      (λ b.
        if b
        then record (to_row s) {
          status = failed;
          failed_at = some now;
          failure_code = some repair_code;
          failure_message = some repair_message;
          updated_at = now;
        }
        else record (to_row s) {
          status = completed;
          completed_at = some (or_now (null_time s.completed_at) now);
          failure_code = none;
          failure_message = none;
          updated_at = now;
        })
      (ap is_empty (file_of s.file_id) ∙ h)

repair_row_failed :
    (now : Time) (s : Session)
    → 0 < now
    → is_empty s.file_id ≡ true
    → repair_row now (to_row s) ≡ to_row (as_failed repair_code repair_message now s)
repair_row_failed now s p h =
    no_file now s h ∙ failed_row repair_code repair_message now s p code_written message_written

repair_row_completed :
    (now : Time) (s : Session)
    → 0 < now
    → IsFresh s
    → is_empty s.file_id ≡ false
    → repair_row now (to_row s) ≡ to_row (as_completed s.file_id now s)
unfolding repair_row to_row null_string null_time
repair_row_completed now s p f h =
    rw
      (
        file_of s.file_id,
        h,
        f.file_trimmed,
        null_time_of now p,
        f.unfinished,
        f.no_code,
        f.no_message,
      )
      refl

-- What the domain makes of a session whose completion is stuck.
abbrev pub repaired_session : Time → Session → Session
repaired_session now s =
    if is_empty s.file_id
    then (mark_failed repair_code repair_message now s).1
    else (mark_completed s.file_id now s).1

module _ (now : Time) (s : Session) (v : IsValid s) (f : IsFresh s) (c : s.created_at ≤ now) where
  positive : 0 < now
  positive = let k = v.times.created in omega arith

  -- The statement of RepairStuckCompleting does to the row of a valid session that is completing,
  -- has neither completed nor failed before, has no failure code or message, and whose file id has no
  -- spaces around it, what the domain's own methods do to the session: MarkFailed with the repair's
  -- code and message where it has no file, MarkCompleted with its file where it has one. The time of
  -- the statement is not before the session's creation.
  pub repair_row-repaired_session : repair_row now (to_row s) ≡ to_row (repaired_session now s)
  unfolding trim
  repair_row-repaired_session = elim (Bool-cases (is_empty s.file_id)) [
    | inl h ↦
        let done =
          (mark_failed_succeeds repair_code repair_message now s v f.completing refl refl c).0 in
        repair_row_failed now s positive h ∙ ap (λ x. to_row x.1) (sym done) ∙ sym (picked true h)
    | inr h ↦
        let done = (mark_completed_succeeds s.file_id now s v f.completing (named h) c).0 in
        repair_row_completed now s positive f h
        ∙ ap (λ x. to_row x.1) (sym done)
        ∙ sym (picked false h)
  ]
    where
      picked :
          (b : Bool)
          → is_empty s.file_id ≡ b
          → to_row (repaired_session now s)
            ≡ to_row (
                if b
                then (mark_failed repair_code repair_message now s).1
                else (mark_completed s.file_id now s).1)
      picked b h = rw h refl

      named : is_empty s.file_id ≡ false → is_blank s.file_id ≡ false
      named h = ap is_empty f.file_trimmed ∙ h

-- What an upload session's row holds: a valid session, normalised as NewSession does it, with no
-- zero time in it, that was made by `now`.
pub record IsSaved (now : Time) (r : SessionRow) : Type 0 where
  pub of_session : Session
  pub valid : IsValid of_session
  pub normal : normalize_params of_session ≡ of_session
  pub times : TimesGiven of_session
  pub made : of_session.created_at ≤ now
  pub row : r ≡ to_row of_session

abbrev expired_session : Time → Session → Session
expired_session now s = record s {
  status = expired;
  updated_at = now;
  completion_token = [];
  completion_started_at = none;
}

expire_row-to_row :
    (now : Time) (s : Session) → expire_row now (to_row s) ≡ to_row (expired_session now s)
unfolding expire_row to_row null_string null_time
expire_row-to_row now s = refl

updated_now : (t now : Time) → 0 < now → normalize_updated_at t now ≡ now
unfolding normalize_updated_at
updated_now t now h = ground arith

expired-normal :
    (now : Time) (s : Session)
    → 0 < now
    → normalize_params s ≡ s
    → normalize_params (expired_session now s) ≡ expired_session now s
unfolding normalize_params trim normalize_time_ptr
expired-normal now s p n =
    ap
      (λ (u : Time). record (normalize_params s) {
        status = expired;
        updated_at = u;
        completion_token = [];
        completion_started_at = none;
      })
      (updated_now s.created_at now p)
    ∙ ap (λ (x : Session). expired_session now x) n

expired-IsValid :
    (now : Time) (s : Session) → IsValid s → s.created_at ≤ now → IsValid (expired_session now s)
expired-IsValid now s v c = ground arith

pub expire_row-IsSaved :
    (now : Time) (r : SessionRow) → IsSaved now r → IsSaved now (expire_row now r)
expire_row-IsSaved now r h =
    let s = h.of_session in
    let later = h.valid.times.created in
    let made = h.made in
    record {
      of_session = expired_session now s;
      valid = expired-IsValid now s h.valid h.made;
      normal = expired-normal now s (omega arith) h.normal;
      times = record {
        started = tt;
        completed = h.times.completed;
        aborted = h.times.aborted;
        failed = h.times.failed;
      };
      made = h.made;
      row = ap (expire_row now) h.row ∙ expire_row-to_row now s;
    }
