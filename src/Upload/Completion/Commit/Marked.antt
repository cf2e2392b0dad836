-- ===== src/Upload/Completion/Commit/Marked.antt =====
-- What MarkCompleted leaves of a session, and what querySession makes of a row.
use zhi_file_service_go.Common.{◌≡◌, refl, ap, sym, ◌∙◌, false, Text, trim, Time, arith}
use mathlib.Core.Path.{subst}
use zhi_file_service_go.Result.{ok, accepted}
use zhi_file_service_go.Upload.Status.{completed, completing, is_completed}
use zhi_file_service_go.Upload.Session.{Session}
use zhi_file_service_go.Upload.Validation.{fill_total_parts, normalize_params, validate}
use zhi_file_service_go.Upload.Validation.Facts.{IsValid}
use zhi_file_service_go.Upload.Validation.Exact.{validate-session, new_session-ok_iff}
use zhi_file_service_go.Upload.Lifecycle.{mark_completed}
use zhi_file_service_go.Upload.Lifecycle.Validity.{as_completed}
use zhi_file_service_go.Upload.Rows.{SessionRow, string_of, row_params, from_row}

-- What MarkCompleted leaves of a session that was not completed.
pub record Marked (file_id : Text) (s marked : Session) : Type 0 where
  pub was : s.status ≡ completing
  pub now : marked.status ≡ completed
  pub file : marked.file_id ≡ trim file_id
  pub id : marked.id ≡ s.id
  pub tenant : marked.tenant_id ≡ s.tenant_id
  pub token : marked.completion_token ≡ s.completion_token

pub fill-keeps :
    (file_id : Text) (s : Session) (before : Session)
    → before.status ≡ completing
    → s.status ≡ completed
    → s.file_id ≡ trim file_id
    → s.id ≡ before.id
    → s.tenant_id ≡ before.tenant_id
    → s.completion_token ≡ before.completion_token
    → Marked file_id before (fill_total_parts s)
unfolding fill_total_parts
fill-keeps file_id s before a b c d e f = ground arith

pub was_completing :
    (file_id : Text) (t : Time) (s : Session)
    → is_completed s.status ≡ false
    → (mark_completed file_id t s).0 ≡ accepted
    → s.status ≡ completing
unfolding mark_completed
was_completing file_id t s open_one h = ground arith

pub validated :
    (file_id : Text) (t : Time) (s : Session)
    → s.status ≡ completing
    → mark_completed file_id t s ≡ validate (as_completed file_id t s)
unfolding mark_completed
validated file_id t s was = rw was refl

pub mark_completed-Marked :
    (file_id : Text) (t : Time) (s marked : Session)
    → is_completed s.status ≡ false
    → mark_completed file_id t s ≡ (accepted, marked)
    → Marked file_id s marked
mark_completed-Marked file_id t s marked unfinished h =
    let was = was_completing file_id t s unfinished (ap (λ c. c.0) h) in
    let done = sym (validated file_id t s was) ∙ h in
    let same =
      sym (validate-session (as_completed file_id t s) (ap (λ c. c.0) done)) ∙ ap (λ c. c.1) done in
    subst (Marked file_id s) same
      (fill-keeps file_id (as_completed file_id t s) s was refl refl refl refl refl)

pub record ReadFrom (r : SessionRow) (s : Session) : Type 0 where
  pub valid : IsValid s
  pub id : s.id ≡ trim r.upload_session_id
  pub tenant : s.tenant_id ≡ trim r.tenant_id
  pub file : s.file_id ≡ trim (string_of r.file_id)
  pub token : s.completion_token ≡ trim (string_of r.completion_token)

pub from_row-ReadFrom : (r : SessionRow) (s : Session) → from_row r ≡ ok s → ReadFrom r s
unfolding from_row row_params normalize_params fill_total_parts
from_row-ReadFrom r s h =
    let (same, valid) = (new_session-ok_iff (row_params r) s).0 h in ground arith

pub completed_row :
    (r : SessionRow) (s : Session) → from_row r ≡ ok s → r.status ≡ completed → s.status ≡ completed
unfolding from_row row_params normalize_params fill_total_parts
completed_row r s h c =
    let (same, valid) = (new_session-ok_iff (row_params r) s).0 h in ground arith
