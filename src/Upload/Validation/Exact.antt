-- ===== src/Upload/Validation/Exact.antt =====
-- What Session.Validate accepts, and what NewSession returns, said without the order of the checks.
use zhi_file_service_go.Common.{◌≡◌, sym, ap, ◌∙◌, ◌↔◌, arith}
use zhi_file_service_go.Result.{Check, ok, accepted}
use mathlib.Core.Path.{subst}
use zhi_file_service_go.Upload.Session.{Session, CreateSessionParams}
use zhi_file_service_go.Upload.Validation.{
  fill_total_parts, validate_head, validate_tail, validate, checked, normalize_params, new_session,
}
use zhi_file_service_go.Upload.Validation.Facts.{
  HasIdentity, IsValid, HeadFacts, TailFacts, validate_head_facts, validate_head_accepts,
  validate_tail_facts,
}

-- The write of TotalParts leaves all but TotalParts, and the parts are as the mode wants them.
module _ (s : Session) where
  IsValid-of_facts : HeadFacts s → TailFacts (fill_total_parts s) → IsValid (fill_total_parts s)
  unfolding fill_total_parts
  IsValid-of_facts h t = ground arith

  head_of_IsValid : IsValid (fill_total_parts s) → HeadFacts s
  unfolding fill_total_parts
  head_of_IsValid v = ground arith

  tail_of_IsValid : IsValid (fill_total_parts s) → TailFacts (fill_total_parts s)
  unfolding fill_total_parts
  tail_of_IsValid v = ground arith

validate_of_head :
    (s : Session)
    → validate_head s ≡ accepted
    → validate s ≡ (validate_tail (fill_total_parts s), fill_total_parts s)
unfolding validate
validate_of_head s h = rw (h, validate)

head_of_validate : (s : Session) → (validate s).0 ≡ accepted → validate_head s ≡ accepted
unfolding validate
head_of_validate s h = ground arith

kinds_of_fill :
    (s : Session) → ((fill_total_parts s).mode ≡ s.mode) × ((fill_total_parts s).status ≡ s.status)
unfolding fill_total_parts
kinds_of_fill s = ground arith

tail_iff :
    (s : Session)
    → HasIdentity s
    → (validate_tail (fill_total_parts s) ≡ accepted) ↔ TailFacts (fill_total_parts s)
tail_iff s i =
    validate_tail_facts (fill_total_parts s) (rw (kinds_of_fill s).0 i.mode_known)
      (rw (kinds_of_fill s).1 i.status_known)

-- Validate accepts a session exactly when the session, its TotalParts filled in, is valid.
pub validate-accepts_iff :
    (s : Session) → ((validate s).0 ≡ accepted) ↔ IsValid (fill_total_parts s)
validate-accepts_iff s = (
  λ h.
      let head = head_of_validate s h in
      let f = validate_head_facts s head in
      IsValid-of_facts s f (
        (tail_iff s f.identity).0
          (sym (ap (λ (r : Check × Session). r.0) (validate_of_head s head)) ∙ h)),
  λ v.
      let f = head_of_IsValid s v in
      rw (validate_of_head s (validate_head_accepts s f))
        ((tail_iff s f.identity).1 (tail_of_IsValid s v)),
)

-- What Validate accepts it leaves as it is, but for TotalParts: 0 becomes 1 without multipart upload.
pub validate-session :
    (s : Session) → (validate s).0 ≡ accepted → (validate s).1 ≡ fill_total_parts s
validate-session s h = rw (validate_of_head s (head_of_validate s h))

pub fill_of_IsValid : (s : Session) → IsValid s → fill_total_parts s ≡ s
unfolding fill_total_parts
fill_of_IsValid s v = ground arith

-- A valid session passes Validate unchanged.
pub validate_of_IsValid : (s : Session) → IsValid s → validate s ≡ (accepted, s)
validate_of_IsValid s v =
    let same = fill_of_IsValid s v in
    let h : (validate s).0 ≡ accepted = (validate-accepts_iff s).1 (rw same v) in
    ap (λ (c : Check). (c, (validate s).1)) h
    ∙ ap (λ (t : Session). (accepted, t)) (validate-session s h ∙ same)

checked-eq-ok :
    (r : Check × Session) {s : Session} → checked r ≡ ok s → (r.0 ≡ accepted) × (r.1 ≡ s)
checked-eq-ok r h = ground arith

checked_of_passed : (r : Check × Session) → r.0 ≡ accepted → checked r ≡ ok r.1
checked_of_passed r h = ground arith

-- NewSession returns the session of its parameters, spaces trimmed, the hash normalised and
-- TotalParts filled in, exactly when that session is valid.
pub new_session-ok_iff :
    (p : CreateSessionParams) (s : Session)
    → (new_session p ≡ ok s) ↔ ((s ≡ fill_total_parts (normalize_params p)) × IsValid s)
unfolding new_session
new_session-ok_iff p s = (
  λ h.
      let (passed, same) = checked-eq-ok (validate (normalize_params p)) h in
      let filled = sym (validate-session (normalize_params p) passed) ∙ same in
      (sym filled, subst IsValid filled ((validate-accepts_iff (normalize_params p)).0 passed)),
  λ f.
      let passed = (validate-accepts_iff (normalize_params p)).1 (subst IsValid f.0 f.1) in
      checked_of_passed (validate (normalize_params p)) passed
      ∙ ap (λ (t : Session). ok t) (validate-session (normalize_params p) passed ∙ sym f.0),
)
