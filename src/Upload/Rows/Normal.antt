-- ===== src/Upload/Rows/Normal.antt =====
-- A session that NewSession returned is normalised, and so is written and read back as it is.
use zhi_file_service_go.Common.{
  Bool, true, false, not, ◌&&◌, if◌then◌else◌, eq_ℤ, pos, upper_trim_idem, lower_trim_idem, ◌≡◌,
  refl, ap, sym, ◌∙◌, Option, none, some, trim_idem, Time, arith,
}
use mathlib.Core.Path.{subst}
use zhi_file_service_go.Result.{ok}
use zhi_file_service_go.Upload.Status.{SessionStatus}
use zhi_file_service_go.Upload.Hash.{normalize, ContentHash, normalize_hash}
use zhi_file_service_go.Upload.Mode.{requires_provider_upload_id}
use zhi_file_service_go.Upload.Session.{
  Session, CreateSessionParams, normalize_time_ptr, normalize_updated_at,
}
use zhi_file_service_go.Upload.Validation.{
  normalize_params, fill_total_parts, status_or_initiated, new_session,
}
use zhi_file_service_go.Upload.Validation.Exact.{new_session-ok_iff}

normalize_time_ptr_idem :
    (t : Option Time) → normalize_time_ptr (normalize_time_ptr t) ≡ normalize_time_ptr t
unfolding normalize_time_ptr
normalize_time_ptr_idem t = ground arith

status_or_initiated_idem :
    (s : SessionStatus) → status_or_initiated (status_or_initiated s) ≡ status_or_initiated s
status_or_initiated_idem s = ground arith

normalize_updated_at_idem :
    (c u : Time) → normalize_updated_at c (normalize_updated_at c u) ≡ normalize_updated_at c u
unfolding normalize_updated_at
normalize_updated_at_idem c u = ground arith

normalize_hash_idem :
    (h : Option ContentHash) → normalize_hash (normalize_hash h) ≡ normalize_hash h
unfolding normalize_hash normalize
normalize_hash_idem none = refl
normalize_hash_idem (some h) = rw (upper_trim_idem h.algorithm, lower_trim_idem h.value) refl

normalize_params_idem :
    (p : CreateSessionParams) → normalize_params (normalize_params p) ≡ normalize_params p
unfolding normalize_params
normalize_params_idem p =
    rw
      (
        trim_idem p.id,
        trim_idem p.tenant_id,
        trim_idem p.owner_id,
        trim_idem p.file_name,
        trim_idem p.content_type,
        trim_idem p.provider_upload_id,
        trim_idem p.file_id,
        trim_idem p.completion_token,
        trim_idem p.failure_code,
        trim_idem p.failure_message,
        trim_idem p.resumed_from_session_id,
        trim_idem p.idempotency_key,
        normalize_hash_idem p.hash,
        normalize_time_ptr_idem p.completion_started_at,
        normalize_time_ptr_idem p.completed_at,
        normalize_time_ptr_idem p.aborted_at,
        normalize_time_ptr_idem p.failed_at,
        normalize_updated_at_idem p.created_at p.updated_at,
        status_or_initiated_idem p.status,
      )
      refl

total_of :
    (b : Bool) (s : Session)
    → (if b then record s { total_parts = pos 1 } else s)
      ≡ record s { total_parts = (if b then record s { total_parts = pos 1 } else s).total_parts }
total_of true s = refl
total_of false s = refl

total_only :
    (s : Session) → fill_total_parts s ≡ record s { total_parts = (fill_total_parts s).total_parts }
unfolding fill_total_parts
total_only s = total_of (not (requires_provider_upload_id s.mode) && eq_ℤ s.total_parts (pos 0)) s

normalize_of_fill :
    (s : Session)
    → normalize_params s ≡ s
    → normalize_params (fill_total_parts s) ≡ fill_total_parts s
unfolding normalize_params
normalize_of_fill s h =
    let n = (fill_total_parts s).total_parts in
    ap normalize_params (total_only s)
    ∙ ap (λ (x : Session). record x { total_parts = n }) h
    ∙ sym (total_only s)

pub new_session-normal :
    (p : CreateSessionParams) (s : Session) → new_session p ≡ ok s → normalize_params s ≡ s
new_session-normal p s h =
    let same = ((new_session-ok_iff p s).0 h).0 in
    subst (λ x. normalize_params x ≡ x) (sym same)
      (normalize_of_fill (normalize_params p) (normalize_params_idem p))
