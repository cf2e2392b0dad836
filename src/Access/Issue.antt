-- ===== src/Access/Issue.antt =====
-- CreateAccessTicketHandler of internal/services/access/app/commands/create_access_ticket.go over the
-- memory store. What other requests do to the store between two calls of this one is a function.
pub mod Replay
use zhi_file_service_go.Common.{
  add, ℕ, String, Bool, true, false, not, ◌==◌, ltb, Option, none, some, List, [], ◌∷◌, ◌++◌,
  if◌then◌else◌, Text, text, text_eq, is_empty, trim, strip_right, ℤ, pos, ltb_ℤ, eq_ℤ, Time, ◌+◌,
}
use zhi_file_service_go.Xerrors.{
  Err, new, wrap, invalid_argument, service_unavailable, internal_error, conflict, name,
}
use zhi_file_service_go.Result.{Result, ok, err, ◌>>=◌, ◌>>◌, refuse}
use zhi_file_service_go.Access.File.{AuthContext, require_file_read, FileView, ensure_readable}
use zhi_file_service_go.Access.Ticket.{
  DownloadDisposition, disposition_text, AccessTicketClaims, normalize_disposition, validate_claims,
  DownloadPolicy, ensure_allowed,
}
use zhi_file_service_go.Access.Idempotency.{IssueRecord, MemoryStore, get, put_if_absent}
use zhi_file_service_go.Access.Request.{CreateAccessTicketCommand, Settings, Prepared, prepare}

pub record CreateAccessTicketResult : Type 0 where
  pub ticket : Text
  pub redirect_url : Text
  pub expires_at : Time

-- The ports of the handler that it only reads from; Issue makes a ticket of the claims.
pub record IssuePorts : Type 0 where
  pub get_by_id : Text → Result FileView
  pub get_by_tenant_id : Text → Result DownloadPolicy
  pub issue : AccessTicketClaims → Result Text

-- The readings of the clock during one request, and what other requests do to the store in it: before
-- PutIfAbsent, and before the second Get.
pub record Moment : Type 0 where
  pub loaded : Time
  pub issued : Time
  pub cleaned : Time
  pub stored : Time
  pub reloaded : Time
  pub before_put : MemoryStore → MemoryStore
  pub before_reload : MemoryStore → MemoryStore

abbrev pub is_slash : ℕ → Bool
is_slash c = c == b'/'

abbrev pub or_default_path : Text → Text
or_default_path [] = text "/api/v1/access-tickets"
or_default_path (c ∷ s) = c ∷ s

-- buildRedirectURL
unfoldable pub build_redirect_url : Text → Text → Text
build_redirect_url base_path ticket =
    or_default_path (strip_right is_slash (trim base_path))
    ++ text "/"
    ++ ticket
    ++ text "/redirect"

abbrev pub key_in_use : Err
key_in_use =
    new conflict "idempotency key is already used by another access ticket request"
      (("field", name "Idempotency-Key") ∷ [])

-- resolveExistingIdempotentResult
unfoldable pub resolve_existing : IssueRecord → Text → Result CreateAccessTicketResult
resolve_existing r fingerprint =
    if not (text_eq r.fingerprint fingerprint)
    then err key_in_use
    else ok (record { ticket = r.ticket; redirect_url = r.redirect_url; expires_at = r.expires_at })

abbrev pub claims_of :
    CreateAccessTicketCommand → FileView → DownloadDisposition → Time → AccessTicketClaims
claims_of command file disposition expires_at = record {
  file_id = file.file_id;
  tenant_id = file.tenant_id;
  subject = command.auth.subject_id;
  subject_type = command.auth.subject_type;
  disposition = disposition;
  response_name = command.response_name;
  expires_at = expires_at;
}

abbrev pub or_not_issued : Result Text → Result Text
or_not_issued (ok ticket) = ok ticket
or_not_issued (err e) = err (wrap service_unavailable "issue access ticket" e [])

-- Handle from the read of the file to the result.
unfoldable pub issue_ticket :
    Settings
    → IssuePorts
    → CreateAccessTicketCommand
    → Prepared
    → Time
    → Result CreateAccessTicketResult
issue_ticket settings p command prepared now = do
  file ← p.get_by_id command.file_id
  ensure_readable file command.auth
  policy ← p.get_by_tenant_id file.tenant_id
  ensure_allowed policy prepared.disposition
  let expires_at = add now prepared.ttl
  let claims = claims_of command file prepared.disposition expires_at
  validate_claims claims
  ticket ← or_not_issued (p.issue claims)
  ok (record {
    ticket = ticket;
    redirect_url = build_redirect_url settings.redirect_base_path ticket;
    expires_at = expires_at;
  })

abbrev pub record_of_result : Text → CreateAccessTicketResult → IssueRecord
record_of_result fingerprint r = record {
  fingerprint = fingerprint;
  ticket = r.ticket;
  redirect_url = r.redirect_url;
  expires_at = r.expires_at;
}

-- What a request answers, and the store after it.
abbrev pub Answer : Type 0
Answer = Result CreateAccessTicketResult × MemoryStore

abbrev pub reloaded_result : Option IssueRecord → Text → Result CreateAccessTicketResult
reloaded_result none fingerprint =
    err (new service_unavailable "access ticket idempotency record was not found after conflict" [])
reloaded_result (some r) fingerprint = resolve_existing r fingerprint

-- What follows PutIfAbsent.
unfoldable pub after_put :
    Moment → Text → Text → CreateAccessTicketResult → Bool × MemoryStore → Answer
after_put m key fingerprint result (true, s) = (ok result, s)
after_put m key fingerprint result (false, s) =
    let again = get m.reloaded key (m.before_reload s) in
    (reloaded_result again.0 fingerprint, again.1)

unfoldable pub store_result :
    Moment → Text → Text → ℤ → Result CreateAccessTicketResult → MemoryStore → Answer
store_result m key fingerprint ttl (err e) s = (err e, s)
store_result m key fingerprint ttl (ok result) s = after_put m key fingerprint result (
    put_if_absent m.cleaned m.stored key (record_of_result fingerprint result) ttl (m.before_put s))

-- What follows the first Get.
unfoldable pub after_get :
    Moment
    → Text
    → Text
    → ℤ
    → Result CreateAccessTicketResult
    → Option IssueRecord × MemoryStore
    → Answer
after_get m key fingerprint ttl issued (some r, s) = (resolve_existing r fingerprint, s)
after_get m key fingerprint ttl issued (none, s) = store_result m key fingerprint ttl issued s

-- What follows the preparation, for a request without and with a key.
unfoldable pub answer_keyed :
    Moment → ℤ → Result CreateAccessTicketResult → MemoryStore → Option (Text × Text) → Answer
answer_keyed m ttl issued s none = (issued, s)
answer_keyed m ttl issued s (some (key, fingerprint)) =
    after_get m key fingerprint ttl issued (get m.loaded key s)

unfoldable pub create_prepared :
    Settings
    → IssuePorts
    → Moment
    → CreateAccessTicketCommand
    → MemoryStore
    → Result Prepared
    → Answer
create_prepared settings p m command s (err e) = (err e, s)
create_prepared settings p m command s (ok prepared) =
    answer_keyed m prepared.ttl (issue_ticket settings p command prepared m.issued) s
      prepared.idempotency

-- CreateAccessTicketHandler.Handle with a store. The ticket is issued only where the store has no
-- record: issuing changes no state of the service, so it is computed first here.
unfoldable pub create_access_ticket :
    Settings → IssuePorts → Moment → CreateAccessTicketCommand → MemoryStore → Answer
unfolding create_prepared
create_access_ticket settings p m command s =
    create_prepared settings p m command s (prepare settings command)
