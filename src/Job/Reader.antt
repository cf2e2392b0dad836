-- ===== src/Job/Reader.antt =====
-- OutboxReader of internal/services/job/infra/postgres/repositories.go. The rows of other services'
-- events are like those of the upload service's. The payload is handed on as the text it is, once
-- json.Unmarshal has accepted it.
pub mod Leases
pub mod Settled
use zhi_file_service_go.Common.{
  ◌+◌, ◌+ℤ◌, ℕ, Bool, true, false, not, ◌&&◌, ◌||◌, Option, none, some, List, [], ◌∷◌, is_nil,
  is_empty, if◌then◌else◌, any, map, leb, Text, text_eq, trim, ℤ, pos, Time,
}
use zhi_file_service_go.Common.Sorting.{sort}
use zhi_file_service_go.Xerrors.{Err}
use zhi_file_service_go.Result.{Result, ok, err, Check, accepted}
use zhi_file_service_go.Upload.Tables.{
  OutboxRow, OutboxStatus, pending, published, failed, Tables, update_where, keep_where,
}
use zhi_file_service_go.Job.Sessions.{or_now}
use zhi_file_service_go.Job.Maintenance.{Database, oldest, is_among}

-- outboxClaimLease, in nanoseconds
abbrev pub claim_lease : ℕ
claim_lease = 300000000000

-- ClaimOutboxEventsQuery of ports
pub record ClaimQuery : Type 0 where
  pub due_before : Time
  pub limit : ℤ
  pub event_types : List Text

-- status IN ('PENDING', 'FAILED')
abbrev pub is_unpublished : OutboxStatus → Bool
is_unpublished published = false
is_unpublished _ = true

abbrev pub event_key : OutboxRow → Text
event_key r = r.event_id

-- WHERE event_id = $1
abbrev pub is_event : Text → OutboxRow → Bool
is_event id r = text_eq r.event_id id

-- SET of the claim
abbrev pub claim_row : Time → Time → OutboxRow → OutboxRow
claim_row now until r = record r { next_attempt_at = some until; updated_at = now }

-- SET of MarkPublished
abbrev pub publish_row : Time → OutboxRow → OutboxRow
publish_row at r = record r { status = published; published_at = some at; updated_at = at }

-- SET of MarkFailed
abbrev pub fail_row : Time → OutboxRow → OutboxRow
fail_row next_attempt_at r = record r {
  status = failed;
  retry_count = r.retry_count +ℤ pos 1;
  next_attempt_at = some next_attempt_at;
  updated_at = next_attempt_at;
}

abbrev pub answered {ℓ} : {A : Type ℓ} → Option Err → A → Tables → Tables → Result A × Tables
answered none a after before = (ok a, after)
answered (some e) a after before = (err e, before)

-- What the scan of the rows returns, once the UPDATE is made: an error leaves it made.
abbrev pub scanned : Option Err → List OutboxRow → Tables → Result (List OutboxRow) × Tables
scanned none events after = (ok events, after)
scanned (some e) events after = (err e, after)

abbrev pub claim_answer :
    Option Err → Option Err → List OutboxRow → Tables → Tables → Result (List OutboxRow) × Tables
claim_answer none undecoded events after before = scanned undecoded events after
claim_answer (some e) undecoded events after before = (err e, before)

module _ (db : Database) where
  abbrev pub or_later : Option Err → Option Err → Option Err
  or_later none later = later
  or_later (some e) later = some e

  -- The error of the first payload that is not decoded.
  unfoldable pub first_undecoded : List OutboxRow → Option Err
  first_undecoded [] = none
  first_undecoded (r ∷ rows) =
      or_later (if is_empty r.payload then none else db.decode_fault r.payload)
        (first_undecoded rows)

  unfoldable pub is_claimable : ClaimQuery → OutboxRow → Bool
  is_claimable q r =
      is_unpublished r.status
      && leb (or_now r.next_attempt_at r.created_at) q.due_before
      && (is_nil q.event_types || any (λ e. text_eq (trim e) r.event_type) q.event_types)
      && not (db.is_locked r.event_id)

  -- The events of the candidates, by the time they were made.
  unfoldable pub candidates : ClaimQuery → Tables → List OutboxRow
  unfolding is_claimable oldest
  candidates q t = oldest (is_claimable q) (λ r. r.created_at) q.limit t.outbox

  unfoldable pub claim_rows : ClaimQuery → List OutboxRow → Tables → Tables
  unfolding is_among
  claim_rows q chosen t = record t {
    outbox =
        update_where (is_among event_key chosen) (claim_row db.now (q.due_before + claim_lease))
          t.outbox;
  }

  -- RETURNING of the rows updated, in the order of the table: the identifiers are not compared as
  -- ORDER BY event_id does.
  unfoldable pub claimed_rows : List OutboxRow → Tables → List OutboxRow
  unfolding is_among
  claimed_rows chosen t = keep_where (is_among event_key chosen) t.outbox

  -- ClaimPending
  unfoldable pub claim_pending : ClaimQuery → Tables → Result (List OutboxRow) × Tables
  unfolding candidates claim_rows claimed_rows first_undecoded
  claim_pending q t =
      let chosen = candidates q t in
      let after = claim_rows q chosen t in
      let events = claimed_rows chosen after in
      claim_answer (db.fault 0) (first_undecoded events) events after t

  -- MarkPublished
  unfoldable pub mark_published : Text → Time → Tables → Check × Tables
  mark_published event_id at t =
      answered (db.fault 0) tt
        (record t { outbox = update_where (is_event (trim event_id)) (publish_row at) t.outbox }) t

  -- MarkFailed, which has no use for the text of the error
  unfoldable pub mark_failed : Text → Time → Text → Tables → Check × Tables
  mark_failed event_id next_attempt_at last_error t =
      answered (db.fault 0) tt
        (record t {
          outbox = update_where (is_event (trim event_id)) (fail_row next_attempt_at) t.outbox;
        })
        t
