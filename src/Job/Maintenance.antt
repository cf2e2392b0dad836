-- ===== src/Job/Maintenance.antt =====
-- What the repositories of internal/services/job/infra/postgres/repositories.go share: the choice of a
-- batch of rows, and the transaction in which each row of a batch is asked of the object storage and
-- then written. The statements are on the tables of the upload service: Upload/Tables.
pub mod Batches
use zhi_file_service_go.Common.{
  ◌+◌, ℕ, Bool, true, false, not, ◌&&◌, Option, none, some, List, [], ◌∷◌, any, take, length, Text,
  text_eq, ℤ, pos, Time,
}
use zhi_file_service_go.Common.Sorting.{sort}
use zhi_file_service_go.Xerrors.{Err, errorf}
use zhi_file_service_go.Result.{Result, ok, err, Check, accepted}
use zhi_file_service_go.Storage.{ObjectRef}
use zhi_file_service_go.Upload.Tables.{Tables, keep_where}
use zhi_file_service_go.Job.Outbox.{positive_or}

-- What an operation meets. `fault` is keyed by the place of the statement in the operation, the
-- answers of the storage by the place of the row in the batch. `is_locked` tells the keys of the rows
-- that another transaction has locked, and `is_missing` whether the text of an error contains that of
-- ErrObjectNotFound.
-- `decode_fault` is the error of json.Unmarshal on the payload of an event.
pub record Database : Type 0 where
  pub has_storage : Bool
  -- NOW() of the statement
  pub now : Time
  -- time.Now() of the process
  pub clock : Time
  pub is_locked : Text → Bool
  pub fault : ℕ → Option Err
  pub delete_object : ℕ → ObjectRef → Check
  pub abort_upload : ℕ → ObjectRef → Text → Check
  pub is_missing : Err → Bool
  pub decode_fault : Text → Option Err

-- normalizeLimit
unfoldable pub normalize_limit : ℤ → ℕ
normalize_limit limit = positive_or limit 100

-- ORDER BY ... ASC LIMIT ... FOR UPDATE SKIP LOCKED; rows of the same time in the order of the table
unfoldable pub oldest {ℓ} : {A : Type ℓ} → (A → Bool) → (A → Time) → ℤ → List A → List A
unfolding normalize_limit sort
oldest is_due time limit rows =
    take (normalize_limit limit) (sort (λ r. pos (time r)) (keep_where is_due rows))

-- WHERE the key is among those of the candidates
unfoldable pub is_among {ℓ} : {A : Type ℓ} → (A → Text) → List A → A → Bool
is_among key rows r = any (λ c. text_eq (key c) (key r)) rows

-- What an operation did: its answer, the tables after it, and the rows it asked the storage about.
pub record Batch (A : Type 0) : Type 0 where
  pub answer : Result ℕ
  pub tables : Tables
  pub asked : List A

-- A single statement, by ExecContext; what it answers is RowsAffected.
unfoldable pub executed : Option Err → ℕ → Tables → Tables → Result ℕ × Tables
executed none count after before = (ok count, after)
executed (some e) count after before = (err e, before)

module _ {A : Type 0} (db : Database) (ask : ℕ → A → Check) (write : A → Tables → Tables) where
  -- err != nil && !strings.Contains(err.Error(), ErrObjectNotFound.Error())
  unfoldable pub tolerated : Check → Check
  tolerated (ok u) = accepted
  tolerated (err e) = elim (db.is_missing e) [ true ↦ accepted | false ↦ err e ]

  abbrev pub then_written : Option Err → Check → Check
  then_written fault (err e) = err e
  then_written none (ok u) = accepted
  then_written (some e) (ok u) = err e

  -- One round: an error ends the loop; `rest` is what the later rounds do.
  abbrev pub round_of : Check → A → Result Tables × List A → Result Tables × List A
  round_of (err e) r rest = (err e, r ∷ [])
  round_of (ok u) r rest = (rest.0, r ∷ rest.1)

  -- The loop over the records: the rows asked about and the tables within the transaction.
  unfoldable pub in_turn : ℕ → List A → Tables → Result Tables × List A
  unfolding tolerated
  in_turn n [] t = (ok t, [])
  in_turn n (r ∷ rs) t =
      let rest = in_turn (n + 1) rs (write r t) in
      round_of (then_written (db.fault (n + 3)) (tolerated (ask n r))) r rest

  abbrev pub committed : Option Err → ℕ → Tables → Result Tables × List A → Batch A
  committed fault count before (err e, asked) = record {
    answer = err e;
    tables = before;
    asked = asked;
  }
  committed none count before (ok t, asked) = record {
    answer = ok count;
    tables = t;
    asked = asked;
  }
  committed (some e) count before (ok t, asked) = record {
    answer = err e;
    tables = before;
    asked = asked;
  }

  abbrev pub failing : Tables → Err → Batch A
  failing before e = record { answer = err e; tables = before; asked = [] }

  -- The transaction: begin, query, the loop, commit; any error rolls back.
  unfoldable pub selected : Option Err → List A → Tables → Batch A
  unfolding in_turn
  selected (some e) rows t = failing t e
  selected none rows t = committed (db.fault 2) (length rows) t (in_turn 0 rows t)

  unfoldable pub begun : Option Err → List A → Tables → Batch A
  unfolding selected
  begun (some e) rows t = failing t e
  begun none rows t = selected (db.fault 1) rows t

  unfoldable pub maintained : List A → Tables → Batch A
  unfolding begun
  maintained rows t = elim db.has_storage [
    | false ↦ failing t (errorf "object storage is required" [])
    | true ↦ begun (db.fault 0) rows t
  ]
