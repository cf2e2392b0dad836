-- ===== src/Upload/World.antt =====
-- What the handlers of the upload service act on: the database, the providers of object storage, the
-- clock and the identifiers. Every interaction takes the next number, its tick, and the
-- environment is what happens at each tick: it can make any statement fail, and it can change the
-- tables, as other requests do, before a statement outside a transaction and before a transaction.
-- Within a transaction the tables are the handler's own: it locks the row of its session with FOR
-- UPDATE, and the tables of other sessions are not read.
pub mod Laws
pub mod Progress
use zhi_file_service_go.Common.{
  ◌+◌, ℕ, String, Bool, true, false, Option, none, some, List, [], ◌∷◌, if◌then◌else◌, Text, ℤ,
  Time,
}
use zhi_file_service_go.Xerrors.{Err, wrap, service_unavailable}
use zhi_file_service_go.Result.{Result, ok, err, Check}
use zhi_file_service_go.Storage.{ObjectRef, UploadedPart, ObjectMetadata, AccessLevel, BucketRef}
use zhi_file_service_go.Upload.Tables.{Tables}

-- What a handler asks the storage provider to change.
pub data Effect : Type 0 where
  created : ObjectRef → Text → Effect
  completed_upload : ObjectRef → Text → List UploadedPart → Effect
  aborted_upload : ObjectRef → Text → Effect
  put_object : ObjectRef → Text → Effect

pub record World : Type 0 where
  pub tables : Tables
  pub tick : ℕ
  pub in_transaction : Bool
  pub effects : List Effect

-- What encoding/json is given for the events, the two payload structs of
-- app/commands/complete_upload_session.go.
pub record CompletedPayload : Type 0 where
  pub occurred_at : Time
  pub request_id : Text
  pub tenant_id : Text
  pub upload_session : Text
  pub file_id : Text
  pub blob_object_id : Text
  pub hash_algorithm : Text
  pub hash_value : Text
  pub size_bytes : ℤ

pub record FailedPayload : Type 0 where
  pub occurred_at : Time
  pub request_id : Text
  pub tenant_id : Text
  pub upload_session_id : Text
  pub failure_code : Text
  pub failure_message : Text

-- `compute_sha256` is none where the reader has no ComputeSHA256. Err.Error() is `message_of`.
pub record Env : Type 0 where
  pub now : ℕ → Time
  pub new_id : ℕ → Result Text
  pub fault : ℕ → Option Err
  pub meanwhile : ℕ → Tables → Tables
  pub create_multipart : ℕ → ObjectRef → Text → Result Text
  pub list_uploaded_parts : ℕ → ObjectRef → Text → Result (List UploadedPart)
  pub complete_multipart : ℕ → ObjectRef → Text → List UploadedPart → Check
  pub abort_multipart : ℕ → ObjectRef → Text → Check
  pub head_object : ℕ → ObjectRef → Result ObjectMetadata
  pub compute_sha256 : Option (ℕ → ObjectRef → Result Text)
  pub put_body : ℕ → ObjectRef → Check
  pub presign_put : ℕ → ObjectRef → Text → ℤ → Result (Text × List (Text × Text))
  pub presign_part : ℕ → ObjectRef → Text → ℤ → ℤ → Result (Text × List (Text × Text))
  pub resolve_bucket : AccessLevel → Result BucketRef
  pub marshal_completed : CompletedPayload → Result Text
  pub marshal_failed : FailedPayload → Result Text
  pub message_of : Err → Text

-- A step of a handler: what it returns, and the world after it.
abbrev pub Action {ℓ} : Type ℓ → Type ℓ
Action A = World → Result A × World

module _ {ℓ} {A : Type ℓ} where
  unfoldable pub pure : A → Action A
  pure a w = (ok a, w)

  -- if err != nil { return err }
  unfoldable pub lift : Result A → Action A
  lift r w = (r, w)

  unfoldable pub raise : Err → Action A
  raise e w = (err e, w)

infixl 5 ◌>>=◌ ◌>>◌
abbrev pub next_step {ℓ κ} :
    {A : Type ℓ} {B : Type κ} → (A → Action B) → Result A × World → Result B × World
next_step k (err e, w) = (err e, w)
next_step k (ok a, w) = k a w

unfoldable pub ◌>>=◌ {ℓ κ} : {A : Type ℓ} {B : Type κ} → Action A → (A → Action B) → Action B
◌>>=◌ m k w = next_step k (m w)

abbrev pub ◌>>◌ {κ} : {B : Type κ} → Action (Unit {0}) → Action B → Action B
m >> k = m >>= λ u. k

-- What the step returns as a value, an error included.
unfoldable pub attempt {ℓ} : {A : Type ℓ} → Action A → Action (Result A)
attempt m w = (ok (m w).0, (m w).1)

-- if b { return e }
unfoldable pub raise_if : Bool → Err → Action (Unit {0})
raise_if true e = raise e
raise_if false e = pure tt

-- The next tick.
abbrev pub ticked : World → World
ticked w = record w { tick = w.tick + 1 }

abbrev pub tell : Effect → World → World
tell e w = record w { effects = e ∷ w.effects }

-- wrapDBError of infra/postgres/repositories.go, of an error
abbrev pub wrap_db_error : String → Err → Err
wrap_db_error message e = wrap service_unavailable message e []

abbrev or_wrapped : (Err → Err) → Result Text → Result Text
or_wrapped wrapped (ok id) = ok id
or_wrapped wrapped (err e) = err (wrapped e)

module _ (env : Env) where
  -- clock.Now(), and time.Now()
  unfoldable pub clock : Action Time
  clock w = (ok (env.now w.tick), ticked w)

  -- ids.Generator.New(), its error wrapped
  unfoldable pub generate : (Err → Err) → Action Text
  generate wrapped w = (or_wrapped wrapped (env.new_id w.tick), ticked w)

  -- The world in which a statement runs: other requests go first unless a transaction is open.
  unfoldable pub settled : World → World
  settled w =
      if w.in_transaction
      then ticked w
      else ticked (record w { tables = env.meanwhile w.tick w.tables })

  abbrev run_on {ℓ} : {A : Type ℓ} → (Tables → A × Tables) → World → Result A × World
  run_on run w = (ok (run w.tables).0, record w { tables = (run w.tables).1 })

  -- A statement, its error wrapped: it changes nothing if it fails.
  unfoldable pub statement {ℓ} : {A : Type ℓ} → String → (Tables → A × Tables) → Action A
  unfolding settled
  statement message run w =
      let before = settled w in
      elim (env.fault w.tick) [
        | some e ↦ (err (wrap_db_error message e), before)
        | none ↦ run_on run before
      ]

  -- ExecContext, and QueryContext or QueryRowContext with the scan of what they return
  abbrev pub exec : String → (Tables → Tables) → Action (Unit {0})
  exec message change = statement message (λ t. (tt, change t))

  abbrev pub query {ℓ} : {A : Type ℓ} → String → (Tables → A) → Action A
  query message read = statement message (λ t. (read t, t))

  -- The end of a transaction that was opened on the tables `before`, with or without a fault of the
  -- commit: a commit that reports an error has changed nothing.
  unfoldable pub close_transaction {ℓ} :
      {A : Type ℓ} → String → Tables → Option Err → Result A × World → Result A × World
  close_transaction message before fault (err e, w) =
      (err e, record w { tables = before; in_transaction = false })
  close_transaction message before none (ok a, w) =
      (ok a, record (ticked w) { in_transaction = false })
  close_transaction message before (some e) (ok a, w) =
      (err (wrap_db_error message e), record (ticked w) { tables = before; in_transaction = false })

  abbrev pub closing {ℓ} : {A : Type ℓ} → String → Tables → Result A × World → Result A × World
  closing message before (r, w) = close_transaction message before (env.fault w.tick) (r, w)

  unfoldable pub open_transaction {ℓ} :
      {A : Type ℓ} → String → String → Option Err → Action A → Action A
  unfolding close_transaction
  open_transaction begin commit (some e) body w = (err (wrap_db_error begin e), w)
  open_transaction begin commit none body w =
      closing commit w.tables (body (record w { in_transaction = true }))

  -- TxManager.WithinTransaction, and the transaction of AcquireCompletion, with the messages of their
  -- errors
  unfoldable pub transaction {ℓ} : {A : Type ℓ} → String → String → Action A → Action A
  unfolding open_transaction settled
  transaction begin commit body w =
      if w.in_transaction
      then body w
      else open_transaction begin commit (env.fault w.tick) body (settled w)

  abbrev pub within_transaction {ℓ} : {A : Type ℓ} → Action A → Action A
  within_transaction body = transaction "begin transaction" "commit transaction" body
