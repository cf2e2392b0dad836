-- ===== src/Job/Outbox/Runs.antt =====
-- What one run of the consumer has marked.
use zhi_file_service_go.Common.{
  ℕ, suc, ◌+◌, ◌≡◌, refl, sym, ◌∙◌, true, false, Bool-cases, inl, inr, List, [], ◌∷◌, length, text,
  add, arith,
}
use mathlib.Core.Path.{subst}
use zhi_file_service_go.Xerrors.{Err, annotated}
use zhi_file_service_go.Result.{Result, ok, err, Check, accepted, Result-cases}
use zhi_file_service_go.Job.Outbox.{
  OutboxEvent, Consumer, ConsumerEnv, RunResult, Mark, published, failed, counted, retry_delay,
  mark_handled, process, run_events, run_claimed, run_once,
}

abbrev pub published_of : List Mark → ℕ
published_of [] = 0
published_of (published id at ∷ ms) = suc (published_of ms)
published_of (failed id due message ∷ ms) = published_of ms

abbrev pub failed_of : List Mark → ℕ
failed_of [] = 0
failed_of (published id at ∷ ms) = failed_of ms
failed_of (failed id due message ∷ ms) = suc (failed_of ms)

module _ (c : Consumer) (env : ConsumerEnv) where
  -- When an event that failed is tried again
  abbrev pub again_at : OutboxEvent → ℕ
  again_at e = add env.now (retry_delay c e.retry_count)

  -- The mark of the event at place `n` of the batch, by what its handler did.
  pub data Settles (n : ℕ) (e : OutboxEvent) : Mark → Type 0 where
    succeeds :
        c.handled e.event_type ≡ true
        → env.handle n e ≡ accepted
        → env.mark_published n e.event_id env.now ≡ accepted
        → Settles n e (published e.event_id env.now)
    fails :
        (x : Err)
        → c.handled e.event_type ≡ true
        → env.handle n e ≡ err x
        → env.mark_failed n e.event_id (again_at e) (env.message_of x) ≡ accepted
        → Settles n e (failed e.event_id (again_at e) (env.message_of x))
    unknown :
        c.handled e.event_type ≡ false
        → env.mark_failed n e.event_id (again_at e) (text "no handler registered") ≡ accepted
        → Settles n e (failed e.event_id (again_at e) (text "no handler registered"))

  -- The error of an event that cannot be marked.
  pub data Stops (n : ℕ) (e : OutboxEvent) : Err → Type 0 where
    not_published :
        (x : Err)
        → c.handled e.event_type ≡ true
        → env.handle n e ≡ accepted
        → env.mark_published n e.event_id env.now ≡ err x
        → Stops n e x
    not_failed :
        (x y : Err)
        → c.handled e.event_type ≡ true
        → env.handle n e ≡ err x
        → env.mark_failed n e.event_id (again_at e) (env.message_of x) ≡ err y
        → Stops n e (annotated "handle outbox event: %w; mark failed: %v" x)
    not_known :
        (x : Err)
        → c.handled e.event_type ≡ false
        → env.mark_failed n e.event_id (again_at e) (text "no handler registered") ≡ err x
        → Stops n e x

  -- The run over the events from place `n` on: each has its mark, up to the first that cannot be
  -- marked, with whose error the run ends.
  pub data Run : ℕ → List OutboxEvent → List Mark → Check → Type 0 where
    done : (n : ℕ) → Run n [] [] accepted
    stopped :
        (n : ℕ) (e : OutboxEvent) (events : List OutboxEvent) (x : Err)
        → Stops n e x
        → Run n (e ∷ events) [] (err x)
    next :
        (n : ℕ) (e : OutboxEvent) (events : List OutboxEvent) (m : Mark) (ms : List Mark)
        (check : Check)
        → Settles n e m
        → Run (n + 1) events ms check
        → Run n (e ∷ events) (m ∷ ms) check

  -- The result counts the marks, and the marks are those of the run.
  pub record Accounts (n : ℕ) (start : RunResult) (events : List OutboxEvent)
      (out : (RunResult × Check) × List Mark) : Type 0 where
    pub claimed : out.0.0.claimed ≡ start.claimed
    pub published_count : out.0.0.published ≡ start.published + published_of out.1
    pub failed_count : out.0.0.failed ≡ start.failed + failed_of out.1
    pub runs : Run n events out.1 out.0.1

  -- A call of the reader after which the event is settled or the run stops.
  abbrev pub Ending : ℕ → OutboxEvent → Result Mark → Type 0
  Ending n e (ok m) = Settles n e m
  Ending n e (err x) = Stops n e x

  process-Ending : (n : ℕ) (e : OutboxEvent) → Ending n e (process c env n e)
  unfolding process mark_handled
  process-Ending n e = elim (Bool-cases (c.handled e.event_type)) [
    | inl h ↦ elim (Result-cases (env.handle n e)) [
      | inl (u, k) ↦ elim (Result-cases (env.mark_published n e.event_id env.now)) [
        | inl (v, l) ↦ rw (h, k, l) (succeeds h k l)
        | inr (x, l) ↦ rw (h, k, l) (not_published x h k l)
      ]
      | inr (x, k) ↦
          elim (Result-cases (env.mark_failed n e.event_id (again_at e) (env.message_of x))) [
            | inl (v, l) ↦ rw (h, k, l) (fails x h k l)
            | inr (y, l) ↦ rw (h, k, l) (not_failed x y h k l)
          ]
    ]
    | inr h ↦
        elim (Result-cases
          (env.mark_failed n e.event_id (again_at e) (text "no handler registered"))) [
            | inl (v, l) ↦ rw (h, l) (unknown h l)
            | inr (x, l) ↦ rw (h, l) (not_known x h l)
          ]
  ]

  -- After a mark, what the rest of the run does counts for the whole.
  after_mark :
      (n : ℕ) (m : Mark) (e : OutboxEvent) (events : List OutboxEvent) (start : RunResult)
      (out : (RunResult × Check) × List Mark)
      → Settles n e m
      → Accounts (n + 1) (counted m start) events out
      → Accounts n start (e ∷ events) (out.0, m ∷ out.1)
  after_mark n (published id at) e events start out s a = record {
    claimed = a.claimed;
    published_count = a.published_count ∙ omega arith;
    failed_count = a.failed_count;
    runs = next n e events (published id at) out.1 out.0.1 s a.runs;
  }
  after_mark n (failed id due message) e events start out s a = record {
    claimed = a.claimed;
    published_count = a.published_count;
    failed_count = a.failed_count ∙ omega arith;
    runs = next n e events (failed id due message) out.1 out.0.1 s a.runs;
  }

  run_from :
      (n : ℕ) (e : OutboxEvent) (events : List OutboxEvent) (start : RunResult) (x : Result Mark)
      → Ending n e x
      → ((m : Mark)
          → Accounts
              (n + 1)
              (counted m start)
              events
              (run_events c env (n + 1) events (counted m start)))
      → Accounts n start (e ∷ events) (elim x [
        | err e ↦ ((start, err e), [])
        | ok m ↦
            let rest = run_events c env (n + 1) events (counted m start) in (rest.0, m ∷ rest.1)
      ])
  run_from n e events start (err x) h later = record {
    claimed = refl;
    published_count = omega arith;
    failed_count = omega arith;
    runs = stopped n e events x h;
  }
  run_from n e events start (ok m) h later =
      after_mark n m e events start (run_events c env (n + 1) events (counted m start)) h (later m)

  run_events-Accounts :
      (n : ℕ) (events : List OutboxEvent) (start : RunResult)
      → Accounts n start events (run_events c env n events start)
  unfolding run_events
  run_events-Accounts n [] start = record {
    claimed = refl;
    published_count = omega arith;
    failed_count = omega arith;
    runs = done n;
  }
  run_events-Accounts n (e ∷ events) start =
      run_from n e events start (process c env n e) (process-Ending n e)
        (λ m. run_events-Accounts (n + 1) events (counted m start))

  -- A run of the consumer over the events that were claimed counts what it marked as published and as
  -- failed. In their order each event has exactly one mark: published where its handler succeeded,
  -- failed with the message of its error and a time to try again where it failed, and failed where no
  -- handler knows it. The first event that cannot be marked ends the run, with the error of the call
  -- that would mark it, or with that of its handler beside it; no later event has a mark.
  pub run_once-Accounts :
      (events : List OutboxEvent)
      → env.claim c.event_types env.asked_at c.batch_size ≡ ok events
      → Accounts 0
          (record { claimed = length events; published = 0; failed = 0 })
          events
          (run_once c env)
  unfolding run_once
  run_once-Accounts events h =
      subst
        (λ r.
          Accounts 0 (record { claimed = length events; published = 0; failed = 0 }) events
            (run_claimed c env r))
        (sym h)
        (run_events-Accounts 0 events
          (record { claimed = length events; published = 0; failed = 0 }))
