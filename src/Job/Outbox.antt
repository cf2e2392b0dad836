-- ===== src/Job/Outbox.antt =====
-- internal/services/job/app/outbox/consumer.go. The reader's calls and the handlers are given by the
-- place of the event in the batch. The observer is left out.
pub mod Delays
pub mod Runs
use zhi_file_service_go.Common.{
  ℕ, zero, suc, ◌+◌, ◌-◌, ◌*◌, ◌/◌, ◌%◌, String, Bool, true, false, ◌||◌, Option, none, some, List,
  [], ◌∷◌, any, is_nil, length, if◌then◌else◌, ltb, leb, Text, text, text_eq, is_empty, trim, ℤ,
  pos, negsuc, ltb_ℤ, leb_ℤ, Time, add,
}
use Prim.Native.Nat.{◌^◌}
use zhi_file_service_go.Xerrors.{Err, annotated}
use zhi_file_service_go.Result.{Result, ok, err, Check, accepted}

-- OutboxEvent of ports, the fields that RunOnce reads; a handler knows the others by the place
pub record OutboxEvent : Type 0 where
  pub event_id : Text
  pub event_type : Text
  pub retry_count : ℤ

-- What NewConsumer leaves of the configuration: durations in nanoseconds.
pub record Consumer : Type 0 where
  pub handled : Text → Bool
  pub batch_size : ℕ
  pub event_types : List Text
  pub retry_backoff : ℕ
  pub max_retry_backoff : ℕ

-- if value <= 0 { value = default }
abbrev pub positive_or : ℤ → ℕ → ℕ
positive_or (pos zero) default = default
positive_or (pos (suc n)) default = suc n
positive_or (negsuc n) default = default

keep_new : List Text → List Text → List Text
keep_new seen [] = []
keep_new seen (v ∷ vs) =
    let name = trim v in
    let dropped = is_empty name || any (text_eq name) seen in
    let rest = keep_new (if dropped then seen else name ∷ seen) vs in
    if dropped then rest else name ∷ rest

-- normalizeEventTypes, the map of those seen the list of its keys
unfoldable pub normalize_event_types : List Text → List Text
unfolding keep_new
normalize_event_types values = keep_new [] values

-- NewConsumer, of the event types that have a handler
unfoldable pub new_consumer : (Text → Bool) → ℤ → List Text → ℤ → ℤ → Consumer
unfolding normalize_event_types
new_consumer handled batch_size event_types retry_backoff max_retry_backoff = record {
  handled = handled;
  batch_size = positive_or batch_size 100;
  event_types = normalize_event_types event_types;
  retry_backoff = positive_or retry_backoff 60000000000;
  max_retry_backoff = positive_or max_retry_backoff 3600000000000;
}

-- An int64, as the number of its 64 bits and back
abbrev pub bits : ℤ → ℕ
bits (pos n) = n % 2 ^ 64
bits (negsuc n) = 2 ^ 64 - 1 - n % 2 ^ 64

abbrev pub of_bits : ℕ → ℤ
of_bits b = if ltb b (2 ^ 63) then pos b else negsuc (2 ^ 64 - 1 - b)

-- delay *= 2, of an int64: it wraps around.
unfoldable pub doubled : ℤ → ℤ
doubled delay = of_bits (bits delay * 2 % 2 ^ 64)

-- The loop of retryDelay with what follows it.
unfoldable pub delay_after : ℕ → ℕ → ℤ → ℤ
unfolding doubled
delay_after max zero delay = if ltb_ℤ (pos max) delay then pos max else delay
delay_after max (suc n) delay =
    let rest = delay_after max n (doubled delay) in
    if leb_ℤ (pos (max / 2)) delay then pos max else rest

-- The rounds of the loop: none for a negative count.
abbrev pub rounds : ℤ → ℕ
rounds (pos n) = n
rounds (negsuc n) = 0

-- Consumer.retryDelay
unfoldable pub retry_delay : Consumer → ℤ → ℤ
unfolding delay_after
retry_delay c retry_count =
    delay_after c.max_retry_backoff (rounds retry_count) (pos c.retry_backoff)

-- A call of the reader that succeeded.
pub data Mark : Type 0 where
  published : Text → Time → Mark
  failed : Text → Time → Text → Mark

pub record RunResult : Type 0 where
  pub claimed : ℕ
  pub published : ℕ
  pub failed : ℕ

pub record ConsumerEnv : Type 0 where
  pub claim : List Text → Time → ℕ → Result (List OutboxEvent)
  pub asked_at : Time
  pub now : Time
  pub handle : ℕ → OutboxEvent → Check
  pub mark_failed : ℕ → Text → Time → Text → Check
  pub mark_published : ℕ → Text → Time → Check
  pub message_of : Err → Text

abbrev pub marked : (Err → Err) → Check → Mark → Result Mark
marked wrapped (ok u) m = ok m
marked wrapped (err e) m = err (wrapped e)

abbrev pub counted : Mark → RunResult → RunResult
counted (published id at) r = record r { published = r.published + 1 }
counted (failed id due message) r = record r { failed = r.failed + 1 }

module _ (c : Consumer) (env : ConsumerEnv) where
  abbrev pub due : OutboxEvent → Time
  due event = add env.now (retry_delay c event.retry_count)

  -- What follows the handler of an event.
  unfoldable pub mark_handled : ℕ → OutboxEvent → Check → Result Mark
  mark_handled n event (ok u) =
      marked (λ e. e) (env.mark_published n event.event_id env.now)
        (published event.event_id env.now)
  mark_handled n event (err e) =
      marked (λ m. annotated "handle outbox event: %w; mark failed: %v" e)
        (env.mark_failed n event.event_id (due event) (env.message_of e))
        (failed event.event_id (due event) (env.message_of e))

  -- One round of the loop of RunOnce.
  unfoldable pub process : ℕ → OutboxEvent → Result Mark
  unfolding mark_handled
  process n event =
      if c.handled event.event_type
      then mark_handled n event (env.handle n event)
      else marked (λ e. e)
          (env.mark_failed n event.event_id (due event) (text "no handler registered"))
          (failed event.event_id (due event) (text "no handler registered"))

  -- The loop of RunOnce: what it returns, and the marks that it made.
  unfoldable pub run_events : ℕ → List OutboxEvent → RunResult → (RunResult × Check) × List Mark
  unfolding process
  run_events n [] r = ((r, accepted), [])
  run_events n (event ∷ events) r = elim (process n event) [
    | err e ↦ ((r, err e), [])
    | ok m ↦ let rest = run_events (n + 1) events (counted m r) in (rest.0, m ∷ rest.1)
  ]

  abbrev pub run_claimed : Result (List OutboxEvent) → (RunResult × Check) × List Mark
  run_claimed (err e) = ((record { claimed = 0; published = 0; failed = 0 }, err e), [])
  run_claimed (ok events) =
      run_events 0 events (record { claimed = length events; published = 0; failed = 0 })

  -- Consumer.RunOnce
  unfoldable pub run_once : (RunResult × Check) × List Mark
  unfolding run_events
  run_once = run_claimed (env.claim c.event_types env.asked_at c.batch_size)
