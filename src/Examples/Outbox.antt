-- ===== src/Examples/Outbox.antt =====
-- A run of the outbox consumer over three events, of which one has no handler and one fails.
use zhi_file_service_go.Common.{
  ◌≡◌, ◌≤◌, ◌⊎◌, ℕ, refl, true, ◌==◌, if◌then◌else◌, List, [], ◌∷◌, Text, text, text_eq, trim, pos,
  negsuc, arith, length,
}
use zhi_file_service_go.Xerrors.{errorf}
use zhi_file_service_go.Result.{ok, err, accepted}
use zhi_file_service_go.Job.Outbox.{
  OutboxEvent, Consumer, ConsumerEnv, Mark, new_consumer, retry_delay, delay_after,
  normalize_event_types, run_once, run_events, process, mark_handled,
}
use zhi_file_service_go.Job.Outbox.Delays.{retry_delay_bounds}
use zhi_file_service_go.Job.Outbox.Runs.{Accounts, run_once-Accounts}

abbrev consumer : Consumer
consumer = record {
  handled = λ t. text_eq t (text "done");
  batch_size = 100;
  event_types = [];
  retry_backoff = 60;
  max_retry_backoff = 3600;
}

defaults :
    (new_consumer
      (λ t. true)
      (negsuc 4)
      (text " a" ∷ [] ∷ text "a " ∷ [])
      (pos 0)
      (pos 7)).event_types
    ≡ text "a" ∷ []
unfolding new_consumer normalize_event_types trim text_eq
defaults = refl

delays : retry_delay consumer (pos 3) ≡ pos 480
unfolding retry_delay delay_after
delays = refl

capped : retry_delay consumer (pos 9) ≡ pos 3600
unfolding retry_delay delay_after
capped = refl

retry_delay_bounds_example :
    (delay later : ℕ) × (retry_delay consumer (pos 3) ≡ pos delay)
    × (retry_delay consumer (pos 4) ≡ pos later)
    × (delay ≤ 3600)
    × (60 ≤ delay ⊎ delay ≡ 3600)
    × (delay ≤ later)
retry_delay_bounds_example = retry_delay_bounds consumer 3 (omega arith)

-- With the largest durations too, the last doubling that is made does not wrap around.
abbrev slow : Consumer
slow = record consumer { retry_backoff = 1; max_retry_backoff = 9223372036854775807 }

slow_delay : retry_delay slow (pos 100) ≡ pos 9223372036854775807
unfolding retry_delay delay_after
slow_delay = refl

abbrev event : Text → Text → OutboxEvent
event id kind = record { event_id = id; event_type = kind; retry_count = pos 1 }

abbrev three : List OutboxEvent
three =
    event (text "a") (text "done")
    ∷ event (text "b") (text "odd")
    ∷ event (text "c") (text "done")
    ∷ []

abbrev env : ConsumerEnv
env = record {
  claim = λ types due_before limit. ok three;
  asked_at = 999;
  now = 1000;
  handle = λ n e. if n == 2 then err (errorf "broken" []) else accepted;
  mark_failed = λ n id due message. accepted;
  mark_published = λ n id at. accepted;
  message_of = λ e. text "broken";
}

runs :
    (run_once consumer env).1
    ≡ Mark.published (text "a") 1000
      ∷ Mark.failed (text "b") 1120 (text "no handler registered")
      ∷ Mark.failed (text "c") 1120 (text "broken")
      ∷ []
unfolding run_once run_events process mark_handled retry_delay delay_after text_eq
runs = refl

run_once-Accounts_example :
    Accounts consumer env 0
      (record { claimed = length three; published = 0; failed = 0 })
      three
      (run_once consumer env)
run_once-Accounts_example = run_once-Accounts consumer env three refl
