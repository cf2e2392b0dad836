-- ===== src/Job/Outbox/Delays.antt =====
-- The delay before an event is tried again.
use Prim.Native.Nat.{◌^◌}
use zhi_file_service_go.Common.{
  ℕ, zero, suc, ◌*◌, ◌/◌, ◌≤◌, ◌<◌, ◌≡◌, refl, ◌∙◌, ◌⊎◌, inl, inr, Bool-cases, pos, leb, arith,
}
use zhi_file_service_go.Job.Outbox.{Consumer, doubled, delay_after, retry_delay}

-- Below 2^62 the doubling does not wrap around.
doubled_small : (d : ℕ) → d < 2 ^ 62 → doubled (pos d) ≡ pos (d * 2)
unfolding doubled
doubled_small d h = ground arith

-- The delays of a retry and of the next one are these durations, and they are within the bounds.
pub record Delays (max n d : ℕ) : Type 0 where
  pub delay : ℕ
  pub later : ℕ
  pub is_delay : delay_after max n (pos d) ≡ pos delay
  pub is_next : delay_after max (suc n) (pos d) ≡ pos later
  pub capped : delay ≤ max
  pub kept : d ≤ delay ⊎ delay ≡ max
  pub grows : delay ≤ later

module _ (max : ℕ) (fits : max < 2 ^ 63) where
  stops : (n d : ℕ) → max / 2 ≤ d → delay_after max (suc n) (pos d) ≡ pos max
  unfolding delay_after
  stops n d h = ground arith

  goes_on :
      (n d : ℕ) → d < max / 2 → delay_after max (suc n) (pos d) ≡ delay_after max n (pos (d * 2))
  unfolding delay_after
  goes_on n d h = let twice = doubled_small d (omega arith) in ground arith

  at_most : (n d : ℕ) → max / 2 ≤ d → Delays max n d
  unfolding delay_after
  at_most zero d h = elim (Bool-cases (leb d max)) [
    | inl k ↦ record {
      delay = d;
      later = max;
      is_delay = ground arith;
      is_next = stops 0 d h;
      capped = ground arith;
      kept = inl (omega arith);
      grows = ground arith;
    }
    | inr k ↦ record {
      delay = max;
      later = max;
      is_delay = ground arith;
      is_next = stops 0 d h;
      capped = omega arith;
      kept = inr refl;
      grows = omega arith;
    }
  ]
  at_most (suc n) d h = record {
    delay = max;
    later = max;
    is_delay = stops n d h;
    is_next = stops (suc n) d h;
    capped = omega arith;
    kept = inr refl;
    grows = omega arith;
  }

  below : (d : ℕ) → d < max / 2 → Delays max 0 d
  unfolding delay_after
  below d h =
      let twice = goes_on 0 d h in
      record {
        delay = d;
        later = d * 2;
        is_delay = ground arith;
        is_next = twice ∙ ground arith;
        capped = omega arith;
        kept = inl (omega arith);
        grows = omega arith;
      }

  below_later : (n d : ℕ) → d < max / 2 → Delays max n (d * 2) → Delays max (suc n) d
  below_later n d h rest =
      let kept = rest.kept in
      record {
        delay = rest.delay;
        later = rest.later;
        is_delay = goes_on n d h ∙ rest.is_delay;
        is_next = goes_on (suc n) d h ∙ rest.is_next;
        capped = rest.capped;
        kept = ground arith;
        grows = rest.grows;
      }

  Delays-within : (n d : ℕ) → Delays max n d
  Delays-within zero d = elim (Bool-cases (leb (max / 2) d)) [
    | inl far ↦ at_most 0 d (ground arith)
    | inr near ↦ below d (ground arith)
  ]
  Delays-within (suc n) d =
      let rest = Delays-within n (d * 2) in
      elim (Bool-cases (leb (max / 2) d)) [
        | inl far ↦ at_most (suc n) d (ground arith)
        | inr near ↦ below_later n d (ground arith) rest
      ]

-- With durations that an int64 holds, the delay of a retry is never above the maximum, is the backoff
-- at least or else the maximum, and one more try never makes it shorter: the doubling of an int64
-- does not wrap around to a negative delay.
pub retry_delay_bounds :
    (c : Consumer) (n : ℕ)
    → c.max_retry_backoff < 2 ^ 63
    → (delay later : ℕ) × (retry_delay c (pos n) ≡ pos delay)
      × (retry_delay c (pos (suc n)) ≡ pos later)
      × (delay ≤ c.max_retry_backoff)
      × (c.retry_backoff ≤ delay ⊎ delay ≡ c.max_retry_backoff)
      × (delay ≤ later)
unfolding retry_delay
retry_delay_bounds c n h =
    let d = Delays-within c.max_retry_backoff h n c.retry_backoff in
    (d.delay, d.later, d.is_delay, d.is_next, d.capped, d.kept, d.grows)
