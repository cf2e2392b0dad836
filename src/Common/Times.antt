-- ===== src/Common/Times.antt =====
-- time.Time as the nanoseconds since its zero value, January 1 of year 1: instants before that are
-- not modelled. UTC() changes the location only and keeps the instant.
use Prim.Native.Nat.{ℕ, suc, ◌+◌, ◌-◌}
use zhi_file_service_go.Common.Int.{ℤ, pos, negsuc}
use mathlib.Core.Bool.{Bool}
use zhi_file_service_go.Common.Tests.{ltb, ◌==◌}

abbrev pub Time : Type 0
Time = ℕ

-- t.IsZero()
abbrev pub is_zero : Time → Bool
is_zero t = t == 0

-- t.UTC()
abbrev pub utc : Time → Time
utc t = t

-- t.Before(u), t.After(u)
abbrev pub before : Time → Time → Bool
before t u = ltb t u

abbrev pub after : Time → Time → Bool
after t u = ltb u t

-- t.Add(d), for a duration in nanoseconds that does not lead before the zero value
abbrev pub add : Time → ℤ → Time
add t (pos n) = t + n
add t (negsuc n) = t - suc n
