-- ===== src/Access/Idempotency.antt =====
-- MemoryStore of internal/services/access/infra/idempotency/store.go: which ticket was issued under
-- which key. The Go map is a function; each operation takes the readings of its clock.
use zhi_file_service_go.Common.{
  add, Bool, true, false, Option, none, some, is_some, if◌then◌else◌, Text, text_eq, ℤ, pos, leb_ℤ,
  Time, after,
}

-- AccessTicketIssueRecord of ports/access_ticket_idempotency_store.go
pub record IssueRecord : Type 0 where
  pub fingerprint : Text
  pub ticket : Text
  pub redirect_url : Text
  pub expires_at : Time

pub record MemoryRecord : Type 0 where
  pub record_of : IssueRecord
  pub expires_at : Time

abbrev pub MemoryStore : Type 0
MemoryStore = Text → Option MemoryRecord

abbrev pub one_second : ℤ
one_second = pos 1000000000

-- normalizeTTL
unfoldable pub normalize_ttl : ℤ → ℤ
normalize_ttl ttl = if leb_ℤ ttl (pos 0) then one_second else ttl

abbrev pub if_alive : Time → Option MemoryRecord → Option MemoryRecord
if_alive now none = none
if_alive now (some m) = if after m.expires_at now then some m else none

-- MemoryStore.cleanupExpiredLocked
unfoldable pub cleanup_expired : Time → MemoryStore → MemoryStore
cleanup_expired now s = λ key. if_alive now (s key)

abbrev pub insert : Text → MemoryRecord → MemoryStore → MemoryStore
insert key m s = λ k. if text_eq k key then some m else s k

abbrev pub found_record : Option MemoryRecord → Option IssueRecord
found_record none = none
found_record (some m) = some m.record_of

-- MemoryStore.Get
unfoldable pub get : Time → Text → MemoryStore → Option IssueRecord × MemoryStore
get now key s = (found_record (cleanup_expired now s key), cleanup_expired now s)

-- MemoryStore.PutIfAbsent, with the readings of the clock for the cleanup and for the lifetime
unfoldable pub put_if_absent :
    Time → Time → Text → IssueRecord → ℤ → MemoryStore → Bool × MemoryStore
unfolding normalize_ttl
put_if_absent cleaned stored key issued ttl s =
    let kept = cleanup_expired cleaned s in
    if is_some (kept key) then (false, kept) else (
      true,
      insert key (record { record_of = issued; expires_at = add stored (normalize_ttl ttl) }) kept,
    )
