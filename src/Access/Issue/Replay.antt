-- ===== src/Access/Issue/Replay.antt =====
-- A request for a ticket that is repeated, and requests that run at the same time.
use zhi_file_service_go.Common.{
  ◌≡◌, refl, ap, sym, ◌∙◌, Bool, true, false, Option, none, some, Text, is_some, ℤ, text_eq,
  text_eq_iff, text_eq_refl, ◌<◌, Time, arith,
}
use zhi_file_service_go.Result.{Result, ok, err}
use zhi_file_service_go.Access.Idempotency.{
  IssueRecord, MemoryRecord, MemoryStore, get, put_if_absent, cleanup_expired, found_record,
}
use zhi_file_service_go.Access.Request.{Settings, CreateAccessTicketCommand, Prepared, prepare}
use zhi_file_service_go.Access.Issue.{
  IssuePorts, Moment, CreateAccessTicketResult, issue_ticket, resolve_existing, key_in_use,
  reloaded_result, record_of_result, create_access_ticket, create_prepared, answer_keyed, after_get,
  store_result, after_put,
}

-- The store holds this result under the key, with the fingerprint of the request.
abbrev pub Holds : MemoryStore → Text → Text → CreateAccessTicketResult → Type 0
Holds s key fingerprint result = found_record (s key) ≡ some (record_of_result fingerprint result)

resolve_existing-record :
    (r : IssueRecord) (fingerprint : Text) (result : CreateAccessTicketResult)
    → resolve_existing r fingerprint ≡ ok result
    → r ≡ record_of_result fingerprint result
unfolding resolve_existing
resolve_existing-record r fingerprint result h =
    ground (arith, text_eq_iff r.fingerprint fingerprint)

reloaded-record :
    (o : Option IssueRecord) (fingerprint : Text) (result : CreateAccessTicketResult)
    → reloaded_result o fingerprint ≡ ok result
    → o ≡ some (record_of_result fingerprint result)
reloaded-record none fingerprint result h = absurd (ground arith)
reloaded-record (some r) fingerprint result h =
    ap some (resolve_existing-record r fingerprint result h)

-- What the request with a key and a fingerprint leaves in the store once it has a result.
module _ (m : Moment) (key fingerprint : Text) where
  after_put-Holds :
      (result r : CreateAccessTicketResult) (p : Bool × MemoryStore)
      → (p.0 ≡ true → Holds p.1 key fingerprint result)
      → (after_put m key fingerprint result p).0 ≡ ok r
      → Holds (after_put m key fingerprint result p).1 key fingerprint r
  unfolding after_put get
  after_put-Holds result r (true, s) h e = rw (← ok_same e) (h refl)
    where
      ok_same : ok result ≡ ok r → result ≡ r
      ok_same e = ground arith
  after_put-Holds result r (false, s) h e = reloaded-record _ fingerprint r e

  put_if_absent-Holds :
      (result : CreateAccessTicketResult) (ttl : ℤ) (s : MemoryStore)
      → (put_if_absent m.cleaned m.stored key (record_of_result fingerprint result) ttl s).0 ≡ true
      → Holds
          (put_if_absent m.cleaned m.stored key (record_of_result fingerprint result) ttl s).1
          key
          fingerprint
          result
  unfolding put_if_absent
  put_if_absent-Holds result ttl s h = ground (arith, text_eq_refl key)

  store_result-Holds :
      (ttl : ℤ) (issued : Result CreateAccessTicketResult) (s : MemoryStore)
      (r : CreateAccessTicketResult)
      → (store_result m key fingerprint ttl issued s).0 ≡ ok r
      → Holds (store_result m key fingerprint ttl issued s).1 key fingerprint r
  unfolding store_result
  store_result-Holds ttl (err e) s r h = absurd (ground arith)
  store_result-Holds ttl (ok result) s r h =
      after_put-Holds result r _ (put_if_absent-Holds result ttl (m.before_put s)) h

  after_get-Holds :
      (ttl : ℤ) (issued : Result CreateAccessTicketResult) (g : Option IssueRecord × MemoryStore)
      (r : CreateAccessTicketResult)
      → found_record (g.1 key) ≡ g.0
      → (after_get m key fingerprint ttl issued g).0 ≡ ok r
      → Holds (after_get m key fingerprint ttl issued g).1 key fingerprint r
  unfolding after_get
  after_get-Holds ttl issued (some x, s) r same h =
      same ∙ ap some (resolve_existing-record x fingerprint r h)
  after_get-Holds ttl issued (none, s) r same h = store_result-Holds ttl issued s r h

-- Where the first Get finds the result of a request with the same fingerprint, it is the answer.
found-answers :
    (m : Moment) (key fingerprint : Text) (ttl : ℤ) (issued : Result CreateAccessTicketResult)
    (g : Option IssueRecord × MemoryStore) (r : CreateAccessTicketResult)
    → g.0 ≡ some (record_of_result fingerprint r)
    → (after_get m key fingerprint ttl issued g).0 ≡ ok r
unfolding after_get resolve_existing
found-answers m key fingerprint ttl issued (some x, s) r h =
    ground (arith, text_eq_refl fingerprint)
found-answers m key fingerprint ttl issued (none, s) r h = absurd (ground arith)

absent-stores :
    (m : Moment) (key fingerprint : Text) (ttl : ℤ) (issued : Result CreateAccessTicketResult)
    (g : Option IssueRecord × MemoryStore)
    → g.0 ≡ none
    → after_get m key fingerprint ttl issued g ≡ store_result m key fingerprint ttl issued g.1
unfolding after_get
absent-stores m key fingerprint ttl issued (some x, s) h = absurd (ground arith)
absent-stores m key fingerprint ttl issued (none, s) h = refl

refused_put :
    (m : Moment) (key fingerprint : Text) (result : CreateAccessTicketResult) (ttl : ℤ)
    (s : MemoryStore) (x : IssueRecord)
    → (get m.cleaned key s).0 ≡ some x
    → put_if_absent m.cleaned m.stored key (record_of_result fingerprint result) ttl s
      ≡ (false, (get m.cleaned key s).1)
unfolding get put_if_absent
refused_put m key fingerprint result ttl s x h = ground arith

resolve_existing-own :
    (fingerprint : Text) (r : CreateAccessTicketResult)
    → resolve_existing (record_of_result fingerprint r) fingerprint ≡ ok r
unfolding resolve_existing
resolve_existing-own fingerprint r = ground (arith, text_eq_refl fingerprint)

alive-Holds :
    (now : Time) (key fingerprint : Text) (s : MemoryStore) (r : CreateAccessTicketResult)
    → Holds s key fingerprint r
    → is_some (get now key s).0 ≡ true
    → (get now key s).0 ≡ some (record_of_result fingerprint r)
unfolding get cleanup_expired
alive-Holds now key fingerprint s r h a = ground arith

other-refused :
    (m : Moment) (key fingerprint : Text) (ttl : ℤ) (issued : Result CreateAccessTicketResult)
    (g : Option IssueRecord × MemoryStore) (r : IssueRecord)
    → g.0 ≡ some r
    → text_eq r.fingerprint fingerprint ≡ false
    → after_get m key fingerprint ttl issued g ≡ (err key_in_use, g.1)
unfolding after_get resolve_existing
other-refused m key fingerprint ttl issued (some x, s) r h d = ground arith
other-refused m key fingerprint ttl issued (none, s) r h d = absurd (ground arith)

module _ (settings : Settings) (command : CreateAccessTicketCommand) {prepared : Prepared}
    (ready : prepare settings command ≡ ok prepared) {key fingerprint : Text}
    (keyed : prepared.idempotency ≡ some (key, fingerprint)) where
  -- With a key, the answer is the one after the first Get.
  keyed_answer :
      (p : IssuePorts) (m : Moment) (s : MemoryStore)
      → create_access_ticket settings p m command s
        ≡ after_get m key fingerprint prepared.ttl
            (issue_ticket settings p command prepared m.issued)
            (get m.loaded key s)
  unfolding create_access_ticket create_prepared answer_keyed
  keyed_answer p m s =
      ap (create_prepared settings p m command s) ready
      ∙ ap (answer_keyed m prepared.ttl (issue_ticket settings p command prepared m.issued) s) keyed

  answered-Holds :
      (p : IssuePorts) (m : Moment) (s : MemoryStore) (r : CreateAccessTicketResult)
      → (create_access_ticket settings p m command s).0 ≡ ok r
      → Holds (create_access_ticket settings p m command s).1 key fingerprint r
  unfolding get
  answered-Holds p m s r h = rw (keyed_answer p m s) (
      after_get-Holds m key fingerprint prepared.ttl _ (get m.loaded key s) r refl
        (sym (ap (λ b. b.0) (keyed_answer p m s)) ∙ h))

  -- If a request with an idempotency key got a ticket, the same request, repeated while the store
  -- still has the record, gets the same ticket, URL and expiry, whatever the files and the
  -- policies then are, and whatever other requests did to the store during the first one.
  pub replay-same_ticket :
      (p p' : IssuePorts) (m m' : Moment) (s : MemoryStore) (result : CreateAccessTicketResult)
      → (create_access_ticket settings p m command s).0 ≡ ok result
      → is_some (get m'.loaded key (create_access_ticket settings p m command s).1).0 ≡ true
      → (create_access_ticket settings p' m' command
          (create_access_ticket settings p m command s).1).0
        ≡ ok result
  unfolding get
  replay-same_ticket p p' m m' s result h a =
      ap (λ b. b.0) (keyed_answer p' m' (create_access_ticket settings p m command s).1)
      ∙ found-answers m' key fingerprint prepared.ttl _ _ result
          (alive-Holds m'.loaded key fingerprint _ result (answered-Holds p m s result h) a)

  -- If a request with an idempotency key has made its ticket, and another request with the same key
  -- and fingerprint has put its own ticket into the store in the meantime, the answer is the
  -- ticket of the other one, while that record lives.
  pub race-one_ticket :
      (p : IssuePorts) (m : Moment) (s : MemoryStore) (mine theirs : CreateAccessTicketResult)
      → issue_ticket settings p command prepared m.issued ≡ ok mine
      → (get m.loaded key s).0 ≡ none
      → (get m.cleaned key (m.before_put (get m.loaded key s).1)).0
        ≡ some (record_of_result fingerprint theirs)
      → (get m.reloaded key
          (m.before_reload (get m.cleaned key (m.before_put (get m.loaded key s).1)).1)).0
        ≡ some (record_of_result fingerprint theirs)
      → (create_access_ticket settings p m command s).0 ≡ ok theirs
  unfolding get put_if_absent after_get store_result after_put
  race-one_ticket p m s mine theirs i none_yet there still =
      ap (λ b. b.0) (keyed_answer p m s)
      ∙ ap (λ b. b.0) (absent-stores m key fingerprint prepared.ttl _ (get m.loaded key s) none_yet)
      ∙ ap (λ i. (store_result m key fingerprint prepared.ttl i (get m.loaded key s).1).0) i
      ∙ ap (λ q. (after_put m key fingerprint mine q).0)
          (refused_put m key fingerprint mine prepared.ttl (m.before_put (get m.loaded key s).1) _
            there)
      ∙ ap (λ o. reloaded_result o fingerprint) still
      ∙ resolve_existing-own fingerprint theirs

lives :
    (now : Time) (key : Text) (s : MemoryStore) (x : MemoryRecord)
    → s key ≡ some x
    → now < x.expires_at
    → cleanup_expired now s key ≡ some x
unfolding cleanup_expired
lives now key s x h l = ground arith

-- If a request with an idempotency key got a ticket, and a request of another fingerprint comes with
-- the same key while the store still has the record of the first, the second is refused with a
-- conflict, whatever the files and the policies then are, and no record whose time is not over is
-- lost or changed by it, that of the first included.
pub reuse-conflict :
    (settings : Settings) (command other : CreateAccessTicketCommand)
    {prepared prepared' : Prepared} (key : Text) {fingerprint fingerprint' : Text}
    → prepare settings command ≡ ok prepared
    → prepared.idempotency ≡ some (key, fingerprint)
    → prepare settings other ≡ ok prepared'
    → prepared'.idempotency ≡ some (key, fingerprint')
    → text_eq fingerprint fingerprint' ≡ false
    → (p p' : IssuePorts) (m m' : Moment) (s : MemoryStore) (result : CreateAccessTicketResult)
    → (create_access_ticket settings p m command s).0 ≡ ok result
    → (held : MemoryRecord) → (create_access_ticket settings p m command s).1 key ≡ some held
    → m'.loaded < held.expires_at
    → (k : Text) (x : MemoryRecord) → (create_access_ticket settings p m command s).1 k ≡ some x
    → m'.loaded < x.expires_at
    → ((create_access_ticket settings p' m' other (create_access_ticket settings p m command s).1).0
        ≡ err key_in_use)
      × ((create_access_ticket settings p' m' other
              (create_access_ticket settings p m command s).1).1
            k
          ≡ some x)
unfolding get
reuse-conflict settings command other {prepared} {prepared'} key {fingerprint} {fingerprint'} ready
      keyed ready' keyed' apart p p' m m' s result h held there live k x there' live' =
    let first = (create_access_ticket settings p m command s).1 in
    let holds = answered-Holds settings command ready keyed p m s result h in
    let found : (get m'.loaded key first).0 ≡ some (record_of_result fingerprint result) =
      ap found_record (lives m'.loaded key first held there live ∙ sym there) ∙ holds in
    let answer =
      keyed_answer settings other ready' keyed' p' m' first
      ∙ other-refused m' key fingerprint' prepared'.ttl _ (get m'.loaded key first)
          (record_of_result fingerprint result) found apart in
    (ap (λ b. b.0) answer, ap (λ b. b.1 k) answer ∙ lives m'.loaded k first x there' live')
