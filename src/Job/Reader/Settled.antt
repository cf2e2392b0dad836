-- ===== src/Job/Reader/Settled.antt =====
-- An event that was published is not handed out again.
use zhi_file_service_go.Common.{
  ◌≡◌, refl, ap, sym, ◌∙◌, inl, inr, true, false, Bool-cases, Option, none, some, List, [], ◌∷◌,
  All, Text, text_eq, text_eq_iff, trim, Time, arith,
}
use mathlib.Core.Path.{subst}
use zhi_file_service_go.Xerrors.{Err}
use zhi_file_service_go.Result.{ok}
use zhi_file_service_go.Upload.Tables.{OutboxRow, published, Tables, update_where}
use zhi_file_service_go.Job.Maintenance.{Database, oldest}
use zhi_file_service_go.Job.Maintenance.Batches.{All-oldest, All-map, All-update_where}
use zhi_file_service_go.Job.Reader.{
  ClaimQuery, is_event, is_claimable, candidates, claim_rows, claim_pending, mark_published,
  mark_failed, answered, claim_answer, publish_row, fail_row,
}
use zhi_file_service_go.Job.Reader.Leases.{claim_pending-Claimed, claimed_keys}

-- Calls of the readers, one after the other. MarkFailed is called of other events only.
pub data Calls (id : Text) (t : Tables) : Tables → Type 0 where
  here : Calls id t t
  claimed :
      (db : Database) (q : ClaimQuery) {u : Tables}
      → Calls id t u
      → Calls id t (claim_pending db q u).1
  marked :
      (db : Database) (other : Text) (at : Time) {u : Tables}
      → Calls id t u
      → Calls id t (mark_published db other at u).1
  failed :
      (db : Database) (other : Text) (at : Time) (message : Text) {u : Tables}
      → text_eq id (trim other) ≡ false
      → Calls id t u
      → Calls id t (mark_failed db other at message u).1

-- Every row of the event is PUBLISHED.
abbrev pub IsPublished : Text → OutboxRow → Type 0
IsPublished id r = text_eq r.event_id id ≡ true → r.status ≡ published

abbrev pub AllPublished : Text → Tables → Type 0
AllPublished id t = All (IsPublished id) t.outbox

answered-keeps {ℓ} :
    {A : Type ℓ} (P : Tables → Type 0) (fault : Option Err) (a : A) (after before : Tables)
    → P after
    → P before
    → P (answered fault a after before).1
answered-keeps P none a after before h k = h
answered-keeps P (some e) a after before h k = k

claim_answer-keeps :
    (P : Tables → Type 0) (fault undecoded : Option Err) (a : List OutboxRow)
    (after before : Tables)
    → P after
    → P before
    → P (claim_answer fault undecoded a after before).1
claim_answer-keeps P none none a after before h k = h
claim_answer-keeps P none (some e) a after before h k = h
claim_answer-keeps P (some e) undecoded a after before h k = k

module _ (id : Text) where
  claim-keeps :
      (db : Database) (q : ClaimQuery) (t : Tables)
      → AllPublished id t
      → AllPublished id (claim_pending db q t).1
  unfolding claim_pending claim_rows
  claim-keeps db q t h =
      claim_answer-keeps (AllPublished id) (db.fault 0) _ _ _ t
        (All-update_where (IsPublished id) _ _ t.outbox (λ x e k. k) h) h

  publish-keeps :
      (db : Database) (other : Text) (at : Time) (t : Tables)
      → AllPublished id t
      → AllPublished id (mark_published db other at t).1
  unfolding mark_published
  publish-keeps db other at t h =
      answered-keeps (AllPublished id) (db.fault 0) _ _ t
        (All-update_where (IsPublished id) (is_event (trim other)) (publish_row at) t.outbox
          (λ x e k. λ same. refl) h)
        h

  fail-keeps :
      (db : Database) (other : Text) (at : Time) (message : Text) (t : Tables)
      → text_eq id (trim other) ≡ false
      → AllPublished id t
      → AllPublished id (mark_failed db other at message t).1
  unfolding mark_failed
  fail-keeps db other at message t apart h =
      answered-keeps (AllPublished id) (db.fault 0) _ _ t
        (All-update_where (IsPublished id) (is_event (trim other)) (fail_row at) t.outbox
          (λ x e k. λ same. absurd (contra x e same)) h)
        h
    where
      contra : (x : OutboxRow) → is_event (trim other) x ≡ true → text_eq x.event_id id ≡ true → ⊥
      contra x e same =
          let named = (text_eq_iff x.event_id id).0 same in
          let k : text_eq x.event_id (trim other) ≡ false =
            ap (λ v. text_eq v (trim other)) named ∙ apart in
          ground arith

  pub Calls-AllPublished : {t u : Tables} → Calls id t u → AllPublished id t → AllPublished id u
  Calls-AllPublished here h = h
  Calls-AllPublished (claimed db q r) h = claim-keeps db q _ (Calls-AllPublished r h)
  Calls-AllPublished (marked db other at r) h = publish-keeps db other at _ (Calls-AllPublished r h)
  Calls-AllPublished (failed db other at m apart r) h =
      fail-keeps db other at m _ apart (Calls-AllPublished r h)

  published_now :
      (db : Database) (given : Text) (at : Time) (t : Tables)
      → db.fault 0 ≡ none
      → id ≡ trim given
      → AllPublished id (mark_published db given at t).1
  unfolding mark_published
  published_now db given at t f e = rw f (go t.outbox)
    where
      go :
          (rows : List OutboxRow)
          → All (IsPublished id) (update_where (is_event (trim given)) (publish_row at) rows)
      go [] = tt
      go (r ∷ rows) = elim (Bool-cases (is_event (trim given) r)) [
        | inl k ↦ rw k ((λ same. refl), go rows)
        | inr k ↦ rw k ((λ same. absurd (ground (arith, e, k, same))), go rows)
      ]

  unpublished_only :
      (db : Database) (q : ClaimQuery) (t : Tables)
      → AllPublished id t
      → All (λ c. text_eq c.event_id id ≡ false) (candidates db q t)
  unfolding candidates is_claimable
  unpublished_only db q t h =
      All-map _ _ (oldest (is_claimable db q) (λ r. r.created_at) q.limit t.outbox)
        (λ c k. other c k.0 k.1)
        (All-oldest (IsPublished id) (is_claimable db q) (λ r. r.created_at) q.limit t.outbox h)
    where
      other :
          (c : OutboxRow)
          → is_claimable db q c ≡ true
          → IsPublished id c
          → text_eq c.event_id id ≡ false
      other c a p = elim (Bool-cases (text_eq c.event_id id)) [
        | inl e ↦ let done = p e in absurd (ground arith)
        | inr e ↦ e
      ]

-- Once MarkPublished has marked an event, no claim hands it out again, however many claims and
-- marks of the readers come between, unless MarkFailed is called of the same event: MarkFailed
-- does not ask whether the event was published.
pub published_once :
    (db : Database) (event_id : Text) (at : Time) (t u : Tables)
    → db.fault 0 ≡ none
    → Calls (trim event_id) (mark_published db event_id at t).1 u
    → (db' : Database) (q : ClaimQuery) (events : List OutboxRow)
    → (claim_pending db' q u).0 ≡ ok events
    → All (λ e. text_eq e.event_id (trim event_id) ≡ false) events
published_once db event_id at t u f calls db' q events h =
    let id = trim event_id in
    let done = claim_pending-Claimed db' q u events h in
    let kept = Calls-AllPublished id calls (published_now id db event_id at t f refl) in
    subst (All (λ e. text_eq e.event_id id ≡ false)) (sym done.events_are) (
      claimed_keys (λ k. text_eq k id ≡ false) db' (candidates db' q u) (claim_pending db' q u).1
        (unpublished_only id db' q u kept))
