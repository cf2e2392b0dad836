-- ===== src/Job/Reader/Leases.antt =====
-- An event that was claimed is not claimed again while its lease runs.
use zhi_file_service_go.Common.{
  ◌≡◌, refl, ap, sym, ◌∙◌, ◌<◌, ◌+◌, inl, inr, true, false, Bool-cases, Option, none, some, List,
  [], ◌∷◌, All, Text, Time, arith,
}
use mathlib.Core.Path.{subst}
use zhi_file_service_go.Xerrors.{Err}
use zhi_file_service_go.Result.{ok}
use zhi_file_service_go.Upload.Tables.{OutboxRow, Tables, update_where}
use zhi_file_service_go.Job.Maintenance.{Database, oldest, is_among}
use zhi_file_service_go.Job.Maintenance.Batches.{
  All-oldest, All-keep_where, All-map, is_among-along, is_among-key,
}
use zhi_file_service_go.Job.Reader.{
  ClaimQuery, claim_lease, event_key, claim_row, is_claimable, candidates, claim_rows, claimed_rows,
  claim_pending, claim_answer, first_undecoded,
}

-- A row that was claimed until a time is not claimable before it.
leased :
    (db : Database) (q : ClaimQuery) (now until : Time) (r : OutboxRow)
    → q.due_before < until
    → is_claimable db q (claim_row now until r) ≡ false
unfolding is_claimable
leased db q now until r h = ground arith

module _ (db : Database) (q : ClaimQuery) (now until : Time) (chosen : List OutboxRow)
    (h : q.due_before < until) where
  abbrev IsLeased : OutboxRow → Type 0
  IsLeased r = is_among event_key chosen r ≡ true → is_claimable db q r ≡ false

  All-IsLeased :
      (rows : List OutboxRow)
      → All IsLeased (update_where (is_among event_key chosen) (claim_row now until) rows)
  All-IsLeased [] = tt
  All-IsLeased (r ∷ rows) = elim (Bool-cases (is_among event_key chosen r)) [
    | inl e ↦ rw e ((λ a. leased db q now until r h), All-IsLeased rows)
    | inr e ↦ rw e ((λ a. absurd (ground arith)), All-IsLeased rows)
  ]

-- What a claim that answers has done.
pub record Claimed (db : Database) (q : ClaimQuery) (t : Tables) (events : List OutboxRow)
    (after : Tables) : Type 0 where
  pub wrote : after ≡ claim_rows db q (candidates db q t) t
  pub events_are : events ≡ claimed_rows db (candidates db q t) after

claim_answer-eq-ok :
    (fault undecoded : Option Err) (a : List OutboxRow) (after before : Tables) (x : List OutboxRow)
    → (claim_answer fault undecoded a after before).0 ≡ ok x
    → ((claim_answer fault undecoded a after before).1 ≡ after) × (x ≡ a)
claim_answer-eq-ok none none a after before x h = (refl, sym (ground arith))
claim_answer-eq-ok none (some e) a after before x h = absurd (ground arith)
claim_answer-eq-ok (some e) undecoded a after before x h = absurd (ground arith)

pub claim_pending-Claimed :
    (db : Database) (q : ClaimQuery) (t : Tables) (events : List OutboxRow)
    → (claim_pending db q t).0 ≡ ok events
    → Claimed db q t events (claim_pending db q t).1
unfolding claim_pending
claim_pending-Claimed db q t events h =
    let chosen = candidates db q t in
    let after = claim_rows db q chosen t in
    let (wrote, same) =
      claim_answer-eq-ok (db.fault 0) (first_undecoded db (claimed_rows db chosen after))
        (claimed_rows db chosen after) after t events h in
    record { wrote = wrote; events_are = same ∙ ap (claimed_rows db chosen) (sym wrote) }

pub claimed-All :
    (P : OutboxRow → Type 0) (db : Database) (chosen : List OutboxRow) (t : Tables)
    → All P t.outbox
    → All (λ e. (is_among event_key chosen e ≡ true) × P e) (claimed_rows db chosen t)
unfolding claimed_rows
claimed-All P db chosen t h = All-keep_where P (is_among event_key chosen) t.outbox h

All-of : (rows : List OutboxRow) → All (λ e. Unit {0}) rows
All-of [] = tt
All-of (r ∷ rows) = (tt, All-of rows)

-- What holds of the keys of the candidates holds of those of the events handed out.
pub claimed_keys :
    (P : Text → Type 0) (db : Database) (chosen : List OutboxRow) (t : Tables)
    → All (λ c. P c.event_id) chosen
    → All (λ e. P e.event_id) (claimed_rows db chosen t)
claimed_keys P db chosen t h =
    All-map _ _ (claimed_rows db chosen t) (λ e k. is_among-key event_key P chosen e h k.0)
      (claimed-All (λ e. Unit {0}) db chosen t (All-of t.outbox))

module _ (chosen events : List OutboxRow)
    (known : All (λ e. is_among event_key chosen e ≡ true) events) where
  not_again :
      (e : OutboxRow) → is_among event_key chosen e ≡ false → is_among event_key events e ≡ false
  not_again e h = elim (Bool-cases (is_among event_key events e)) [
    | inl k ↦ absurd (differ (is_among-along event_key chosen true events e known k))
    | inr k ↦ k
  ]
    where
      differ : is_among event_key chosen e ≡ true → ⊥
      differ k = cc

  handed_apart :
      (chosen' : List OutboxRow) (db : Database) (t : Tables)
      → All (λ c. is_among event_key chosen c ≡ false) chosen'
      → All (λ e. is_among event_key events e ≡ false) (claimed_rows db chosen' t)
  handed_apart chosen' db t h =
      All-map _ _ (claimed_rows db chosen' t)
        (λ e k. not_again e (is_among-along event_key chosen false chosen' e h k.0))
        (claimed-All (λ e. Unit {0}) db chosen' t (All-of t.outbox))

candidates_apart :
    (db' : Database) (q' : ClaimQuery) (chosen : List OutboxRow) (t : Tables)
    → All (λ r. is_among event_key chosen r ≡ true → is_claimable db' q' r ≡ false) t.outbox
    → All (λ c. is_among event_key chosen c ≡ false) (candidates db' q' t)
unfolding candidates
candidates_apart db' q' chosen t h =
    All-map _ _ (oldest (is_claimable db' q') (λ r. r.created_at) q'.limit t.outbox)
      (λ c k. free c k.0 k.1)
      (All-oldest _ (is_claimable db' q') (λ r. r.created_at) q'.limit t.outbox h)
  where
    free :
        (c : OutboxRow)
        → is_claimable db' q' c ≡ true
        → (is_among event_key chosen c ≡ true → is_claimable db' q' c ≡ false)
        → is_among event_key chosen c ≡ false
    free c a b = elim (Bool-cases (is_among event_key chosen c)) [
      | inl e ↦ absurd (differ (b e))
      | inr e ↦ e
    ]
      where
        differ : is_claimable db' q' c ≡ false → ⊥
        differ k = cc

leased_table :
    (db db' : Database) (q q' : ClaimQuery) (chosen : List OutboxRow) (t : Tables)
    → q'.due_before < q.due_before + claim_lease
    → All
        (λ r. is_among event_key chosen r ≡ true → is_claimable db' q' r ≡ false)
        (claim_rows db q chosen t).outbox
unfolding claim_rows
leased_table db db' q q' chosen t h =
    All-IsLeased db' q' db.now (q.due_before + claim_lease) chosen h t.outbox

-- Two claims in a row that both answer, by any two readers, hand out no event twice, by its
-- identifier, while the second asks for what is due before the lease of the first ends, five
-- minutes after the time that the first asked for.
pub claims-apart :
    (db db' : Database) (q q' : ClaimQuery) (t : Tables) (events events' : List OutboxRow)
    → (claim_pending db q t).0 ≡ ok events
    → (claim_pending db' q' (claim_pending db q t).1).0 ≡ ok events'
    → q'.due_before < q.due_before + claim_lease
    → All (λ e. is_among event_key events e ≡ false) events'
claims-apart db db' q q' t events events' h h' lease =
    let first = claim_pending-Claimed db q t events h in
    let middle = (claim_pending db q t).1 in
    let second = claim_pending-Claimed db' q' middle events' h' in
    let chosen = candidates db q t in
    let apart = candidates_apart db' q' chosen middle (
      subst
        (λ (u : Tables).
          All (λ r. is_among event_key chosen r ≡ true → is_claimable db' q' r ≡ false) u.outbox)
        (sym first.wrote) (leased_table db db' q q' chosen t lease)) in
    let known = subst (All (λ e. is_among event_key chosen e ≡ true)) (sym first.events_are) (
      All-map _ _ (claimed_rows db chosen middle) (λ e k. k.0)
        (claimed-All (λ e. Unit {0}) db chosen middle (All-of middle.outbox))) in
    subst (All (λ e. is_among event_key events e ≡ false)) (sym second.events_are) (
      handed_apart chosen events known (candidates db' q' middle) db'
        (claim_pending db' q' middle).1 apart)
