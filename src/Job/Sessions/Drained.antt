-- ===== src/Job/Sessions/Drained.antt =====
-- The job that expires sessions gets through all that are due.
use zhi_file_service_go.Common.{
  ◌≡◌, refl, ap, sym, ◌∙◌, inl, inr, ◌≤◌, ◌<◌, ℕ, zero, suc, Bool, true, false, Bool-cases, ◌&&◌,
  none, List, [], ◌∷◌, All, is_nil, length, leb, ltb, Text, ℤ, Time, arith,
}
use zhi_file_service_go.Upload.Rows.{SessionRow}
use zhi_file_service_go.Upload.Tables.{Tables, keep_where, update_where}
use zhi_file_service_go.Job.Maintenance.{Database, oldest, is_among, executed}
use zhi_file_service_go.Job.Maintenance.Batches.{
  All-oldest, All-map, oldest-nonempty, is_among-head,
}
use zhi_file_service_go.Job.Sessions.{
  session_key, is_pending, is_overdue, expire_row, update_chosen, expire_pending_sessions,
}

-- A session that is due, whether or not its row is locked.
abbrev pub is_due : Time → SessionRow → Bool
is_due cutoff r = is_pending r.status && leb r.expires_at cutoff

abbrev count : (SessionRow → Bool) → List SessionRow → ℕ
count p rows = length (keep_where p rows)

abbrev pub due_sessions : Time → Tables → ℕ
due_sessions cutoff t = count (is_due cutoff) t.sessions

module _ (cutoff now : Time) where
  expired_not_due : (r : SessionRow) → is_due cutoff (expire_row now r) ≡ false
  unfolding expire_row
  expired_not_due r = ground arith

  abbrev after : List SessionRow → List SessionRow → List SessionRow
  after chosen rows = update_where (is_among session_key chosen) (expire_row now) rows

  count-le :
      (chosen rows : List SessionRow)
      → count (is_due cutoff) (after chosen rows) ≤ count (is_due cutoff) rows
  count-le chosen [] = omega arith
  count-le chosen (r ∷ rows) = ground (
    arith,
    Bool-cases (is_among session_key chosen r),
    Bool-cases (is_due cutoff r),
    expired_not_due r,
    count-le chosen rows,
  )

  -- Fewer are due when a due row is among the chosen.
  abbrev Decreases : List SessionRow → SessionRow → Type 0
  Decreases rows c =
      (chosen : List SessionRow)
      → is_among session_key chosen c ≡ true
      → is_due cutoff c ≡ true
      → count (is_due cutoff) (after chosen rows) < count (is_due cutoff) rows

  Decreases-head : (r : SessionRow) (rows : List SessionRow) → Decreases (r ∷ rows) r
  Decreases-head r rows chosen h d =
      let rest = count-le chosen rows in ground (arith, h, d, expired_not_due r, rest)

  Decreases-cons :
      (r c : SessionRow) (rows : List SessionRow) → Decreases rows c → Decreases (r ∷ rows) c
  Decreases-cons r c rows k chosen h d =
      let rest = k chosen h d in
      ground (
        arith,
        Bool-cases (is_among session_key chosen r),
        Bool-cases (is_due cutoff r),
        expired_not_due r,
        rest,
      )

  All-Decreases : (rows : List SessionRow) → All (Decreases rows) rows
  All-Decreases [] = tt
  All-Decreases (r ∷ rows) = (
    Decreases-head r rows,
    All-map (Decreases rows) (Decreases (r ∷ rows)) rows (λ c. Decreases-cons r c rows)
        (All-Decreases rows),
  )

-- A database in which the statement does not fail and no other transaction holds a row.
pub record IsFree (db : Database) : Type 0 where
  pub answers : db.fault 0 ≡ none
  pub unlocked : (id : Text) → db.is_locked id ≡ false

module _ (db : Database) (cutoff : Time) (limit : ℤ) (free : IsFree db) where
  overdue_is_due : (r : SessionRow) → is_overdue db cutoff limit r ≡ is_due cutoff r
  unfolding is_overdue
  overdue_is_due r = let u = free.unlocked r.upload_session_id in ground arith

  keep_overdue :
      (rows : List SessionRow)
      → keep_where (is_overdue db cutoff limit) rows ≡ keep_where (is_due cutoff) rows
  keep_overdue [] = refl
  keep_overdue (r ∷ rows) = rw (overdue_is_due r, keep_overdue rows) refl

  abbrev chosen : Tables → List SessionRow
  chosen t = oldest (is_overdue db cutoff limit) (λ r. r.expires_at) limit t.sessions

  chosen-nonempty : (t : Tables) → 0 < due_sessions cutoff t → is_nil (chosen t) ≡ false
  chosen-nonempty t h =
      oldest-nonempty (is_overdue db cutoff limit) (λ r. r.expires_at) limit t.sessions
        (ap is_nil (keep_overdue t.sessions) ∙ some_due h)
    where
      some_due : 0 < due_sessions cutoff t → is_nil (keep_where (is_due cutoff) t.sessions) ≡ false
      some_due h = ground arith

  fewer :
      (t : Tables)
      → 0 < due_sessions cutoff t
      → due_sessions cutoff (expire_pending_sessions db cutoff limit t).1 < due_sessions cutoff t
  unfolding expire_pending_sessions update_chosen executed
  fewer t h =
      let decreasing =
        All-oldest (Decreases cutoff db.now t.sessions) (is_overdue db cutoff limit)
          (λ r. r.expires_at) limit t.sessions (All-Decreases cutoff db.now t.sessions) in
      rw free.answers (from_chosen (chosen t) (chosen-nonempty t h) decreasing)
    where
      from_chosen :
          (cs : List SessionRow)
          → is_nil cs ≡ false
          → All
              (λ x. (is_overdue db cutoff limit x ≡ true) × Decreases cutoff db.now t.sessions x)
              cs
          → count (is_due cutoff) (after cutoff db.now cs t.sessions)
            < count (is_due cutoff) t.sessions
      from_chosen [] n d = absurd (ground arith)
      from_chosen (c ∷ cs) n d =
          d.0.1 (c ∷ cs) (is_among-head session_key c cs) (sym (overdue_is_due c) ∙ d.0.0)

  no_more :
      (t : Tables)
      → due_sessions cutoff (expire_pending_sessions db cutoff limit t).1 ≤ due_sessions cutoff t
  unfolding expire_pending_sessions update_chosen executed
  no_more t = rw free.answers (count-le cutoff db.now (chosen t) t.sessions)

-- The runs of the job, each with its own database.
abbrev pub runs : (ℕ → Database) → Time → ℤ → ℕ → Tables → Tables
runs dbs cutoff limit zero t = t
runs dbs cutoff limit (suc n) t =
    runs (λ k. dbs (suc k)) cutoff limit n (expire_pending_sessions (dbs 0) cutoff limit t).1

-- Runs of ExpirePendingSessions that do not fail and find no row locked leave no session that is
-- due by the cutoff once there have been as many as sessions were due, whatever the batch size is,
-- also 0 and negative ones: each run expires one at least.
pub runs-drain :
    (dbs : ℕ → Database) (cutoff : Time) (limit : ℤ)
    → ((k : ℕ) → IsFree (dbs k))
    → (n : ℕ) (t : Tables) → due_sessions cutoff t ≤ n
    → due_sessions cutoff (runs dbs cutoff limit n t) ≡ 0
runs-drain dbs cutoff limit free zero t h = omega arith
runs-drain dbs cutoff limit free (suc n) t h =
    runs-drain (λ k. dbs (suc k)) cutoff limit (λ k. free (suc k)) n
      (expire_pending_sessions (dbs 0) cutoff limit t).1 (fits h)
  where
    fits :
        due_sessions cutoff t ≤ suc n
        → due_sessions cutoff (expire_pending_sessions (dbs 0) cutoff limit t).1 ≤ n
    fits h =
        let rest = no_more (dbs 0) cutoff limit (free 0) t in
        elim (Bool-cases (ltb 0 (due_sessions cutoff t))) [
          | inl e ↦ let less = fewer (dbs 0) cutoff limit (free 0) t (ground arith) in omega arith
          | inr e ↦ ground arith
        ]
