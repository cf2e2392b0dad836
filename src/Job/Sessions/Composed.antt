-- ===== src/Job/Sessions/Composed.antt =====
-- ExpirePendingSessions beside the completion of an upload: the session is expired after its
-- completion was acquired and before its commit.
use zhi_file_service_go.Common.{
  ◌≡◌, refl, ap, sym, ◌∙◌, inl, inr, Bool, true, false, Bool-cases, ◌&&◌, Option, none, some, List,
  [], ◌∷◌, any, Text, text_eq, text_eq_iff, ℤ, Time, arith,
}
use zhi_file_service_go.Xerrors.{Err}
use zhi_file_service_go.Result.{Result, ok, err}
use zhi_file_service_go.Upload.Session.{Session}
use zhi_file_service_go.Upload.Rows.{SessionRow}
use zhi_file_service_go.Upload.Tables.{Tables, find_row, update_where, is_session, has_token}
use zhi_file_service_go.Upload.World.{World, Env, settled}
use zhi_file_service_go.Upload.View.{CompletedUploadSession}
use zhi_file_service_go.Upload.Materialize.{MaterializedUpload}
use zhi_file_service_go.Upload.Repositories.{read_session}
use zhi_file_service_go.Upload.Completion.{commit}
use zhi_file_service_go.Upload.Completion.Commit.Outcome.{commit-Committed, commit_fails}
use zhi_file_service_go.Job.Maintenance.{Database, oldest, is_among, executed}
use zhi_file_service_go.Job.Sessions.{
  session_key, is_overdue, expire_row, update_chosen, expire_pending_sessions,
}

-- A session that is among the chosen, by its key.
abbrev pub is_chosen : List SessionRow → Text → Bool
is_chosen chosen id = any (λ c. text_eq c.upload_session_id id) chosen

find_row-none :
    (p : SessionRow → Bool) (x : SessionRow) (rest : List SessionRow)
    → p x ≡ false
    → find_row p rest ≡ none
    → find_row p (x ∷ rest) ≡ none
find_row-none p x rest h k = ground arith

module _ (tenant_id id token : Text) where
  holds : SessionRow → Bool
  holds r = is_session tenant_id id r && has_token token r.completion_token

  expired_holds_none : (now : Time) (r : SessionRow) → holds (expire_row now r) ≡ false
  unfolding holds expire_row
  expired_holds_none now r = ground arith

  other_holds_none :
      (chosen : List SessionRow) (r : SessionRow)
      → is_chosen chosen id ≡ true
      → is_among session_key chosen r ≡ false
      → holds r ≡ false
  unfolding holds is_among
  other_holds_none chosen r h k = elim (Bool-cases (text_eq r.upload_session_id id)) [
    | inl e ↦ absurd (contra (same e))
    | inr e ↦ ground arith
  ]
    where
      same : text_eq r.upload_session_id id ≡ true → r.upload_session_id ≡ id
      same e = (text_eq_iff r.upload_session_id id).0 e

      contra : r.upload_session_id ≡ id → ⊥
      contra e =
          let k' : is_chosen chosen id ≡ false = ap (is_chosen chosen) (sym e) ∙ k in ground arith

  -- Once the session is expired, no row holds it under its completion token.
  gone :
      (chosen : List SessionRow) (now : Time) (rows : List SessionRow)
      → is_chosen chosen id ≡ true
      → find_row holds (update_where (is_among session_key chosen) (expire_row now) rows) ≡ none
  gone chosen now [] h = refl
  gone chosen now (r ∷ rows) h = elim (Bool-cases (is_among session_key chosen r)) [
    | inl e ↦ rw e (
        find_row-none holds (expire_row now r) _ (expired_holds_none now r)
          (gone chosen now rows h))
    | inr e ↦
        rw e (find_row-none holds r _ (other_holds_none chosen r h e) (gone chosen now rows h))
  ]

module _ (db : Database) (cutoff : Time) (limit : ℤ) (t : Tables) where
  gone_after :
      (tenant_id id token : Text)
      → db.fault 0 ≡ none
      → is_chosen (oldest (is_overdue db cutoff limit) (λ r. r.expires_at) limit t.sessions) id
        ≡ true
      → find_row
          (λ r. is_session tenant_id id r && has_token token r.completion_token)
          (expire_pending_sessions db cutoff limit t).1.sessions
        ≡ none
  unfolding expire_pending_sessions update_chosen executed holds
  gone_after tenant_id id token f h = rw f (
      gone tenant_id id token
        (oldest (is_overdue db cutoff limit) (λ r. r.expires_at) limit t.sessions) db.now t.sessions
        h)

  not_found :
      (session : Session) (owned : Session) (found : Option SessionRow)
      → found ≡ none
      → ¬ (read_session "confirm completion owner" session.id found ≡ ok owned)
  not_found session owned none e h = cc
  not_found session owned (some r) e h = cc

  -- A commit whose transaction begins on the tables as ExpirePendingSessions left them, its
  -- session among those that were due and chosen, fails whatever its token, and writes nothing:
  -- an expired session is never completed.
  pub commit_after_expiry :
      (env : Env) (session : Session) (token : Text) (m : MaterializedUpload) (request_id : Text)
      (w : World)
      → w.in_transaction ≡ false
      → db.fault 0 ≡ none
      → is_chosen
          (oldest (is_overdue db cutoff limit) (λ r. r.expires_at) limit t.sessions)
          session.id
        ≡ true
      → (settled env w).tables ≡ (expire_pending_sessions db cutoff limit t).1
      → (e : Err) × ((commit env session token m request_id w).0 ≡ err e)
        × ((commit env session token m request_id w).1.tables ≡ (settled env w).tables)
  commit_after_expiry env session token m request_id w n f h s =
      go (commit env session token m request_id w) refl
    where
      go :
          (r : Result CompletedUploadSession × World)
          → commit env session token m request_id w ≡ r
          → (e : Err) × (r.0 ≡ err e) × (r.1.tables ≡ (settled env w).tables)
      go (err e, v) k = (e, refl, commit_fails env session token m request_id w e v n k)
      go (ok view, v) k =
          let done = commit-Committed env session token m request_id w view v n k in
          let none_left =
            ap
              (λ (u : Tables).
                find_row
                  (λ r.
                    is_session session.tenant_id session.id r && has_token token r.completion_token)
                  u.sessions)
              s
            ∙ gone_after session.tenant_id session.id token f h in
          absurd (not_found session done.owned _ none_left done.found)
