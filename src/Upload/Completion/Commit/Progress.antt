-- ===== src/Upload/Completion/Commit/Progress.antt =====
-- A commit returns where the database answers and the session is completing.
use zhi_file_service_go.Common.{
  ◌≡◌, ◌≤◌, refl, ap, sym, ◌∙◌, Bool, true, false, ◌&&◌, any, not, Option, none, some, List, String,
  Text, is_blank, leb_ℤ, Time, if◌then◌else◌, arith,
}
use mathlib.Core.Path.{subst}
use zhi_file_service_go.Xerrors.{Err}
use zhi_file_service_go.Result.{ok, accepted}
use zhi_file_service_go.Upload.Status.{completing, is_completed}
use zhi_file_service_go.Upload.Session.{Session}
use zhi_file_service_go.Upload.Validation.Facts.{IsValid}
use zhi_file_service_go.Upload.Lifecycle.{mark_completed}
use zhi_file_service_go.Upload.Lifecycle.Validity.{as_completed, mark_completed_succeeds}
use zhi_file_service_go.Upload.Rows.{SessionRow, to_row}
use zhi_file_service_go.Upload.Tables.{
  Tables, is_session, has_token, find_row, save_row, update_where, saved_over,
}
use zhi_file_service_go.Upload.Statements.{
  DedupHit, OutboxMessage, upsert_blob_row, adjust_count, insert_file, apply_usage, insert_event,
}
use zhi_file_service_go.Upload.Tables.Find.{find_row-any}
use zhi_file_service_go.Upload.World.{World, Env, ◌>>=◌, pure, raise_if, clock, exec, settled}
use zhi_file_service_go.Upload.World.Laws.{opened}
use zhi_file_service_go.Upload.World.Progress.{
  Reliable, Still, Goes, Any, bind-Goes, Ends, ends_of, bind-Ends, pure-Goes, lift-Goes,
  statement-Goes, clock-Goes, generate-Goes, transaction-Ends,
}
use zhi_file_service_go.Upload.Repositories.{
  read_session, save_session, confirm_completion_owner, upsert_blob, adjust_reference_count,
  create_file_asset, apply_delta, enqueue,
}
use zhi_file_service_go.Upload.Materialize.{MaterializedUpload, internal, or_else_wrap}
use zhi_file_service_go.Upload.Completion.Commit.Done.{IsTrimmed, read_session-Owned, Owned-Keys}
use zhi_file_service_go.Upload.Completion.{
  completed_view, completed_payload, blob_id_for, write_records, complete_owned, commit_owned,
  commit_unless_done, commit_body, commit, counted,
}

-- The rows as Save leaves them.
abbrev saved : Session → List SessionRow → List SessionRow
saved s rows = update_where (is_session s.tenant_id s.id) (saved_over (to_row s)) rows

counted-IsValid :
    (owned : Session) (m : MaterializedUpload)
    → IsValid owned
    → leb_ℤ (counted m owned) owned.total_parts ≡ true
    → IsValid (record owned { completed_parts = counted m owned })
unfolding counted
counted-IsValid owned m v fits = ground arith

module _ (since : Time) (env : Env) (reliable : Reliable since env) where
  timed-Goes :
      (message : String) (f : Time → Tables → Tables) (rows : List SessionRow) (w : World)
      → ((now : Time) (t : Tables) → (f now t).sessions ≡ t.sessions)
      → Still rows w
      → Goes Any rows (clock env >>= λ now. exec env message (f now)) w
  timed-Goes message f rows w keeps s =
      bind-Goes _ _ rows rows _ _ w (clock-Goes since env reliable rows w s) (λ now v h u.
        let g =
          statement-Goes since env reliable message (λ t. (tt, f now t)) rows rows v
            (λ t same. keeps now t ∙ same) u in
        record {
          value = g.value;
          after = g.after;
          returns = g.returns;
          holds = tt;
          still = g.still;
        })

  write_records-Goes :
      (owned : Session) (m : MaterializedUpload) (blob_id file_id : Text) (rows : List SessionRow)
      (w : World)
      → Still rows w
      → Goes Any rows (write_records env owned m blob_id file_id) w
  unfolding write_records upsert_blob adjust_reference_count create_file_asset apply_delta
      upsert_blob_row adjust_count insert_file apply_usage
  write_records-Goes owned m blob_id file_id rows w s =
      bind-Goes Any Any rows rows _ _ w (timed-Goes _ _ rows w (λ now t. refl) s) (λ u1 w1 h1 s1.
        bind-Goes Any Any rows rows _ _ w1 (timed-Goes _ _ rows w1 (λ now t. refl) s1)
          (λ u2 w2 h2 s2.
            bind-Goes Any Any rows rows _ _ w2 (timed-Goes _ _ rows w2 (λ now t. refl) s2)
              (λ u3 w3 h3 s3. timed-Goes _ _ rows w3 (λ now t. refl) s3)))

  blob-Goes :
      (hit : Option DedupHit) (rows : List SessionRow) (w : World)
      → Still rows w
      → Goes Any rows (blob_id_for env hit) w
  unfolding blob_id_for
  blob-Goes none rows w s =
      let g = generate-Goes since env reliable _ rows w s in
      record { value = g.value; after = g.after; returns = g.returns; holds = tt; still = g.still }
  blob-Goes (some hit) rows w s = pure-Goes hit.blob_id rows w s

  enqueue-Goes :
      (msg : OutboxMessage) (rows : List SessionRow) (w : World)
      → Still rows w
      → Goes Any rows (enqueue env msg) w
  unfolding enqueue insert_event
  enqueue-Goes msg rows w s =
      bind-Goes _ Any rows rows _ _ w (generate-Goes since env reliable _ rows w s)
        (λ id v h u. timed-Goes _ _ rows v (λ now t. refl) u)

  raise_if-Goes :
      (b : Bool) (e : Err) (rows : List SessionRow) (w : World)
      → b ≡ false
      → Still rows w
      → Goes Any rows (raise_if b e) w
  unfolding raise_if pure
  raise_if-Goes true e rows w h s = absurd (ground arith)
  raise_if-Goes false e rows w h s = pure-Goes tt rows w s

  -- Save, of a session that is there.
  save-Goes :
      (s : Session) (rows : List SessionRow) (w : World)
      → any (is_session s.tenant_id s.id) rows ≡ true
      → Still rows w
      → Goes Any (saved s rows) (save_session env s) w
  unfolding save_session save_row to_row
  save-Goes s rows w there u =
      bind-Goes _ Any (saved s rows) (saved s rows) _ _ w
        (statement-Goes since env reliable "save upload session"
          (λ t. (any (is_session s.tenant_id s.id) t.sessions, save_row (to_row s) t)) rows
          (saved s rows) w (λ t same. ap (saved s) same) u)
        (λ found v h still.
          raise_if-Goes (not found) _ (saved s rows) v
            (ap not (h ∙ ap (any (is_session s.tenant_id s.id)) u.on ∙ there)) still)

  complete_owned-Ends :
      (owned : Session) (m : MaterializedUpload) (blob_id file_id request_id : Text)
      (rows : List SessionRow) (w : World)
      → IsValid owned
      → owned.status ≡ completing
      → owned.created_at ≤ since
      → leb_ℤ (counted m owned) owned.total_parts ≡ true
      → is_blank file_id ≡ false
      → any (is_session owned.tenant_id owned.id) rows ≡ true
      → Still rows w
      → Ends (complete_owned env owned m blob_id file_id request_id) w
  unfolding complete_owned
  complete_owned-Ends owned m blob_id file_id request_id rows w valid at older fits named there s =
      let s2 = record owned { completed_parts = counted m owned } in
      bind-Ends _ rows _ _ w (clock-Goes since env reliable rows w s) (λ now w1 h1 s1.
        let marked = as_completed file_id now s2 in
        let done : mark_completed file_id now s2 ≡ (accepted, marked) =
          (mark_completed_succeeds file_id now s2 (counted-IsValid owned m valid fits) at named
            (ground (arith, older, h1))).0 in
        bind-Ends _ rows _ _ w1 (lift-Goes _ _ rows w1 (ap (λ c. c.0) done) s1) (λ u2 w2 h2 s2.
          bind-Ends _ (saved marked rows) _ _ w2
            (subst (λ x. Goes Any (saved marked rows) (save_session env x) w2)
              (ap (λ c. c.1) (sym done)) (save-Goes marked rows w2 there s2))
            (λ u3 w3 h3 s3.
              bind-Ends _ (saved marked rows) _ _ w3 (clock-Goes since env reliable _ w3 s3)
                (λ at4 w4 h4 s4.
                  let made = reliable.encodes (
                    completed_payload
                      (mark_completed file_id now
                        (record owned { completed_parts = counted m owned })).1
                      m blob_id file_id request_id at4) in
                  bind-Ends _ (saved marked rows) _ _ w4
                    (lift-Goes _ made.0 _ w4
                      (ap (or_else_wrap (internal "marshal upload completed payload")) made.1) s4)
                    (λ p5 w5 h5 s5.
                      bind-Ends _ (saved marked rows) _ _ w5 (enqueue-Goes _ _ w5 s5)
                        (λ u6 w6 h6 s6. ends_of (pure-Goes _ _ w6 s6)))))))

  commit_owned-Ends :
      (owned : Session) (m : MaterializedUpload) (request_id : Text) (rows : List SessionRow)
      (w : World)
      → IsValid owned
      → owned.status ≡ completing
      → owned.created_at ≤ since
      → leb_ℤ (counted m owned) owned.total_parts ≡ true
      → any (is_session owned.tenant_id owned.id) rows ≡ true
      → Still rows w
      → Ends (commit_owned env owned m request_id) w
  unfolding commit_owned
  commit_owned-Ends owned m request_id rows w valid at older fits there s =
      bind-Ends _ rows _ _ w (blob-Goes m.dedup_decision rows w s) (λ blob_id w1 h1 s1.
        bind-Ends _ rows _ _ w1 (generate-Goes since env reliable _ rows w1 s1) (λ file_id w2 h2 s2.
          bind-Ends _ rows _ _ w2 (write_records-Goes owned m blob_id file_id rows w2 s2)
            (λ u w3 h3 s3.
              complete_owned-Ends owned m blob_id file_id request_id rows w3 valid at older fits h2
                there s3)))

  any_same :
      (s session : Session) (rows : List SessionRow)
      → s.tenant_id ≡ session.tenant_id
      → s.id ≡ session.id
      → any (is_session session.tenant_id session.id) rows ≡ true
      → any (is_session s.tenant_id s.id) rows ≡ true
  any_same s session rows tenant id h = rw (tenant, id) h

  -- A commit outside of any transaction returns where no statement fails, identifiers are made
  -- and are not blank, the event can be encoded and the clock is past the creation of the
  -- session, if the session that its keys and token find is completing and is left with no more
  -- completed parts than it has. The keys and the token are trimmed.
  pub commit-Ends :
      (session owned : Session) (token : Text) (m : MaterializedUpload) (request_id : Text)
      (w : World)
      → w.in_transaction ≡ false
      → read_session "confirm completion owner" session.id (
          find_row
            (λ row.
              is_session session.tenant_id session.id row && has_token token row.completion_token)
            (settled env w).tables.sessions)
        ≡ ok owned
      → IsTrimmed session token
      → owned.status ≡ completing
      → owned.created_at ≤ since
      → leb_ℤ (counted m owned) owned.total_parts ≡ true
      → Ends (commit env session token m request_id) w
  unfolding commit commit_body commit_unless_done confirm_completion_owner
  commit-Ends session owned token m request_id w n found trimmed at older fits =
      let rows = (settled env w).tables.sessions in
      let o = read_session-Owned session token (settled env w).tables owned _ refl found in
      let k = Owned-Keys session token (settled env w).tables owned trimmed o in
      let there =
        find_row-any (is_session session.tenant_id session.id)
          (λ r. has_token token r.completion_token) o.row rows o.found in
      transaction-Ends since env reliable _ _ _ w n (
        bind-Ends (λ x. x ≡ owned) rows
          (confirm_completion_owner env session.tenant_id session.id token) _ (opened env w)
          (bind-Goes _ _ rows rows _ _ (opened env w)
            (statement-Goes since env reliable _ _ rows rows (opened env w) (λ t same. same)
              (record { on = refl; within = refl }))
            (λ row v h s.
              lift-Goes _ owned rows v
                (ap (read_session "confirm completion owner" session.id) h ∙ found) s))
          (λ x v same s.
            subst (λ y. Ends (commit_unless_done env y m request_id) v) (sym same)
              (subst
                (λ b.
                  Ends
                    (if b then pure (completed_view owned) else commit_owned env owned m request_id)
                    v)
                (sym (ap is_completed at))
                (commit_owned-Ends owned m request_id rows v k.valid at older fits
                  (any_same owned session rows k.tenant k.id there) s))))
