-- ===== src/Upload/Completion/Commit/Outcome.antt =====
-- What a whole commit does: nothing for a session that is completed, or all of its writes, or,
-- when it fails, none of them.
use zhi_file_service_go.Common.{
  ◌≡◌, refl, ap, sym, ◌∙◌, if◌then◌else◌, ◌⊎◌, inl, inr, Bool, true, false, Option, none, some,
  ◌&&◌, Text,
}
use mathlib.Core.Path.{subst}
use zhi_file_service_go.Xerrors.{Err}
use zhi_file_service_go.Result.{ok, err}
use zhi_file_service_go.Upload.Status.{is_completed}
use zhi_file_service_go.Upload.Session.{Session}
use zhi_file_service_go.Upload.Tables.{Tables, find_row, is_session, has_token}
use zhi_file_service_go.Upload.Statements.{DedupHit}
use zhi_file_service_go.Upload.World.{World, Env, pure, settled}
use zhi_file_service_go.Upload.World.Laws.{
  Returns, steps, lifted, returned, Inside, moved, statement-Inside, generate-Inside, opened,
  transaction_returns, transaction_fails,
}
use zhi_file_service_go.Upload.View.{CompletedUploadSession}
use zhi_file_service_go.Upload.Repositories.{read_session, confirm_completion_owner}
use zhi_file_service_go.Upload.Materialize.{MaterializedUpload}
use zhi_file_service_go.Upload.Completion.{
  completed_view, blob_id_for, commit_owned, commit_unless_done, commit_body, commit,
}
use zhi_file_service_go.Upload.Completion.Commit.{
  Records, write_records-Records, Completes, complete_owned-Completes,
}

-- The blob of a file: that of the dedup hit, or a new one.
abbrev pub chosen_blob : Text → Option DedupHit → Text
chosen_blob new_id none = new_id
chosen_blob new_id (some hit) = hit.blob_id

-- The session was completed, and commit answers with it and changes nothing.
pub record Unchanged (owned : Session) (t : Tables) (r : CompletedUploadSession) (after : Tables)
    : Type 0 where
  pub done : is_completed owned.status ≡ true
  pub answers : r ≡ completed_view owned
  pub same : after ≡ t

-- The session was not completed, and commit wrote the blob, its reference, the file and the usage,
-- then the session and its event.
pub record Applied (owned : Session) (m : MaterializedUpload) (t : Tables)
    (r : CompletedUploadSession) (v : World) : Type 0 where
  pub unfinished : is_completed owned.status ≡ false
  pub new_id : Text
  pub file_id : Text
  pub middle : World
  pub records : Records owned m (chosen_blob new_id m.dedup_decision) file_id t middle
  pub completes : Completes owned m file_id middle.tables r v

module _ (env : Env) where
  blob-Inside :
      (hit : Option DedupHit) (t : Tables) (w : World) (id : Text) (v : World)
      → Inside t w
      → Returns (blob_id_for env hit) w id v
      → (id ≡ chosen_blob id hit) × Inside t v
  unfolding blob_id_for
  blob-Inside none t w id v i h = (refl, generate-Inside env _ t w id v i h)
  blob-Inside (some hit) t w id v i h =
      let (same, there) = returned hit.blob_id w id v h in (sym same, moved t w v i there)

  commit_owned-Applied :
      (owned : Session) (m : MaterializedUpload) (request_id : Text) (t : Tables) (w : World)
      (r : CompletedUploadSession) (v : World)
      → is_completed owned.status ≡ false
      → Inside t w
      → Returns (commit_owned env owned m request_id) w r v
      → Applied owned m t r v
  unfolding commit_owned
  commit_owned-Applied owned m request_id t w r v unfinished i h =
      let s1 = steps _ _ w r v h in
      let (chosen, i1) = blob-Inside m.dedup_decision t w s1.value s1.between i s1.first in
      let s2 = steps _ _ s1.between r v s1.rest in
      let i2 = generate-Inside env _ t s1.between s2.value s2.between i1 s2.first in
      let s3 = steps _ _ s2.between r v s2.rest in
      let written =
        write_records-Records env owned m s1.value s2.value t s2.between s3.value s3.between i2
          s3.first in
      record {
        unfinished = unfinished;
        new_id = s1.value;
        file_id = s2.value;
        middle = s3.between;
        records = subst (λ b. Records owned m b s2.value t s3.between) chosen written;
        completes =
            complete_owned-Completes env owned m s1.value s2.value request_id s3.between.tables
              s3.between r v (record { on = refl; within = written.inside.within }) s3.rest;
      }

  commit_unless_done-cases :
      (owned : Session) (m : MaterializedUpload) (request_id : Text) (t : Tables) (w : World)
      (r : CompletedUploadSession) (v : World) (b : Bool)
      → is_completed owned.status ≡ b
      → Inside t w
      → Returns (commit_unless_done env owned m request_id) w r v
      → Unchanged owned t r v.tables ⊎ Applied owned m t r v
  unfolding commit_unless_done
  commit_unless_done-cases owned m request_id t w r v true done i h =
      let chosen =
        ap (λ b. (if b then pure (completed_view owned) else commit_owned env owned m request_id) w)
          done in
      let (answer, same) = returned (completed_view owned) w r v (sym chosen ∙ h) in
      inl (record { done = done; answers = sym answer; same = (moved t w v i same).on })
  commit_unless_done-cases owned m request_id t w r v false unfinished i h = inr (
      commit_owned-Applied owned m request_id t w r v unfinished i (
        sym (
          ap
            (λ b.
              (if b then pure (completed_view owned) else commit_owned env owned m request_id) w)
            unfinished)
        ∙ h))

  -- What a commit that returns has done.
  pub record Committed (session : Session) (token : Text) (m : MaterializedUpload) (w : World)
      (r : CompletedUploadSession) (v : World) : Type 0 where
    pub owned : Session
    pub ending : World
    pub kept : v.tables ≡ ending.tables
    pub found :
        read_session "confirm completion owner" session.id (
          find_row
            (λ row.
              is_session session.tenant_id session.id row && has_token token row.completion_token)
            (settled env w).tables.sessions)
        ≡ ok owned
    pub change :
        Unchanged owned (settled env w).tables r ending.tables
        ⊎ Applied owned m (settled env w).tables r ending

  -- A commit outside of any transaction that returns has read the session by its keys and its
  -- token from the tables as other requests had left them when the transaction began. Either
  -- that session was completed, and the answer is of it and nothing has changed, or exactly the
  -- writes of the blob, its reference count, the file, the usage, the session and the event have
  -- been made, in this order, for the session as MarkCompleted leaves it, which is the answer.
  pub commit-Committed :
      (session : Session) (token : Text) (m : MaterializedUpload) (request_id : Text) (w : World)
      (r : CompletedUploadSession) (v : World)
      → w.in_transaction ≡ false
      → Returns (commit env session token m request_id) w r v
      → Committed session token m w r v
  unfolding commit commit_body confirm_completion_owner
  commit-Committed session token m request_id w r v n h =
      let ran = transaction_returns env _ _ _ w r v n h in
      let s1 = steps _ _ (opened env w) r ran.ending ran.ran in
      let s2 = steps _ _ (opened env w) s1.value s1.between s1.first in
      let (row, i) =
        statement-Inside env _ _ (settled env w).tables (opened env w) s2.value s2.between
          (record { on = refl; within = refl }) s2.first in
      let (valid, same) = lifted _ s2.between s1.value s1.between s2.rest in
      record {
        owned = s1.value;
        ending = ran.ending;
        kept = ran.kept;
        found = ap (λ x. read_session "confirm completion owner" session.id x) (sym row) ∙ valid;
        change =
            commit_unless_done-cases s1.value m request_id (settled env w).tables s1.between r
              ran.ending _ refl (moved _ s2.between s1.between i same) s1.rest;
      }

  -- A commit outside of any transaction that fails, wherever it does, leaves the tables as other
  -- requests had left them when its transaction began.
  pub commit_fails :
      (session : Session) (token : Text) (m : MaterializedUpload) (request_id : Text) (w : World)
      (e : Err) (v : World)
      → w.in_transaction ≡ false
      → commit env session token m request_id w ≡ (err e, v)
      → v.tables ≡ (settled env w).tables
  unfolding commit
  commit_fails session token m request_id w e v n h = transaction_fails env _ _ _ w e v n h
