-- ===== src/Upload/Completion/Commit.antt =====
-- What a commit that returns has done to the tables.
pub mod Outcome
pub mod Marked
pub mod Done
pub mod Once
pub mod Progress
use zhi_file_service_go.Common.{
  ◌≡◌, refl, ap, sym, ◌∙◌, ◌⊎◌, inl, inr, Bool, true, false, Bool-cases, any, Option, none, some,
  String, Text, text, [], ℤ, pos, Time, arith,
}
use zhi_file_service_go.Xerrors.{Err}
use zhi_file_service_go.Result.{Result, ok, err, accepted, Check}
use zhi_file_service_go.Upload.Status.{is_completed}
use zhi_file_service_go.Upload.Session.{Session}
use zhi_file_service_go.Upload.Lifecycle.{mark_completed}
use zhi_file_service_go.Upload.Complete.{effective_size_bytes}
use zhi_file_service_go.Upload.Rows.{to_row}
use zhi_file_service_go.Upload.Tables.{Tables, find_row, is_session, has_token, save_row}
use zhi_file_service_go.Upload.Statements.{
  DedupHit, OutboxMessage, upsert_blob_row, adjust_count, insert_file, apply_usage, insert_event,
}
use zhi_file_service_go.Upload.World.{
  World, Env, Action, ◌>>=◌, lift, pure, raise, raise_if, clock, generate, exec, settled,
  within_transaction,
}
use zhi_file_service_go.Upload.World.Laws.{
  Returns, Steps, steps, lifted, returned, Inside, moved, raise_if_returns, statement-Inside,
  clock-Inside, generate-Inside, opened, transaction_returns,
}
use zhi_file_service_go.Upload.View.{CompletedUploadSession, from_session}
use zhi_file_service_go.Upload.Repositories.{
  read_session, save_session, confirm_completion_owner, upsert_blob, adjust_reference_count,
  create_file_asset, apply_delta, enqueue,
}
use zhi_file_service_go.Upload.Materialize.{MaterializedUpload}
use zhi_file_service_go.Upload.Completion.{
  completed_view, counted, blob_record, file_record, message, blob_id_for, write_records,
  complete_owned, commit_owned, commit_unless_done, commit_body, commit,
}

-- A statement with a reading of the clock was run on the tables.
record Written (f : Time → Tables → Tables) (t : Tables) (v : World) : Type 0 where
  at : Time
  inside : Inside (f at t) v

pub record Records (owned : Session) (m : MaterializedUpload) (blob_id file_id : Text) (t : Tables)
    (v : World) : Type 0 where
  pub blob_at : Time
  pub count_at : Time
  pub file_at : Time
  pub usage_at : Time
  pub inside :
      Inside
        (apply_usage usage_at owned.tenant_id (effective_size_bytes m.metadata owned.size_bytes) (
          insert_file file_at (file_record owned m blob_id file_id) (
            adjust_count count_at blob_id
              (pos 1)
              (upsert_blob_row blob_at (blob_record owned m blob_id) t))))
        v

-- What became of the session in commit, and of its event.
pub record Completes (owned : Session) (m : MaterializedUpload) (file_id : Text) (t : Tables)
    (r : CompletedUploadSession) (v : World) : Type 0 where
  pub marked_at : Time
  pub marked : Session
  pub marks :
      mark_completed file_id marked_at (record owned { completed_parts = counted m owned })
      ≡ (accepted, marked)
  pub there : any (is_session marked.tenant_id marked.id) t.sessions ≡ true
  pub payload : Text
  pub event_id : Text
  pub event_at : Time
  pub inside :
      Inside
        (insert_event event_at event_id
          (message "upload.session.completed.v1" marked payload)
          (save_row (to_row marked) t))
        v
  pub answers : r ≡ record { file_id = file_id; upload_session = from_session marked (text "") [] }

module _ (env : Env) where
  timed-Inside :
      (text : String) (f : Time → Tables → Tables) (t : Tables) (w : World) (u : Unit {0})
      (v : World)
      → Inside t w
      → Returns (clock env >>= λ now. exec env text (f now)) w u v
      → Written f t v
  timed-Inside text f t w u v i h =
      let st = steps _ _ w u v h in
      record {
        at = st.value;
        inside =
            (statement-Inside env text _ t st.between u v (clock-Inside env t w _ _ i st.first)
              st.rest).1;
      }

  pub write_records-Records :
      (owned : Session) (m : MaterializedUpload) (blob_id file_id : Text) (t : Tables) (w : World)
      (u : Unit {0}) (v : World)
      → Inside t w
      → Returns (write_records env owned m blob_id file_id) w u v
      → Records owned m blob_id file_id t v
  unfolding write_records upsert_blob adjust_reference_count create_file_asset apply_delta
  write_records-Records owned m blob_id file_id t w u v i h =
      let s1 = steps _ _ w u v h in
      let w1 = timed-Inside _ _ t w _ _ i s1.first in
      let s2 = steps _ _ s1.between u v s1.rest in
      let w2 = timed-Inside _ _ _ s1.between _ _ w1.inside s2.first in
      let s3 = steps _ _ s2.between u v s2.rest in
      let w3 = timed-Inside _ _ _ s2.between _ _ w2.inside s3.first in
      let w4 = timed-Inside _ _ _ s3.between _ _ w3.inside s3.rest in
      record {
        blob_at = w1.at;
        count_at = w2.at;
        file_at = w3.at;
        usage_at = w4.at;
        inside = w4.inside;
      }

  save-Inside :
      (s : Session) (t : Tables) (w : World) (u : Unit {0}) (v : World)
      → Inside t w
      → Returns (save_session env s) w u v
      → (any (is_session s.tenant_id s.id) t.sessions ≡ true) × Inside (save_row (to_row s) t) v
  unfolding save_session
  save-Inside s t w u v i h =
      let st = steps _ _ w u v h in
      let (found, after) = statement-Inside env _ _ t w _ _ i st.first in
      let (hit, same) = raise_if_returns _ _ st.between u v st.rest in
      (ground (arith, found, hit), moved _ st.between v after same)

  record Enqueued (msg : OutboxMessage) (t : Tables) (v : World) : Type 0 where
    event_id : Text
    at : Time
    inside : Inside (insert_event at event_id msg t) v

  enqueue-Inside :
      (msg : OutboxMessage) (t : Tables) (w : World) (u : Unit {0}) (v : World)
      → Inside t w
      → Returns (enqueue env msg) w u v
      → Enqueued msg t v
  unfolding enqueue
  enqueue-Inside msg t w u v i h =
      let s1 = steps _ _ w u v h in
      let w2 =
        timed-Inside _ _ t s1.between u v (generate-Inside env _ t w _ _ i s1.first) s1.rest in
      record { event_id = s1.value; at = w2.at; inside = w2.inside }

  pub complete_owned-Completes :
      (owned : Session) (m : MaterializedUpload) (blob_id file_id request_id : Text) (t : Tables)
      (w : World) (r : CompletedUploadSession) (v : World)
      → Inside t w
      → Returns (complete_owned env owned m blob_id file_id request_id) w r v
      → Completes owned m file_id t r v
  unfolding complete_owned
  complete_owned-Completes owned m blob_id file_id request_id t w r v i h =
      let s1 = steps _ _ w r v h in
      let i1 = clock-Inside env t w _ _ i s1.first in
      let s2 = steps _ _ s1.between r v s1.rest in
      let (passed, same2) = lifted _ s1.between _ _ s2.first in
      let s3 = steps _ _ s2.between r v s2.rest in
      let (there, i3) =
        save-Inside _ t s2.between _ _ (moved t s1.between s2.between i1 same2) s3.first in
      let s4 = steps _ _ s3.between r v s3.rest in
      let i4 = clock-Inside env _ s3.between _ _ i3 s4.first in
      let s5 = steps _ _ s4.between r v s4.rest in
      let (made, same5) = lifted _ s4.between _ _ s5.first in
      let s6 = steps _ _ s5.between r v s5.rest in
      let q = enqueue-Inside _ _ s5.between _ _ (moved _ s4.between s5.between i4 same5) s6.first in
      let (answer, same6) = returned _ s6.between r v s6.rest in
      record {
        marked_at = s1.value;
        marked =
            (mark_completed file_id s1.value
              (record owned { completed_parts = counted m owned })).1;
        marks =
            ap
              (λ c. (
                c,
                (mark_completed file_id s1.value
                    (record owned { completed_parts = counted m owned })).1,
              ))
              passed;
        there = there;
        payload = s5.value;
        event_id = q.event_id;
        event_at = q.at;
        inside = moved _ s6.between v q.inside same6;
        answers = sym answer;
      }
