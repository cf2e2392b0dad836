-- ===== src/Upload/Handlers/Outcomes.antt =====
-- What the handlers of one session have done when they return.
pub mod Creates
pub mod Presigns
use zhi_file_service_go.Common.{
  ◌≡◌, refl, ap, sym, ◌∙◌, Bool, true, false, any, not, is_blank, [], Text, text, Time, arith,
}
use mathlib.Core.Path.{subst}
use zhi_file_service_go.Result.{Result, ok, accepted}
use zhi_file_service_go.Upload.Session.{Session}
use zhi_file_service_go.Upload.Lifecycle.{abort}
use zhi_file_service_go.Upload.Auth.{AuthContext, ensure_session_access}
use zhi_file_service_go.Upload.Rows.{to_row}
use zhi_file_service_go.Upload.Tables.{Tables, find_row, is_session, save_row}
use zhi_file_service_go.Upload.World.{World, Env, Action, ◌>>=◌, lift, pure, settled, clock}
use zhi_file_service_go.Upload.World.Laws.{
  Returns, steps, lifted, returned, raise_if_returns, statement_returns,
}
use zhi_file_service_go.Upload.View.{UploadSession, from_session}
use zhi_file_service_go.Upload.Repositories.{read_session, get_by_id, save_session}
use zhi_file_service_go.Upload.Handlers.{session_for, abort_upload_session, abort_provider}

module _ (env : Env) where
  -- The session that a handler works on, as it was read in the world `w`.
  pub record Loaded (auth : AuthContext) (id : Text) (w : World) (s : Session) (v : World)
      : Type 0 where
    pub read :
        read_session "get upload session" id
          (find_row (is_session auth.tenant_id id) (settled env w).tables.sessions)
        ≡ ok s
    pub allowed : ensure_session_access auth s ≡ accepted
    pub tables : v.tables ≡ (settled env w).tables

  pub session_for-Loaded :
      (auth : AuthContext) (id : Text) (w : World) (s : Session) (v : World)
      → Returns (session_for env auth id) w s v
      → Loaded auth id w s v
  unfolding session_for get_by_id
  session_for-Loaded auth id w s v h =
      let s1 = steps _ _ w s v h in
      let s2 = steps _ _ w s1.value s1.between s1.first in
      let (row, tables) = statement_returns env _ _ w s2.value s2.between s2.first in
      let (valid, same) = lifted _ s2.between s1.value s1.between s2.rest in
      let s3 = steps _ _ s1.between s v s1.rest in
      let (allowed, same3) = lifted _ s1.between s3.value s3.between s3.first in
      let (is_it, same4) = returned s1.value s3.between s v s3.rest in
      record {
        read =
            ap (read_session "get upload session" id) (sym row)
            ∙ valid
            ∙ ap (λ (x : Session). ok x) is_it;
        allowed = ap (ensure_session_access auth) (sym is_it) ∙ allowed;
        tables = ap (λ (x : World). x.tables) (same4 ∙ same3 ∙ same) ∙ tables;
      }

  pub record Saves (s : Session) (at v : World) : Type 0 where
    pub there : any (is_session s.tenant_id s.id) (settled env at).tables.sessions ≡ true
    pub tables : v.tables ≡ save_row (to_row s) (settled env at).tables

  pub save_session-Saves :
      (s : Session) (w : World) (u : Unit {0}) (v : World)
      → Returns (save_session env s) w u v
      → Saves s w v
  unfolding save_session
  save_session-Saves s w u v h =
      let s1 = steps _ _ w u v h in
      let (found, tables) = statement_returns env _ _ w s1.value s1.between s1.first in
      let (hit, same) = raise_if_returns _ _ s1.between u v s1.rest in
      record {
        there = ground (arith, found, hit);
        tables = ap (λ (x : World). x.tables) same ∙ tables;
      }

  -- An abort that has returned.
  pub record Aborts (auth : AuthContext) (id : Text) (w : World) (r : UploadSession) (v : World)
      : Type 0 where
    pub given : is_blank id ≡ false
    pub session : Session
    pub loaded_until : World
    pub loaded : Loaded auth id w session loaded_until
    pub now : Time
    pub aborted_session : Session
    pub aborts : abort now session ≡ (accepted, aborted_session)
    -- Nothing is written between the read and Save.
    pub saving : World
    pub unwritten : saving.tables ≡ loaded_until.tables
    pub saves : (saved : World) × Saves aborted_session saving saved × (v.tables ≡ saved.tables)
    pub answers : r ≡ from_session aborted_session (text "") []

  abort_provider_tables :
      (s : Session) (w : World) (u : Unit {0}) (v : World)
      → Returns (abort_provider env s) w u v
      → v.tables ≡ w.tables
  unfolding abort_provider
  abort_provider_tables s w u v h = ground arith

  pub clock_tables :
      (w : World) (now : Time) (v : World) → Returns (clock env) w now v → v.tables ≡ w.tables
  unfolding clock
  clock_tables w now v h = ground arith

  -- The abort handler, when it returns, has read its session in its first statement, which writes
  -- nothing, and has written what Abort leaves of it over the row as other requests have left it
  -- after that statement; it has written nothing else, and answers with that session.
  pub abort_upload_session-Aborts :
      (auth : AuthContext) (id : Text) (w : World) (r : UploadSession) (v : World)
      → Returns (abort_upload_session env auth id) w r v
      → Aborts auth id w r v
  unfolding abort_upload_session
  abort_upload_session-Aborts auth id w r v h =
      let s1 = steps _ _ w r v h in
      let (writes, same1) = lifted _ w s1.value s1.between s1.first in
      let s2 = steps _ _ s1.between r v s1.rest in
      let (given, same2) = raise_if_returns _ _ s1.between s2.value s2.between s2.first in
      let s3 = steps _ _ s2.between r v s2.rest in
      let s4 = steps _ _ s3.between r v s3.rest in
      let s5 = steps _ _ s4.between r v s4.rest in
      let (passed, same5) = lifted _ s4.between s5.value s5.between s5.first in
      let s6 = steps _ _ s5.between r v s5.rest in
      let s7 = steps _ _ s6.between r v s6.rest in
      let (answer, same8) = returned _ s7.between r v s7.rest in
      let loaded = session_for-Loaded auth id s2.between s3.value s3.between s3.first in
      record {
        given = given;
        session = s3.value;
        loaded_until = s3.between;
        loaded = subst (λ x. Loaded auth id x s3.value s3.between) (same2 ∙ same1) loaded;
        now = s4.value;
        aborted_session = (abort s4.value s3.value).1;
        aborts = ap (λ c. (c, (abort s4.value s3.value).1)) passed;
        saving = s5.between;
        unwritten =
            ap (λ (x : World). x.tables) same5
            ∙ clock_tables s3.between s4.value s4.between s4.first;
        saves = (
          s6.between,
          save_session-Saves (abort s4.value s3.value).1 s5.between s6.value s6.between s6.first,
          ap (λ (x : World). x.tables) same8
              ∙ abort_provider_tables (abort s4.value s3.value).1 s6.between s7.value s7.between
                  s7.first,
        );
        answers = sym answer;
      }
