-- ===== src/Upload/Completion/Commit/Done.antt =====
-- The row of a session after a commit has completed it.
use zhi_file_service_go.Common.{
  ◌≡◌, refl, ap, sym, ◌∙◌, Bool, true, false, [], ◌∷◌, ◌&&◌, Text, text_eq_iff, trim, trim_idem,
  is_blank, Time, Option, none, some, arith,
}
use zhi_file_service_go.Result.{ok}
use zhi_file_service_go.Upload.Status.{completed}
use zhi_file_service_go.Upload.Session.{Session}
use zhi_file_service_go.Upload.Validation.Facts.{IsValid}
use zhi_file_service_go.Upload.Rows.{SessionRow, null_string, string_of, to_row, from_row}
use zhi_file_service_go.Upload.Tables.{
  Tables, is_session, has_token, saved_over, find_row, update_where, save_row,
}
use zhi_file_service_go.Upload.Tables.Find.{
  mapped, find_row-and, find_row-weaken, find_row-update_where,
}
use zhi_file_service_go.Upload.Repositories.{read_session}
use zhi_file_service_go.Upload.World.{World}
use zhi_file_service_go.Upload.World.Laws.{Inside}
use zhi_file_service_go.Upload.Statements.{
  OutboxMessage, insert_event, apply_usage, insert_file, adjust_count, upsert_blob_row,
}
use zhi_file_service_go.Upload.View.{CompletedUploadSession}
use zhi_file_service_go.Upload.Materialize.{MaterializedUpload}
use zhi_file_service_go.Upload.Completion.{counted}
use zhi_file_service_go.Upload.Completion.Commit.{Records}
use zhi_file_service_go.Upload.Completion.Commit.Outcome.{Applied}
use zhi_file_service_go.Upload.Completion.Commit.Marked.{
  Marked, mark_completed-Marked, from_row-ReadFrom, completed_row,
}

-- The condition of ConfirmCompletionOwner.
abbrev pub is_owned : Session → Text → SessionRow → Bool
is_owned session token row =
    is_session session.tenant_id session.id row && has_token token row.completion_token

-- The row that ConfirmCompletionOwner read a session from.
pub record Owned (session : Session) (token : Text) (t : Tables) (s : Session) : Type 0 where
  pub row : SessionRow
  pub found : find_row (is_owned session token) t.sessions ≡ some row
  pub read : from_row row ≡ ok s

pub read_session-Owned :
    (session : Session) (token : Text) (t : Tables) (s : Session) (row : Option SessionRow)
    → find_row (is_owned session token) t.sessions ≡ row
    → read_session "confirm completion owner" session.id row ≡ ok s
    → Owned session token t s
read_session-Owned session token t s none found h = absurd (ground arith)
read_session-Owned session token t s (some row) found h = record {
  row = row;
  found = found;
  read = ground (arith, h);
}

-- The caller of commit has trimmed names.
pub record IsTrimmed (session : Session) (token : Text) : Type 0 where
  pub id : trim session.id ≡ session.id
  pub tenant : trim session.tenant_id ≡ session.tenant_id
  pub given_token : trim token ≡ token

pub has_token-null_string :
    (token s : Text) → s ≡ token → is_blank s ≡ false → has_token token (null_string s) ≡ true
unfolding null_string trim
has_token-null_string token [] same given = absurd (ground arith)
has_token-null_string token (c ∷ s) same given = (text_eq_iff (c ∷ s) token).1 same

pub string_of_token :
    (token : Text) (column : Option Text) → has_token token column ≡ true → string_of column ≡ token
string_of_token token none h = absurd (ground arith)
string_of_token token (some t) h = (text_eq_iff t token).0 h

pub record Keys (session : Session) (token : Text) (s : Session) : Type 0 where
  pub id : s.id ≡ session.id
  pub tenant : s.tenant_id ≡ session.tenant_id
  pub held : s.completion_token ≡ token
  pub valid : IsValid s

pub Owned-Keys :
    (session : Session) (token : Text) (t : Tables) (s : Session)
    → IsTrimmed session token
    → Owned session token t s
    → Keys session token s
Owned-Keys session token t s trimmed o =
    let held =
      find_row-and (is_session session.tenant_id session.id)
        (λ r. has_token token r.completion_token) o.row t.sessions o.found in
    let f = from_row-ReadFrom o.row s o.read in
    record {
      id =
          f.id
          ∙ ap trim ((text_eq_iff o.row.upload_session_id session.id).0 (ground (arith, held)))
          ∙ trimmed.id;
      tenant =
          f.tenant
          ∙ ap trim ((text_eq_iff o.row.tenant_id session.tenant_id).0 (ground (arith, held)))
          ∙ trimmed.tenant;
      held =
          f.token
          ∙ ap trim (string_of_token token o.row.completion_token (ground (arith, held)))
          ∙ trimmed.given_token;
      valid = f.valid;
    }

-- What the condition finds once the session is completed with this file.
pub record Done (session : Session) (token : Text) (t : Tables) (file_id : Text) : Type 0 where
  pub row : SessionRow
  pub found : find_row (is_owned session token) t.sessions ≡ some row
  pub status : row.status ≡ completed
  pub file : row.file_id ≡ null_string (trim file_id)

pub given_token :
    (token file_id : Text) (s marked : Session)
    → IsValid s
    → Marked file_id s marked
    → is_blank marked.completion_token ≡ false
given_token token file_id s marked valid m = ground (arith, m.was, valid.by_status, m.token)

pub Marked-held :
    (session : Session) (token file_id : Text) (s marked : Session) (x : SessionRow)
    → Keys session token s
    → Marked file_id s marked
    → (is_session session.tenant_id session.id (saved_over (to_row marked) x)
        && has_token token (saved_over (to_row marked) x).completion_token)
      ≡ true
unfolding to_row
Marked-held session token file_id s marked x k m = ground (
  arith,
  has_token-null_string token marked.completion_token (m.token ∙ k.held)
      (given_token token file_id s marked k.valid m),
  (text_eq_iff marked.id session.id).1 (m.id ∙ k.id),
  (text_eq_iff marked.tenant_id session.tenant_id).1 (m.tenant ∙ k.tenant),
)

pub saved_sessions :
    (session : Session) (token file_id : Text) (s marked : Session) (t : Tables)
    → Keys session token s
    → Marked file_id s marked
    → Owned session token t s
    → Done session token (save_row (to_row marked) t) file_id
unfolding save_row to_row
saved_sessions session token file_id s marked t k m o =
    let first =
      find_row-weaken (is_session session.tenant_id session.id)
        (λ r. has_token token r.completion_token) o.row t.sessions o.found in
    record {
      row = saved_over (to_row marked) first.0;
      found =
          ap
            (λ p.
              find_row (is_owned session token)
                (update_where p (saved_over (to_row marked)) t.sessions))
            (ap (λ tenant. is_session tenant marked.id) (m.tenant ∙ k.tenant)
              ∙ ap (λ id. is_session session.tenant_id id) (m.id ∙ k.id))
          ∙ find_row-update_where (is_session session.tenant_id session.id)
              (λ r. has_token token r.completion_token) (saved_over (to_row marked)) t.sessions
              (λ x. Marked-held session token file_id s marked x k m)
          ∙ ap (mapped (saved_over (to_row marked))) first.1;
      status = m.now;
      file = ap null_string m.file;
    }

pub Owned-moves :
    (session : Session) (token : Text) (t u : Tables) (s : Session)
    → u.sessions ≡ t.sessions
    → Owned session token t s
    → Owned session token u s
Owned-moves session token t u s same o = record {
  row = o.row;
  found = ap (λ rows. find_row (is_owned session token) rows) same ∙ o.found;
  read = o.read;
}

pub Records-sessions :
    (owned : Session) (m : MaterializedUpload) (blob_id file_id : Text) (t : Tables) (v : World)
    → Records owned m blob_id file_id t v
    → v.tables.sessions ≡ t.sessions
unfolding apply_usage insert_file adjust_count upsert_blob_row
Records-sessions owned m blob_id file_id t v r = ap (λ (u : Tables). u.sessions) r.inside.on

pub saved_in_event :
    (t : Tables) (v : World) (at : Time) (id : Text) (msg : OutboxMessage) (row : SessionRow)
    → Inside (insert_event at id msg (save_row row t)) v
    → v.tables.sessions ≡ (save_row row t).sessions
unfolding insert_event
saved_in_event t v at id msg row i = ap (λ (u : Tables). u.sessions) i.on

pub Applied-Done :
    (session : Session) (token : Text) (m : MaterializedUpload) (t : Tables) (s : Session)
    (r : CompletedUploadSession) (v : World)
    → IsTrimmed session token
    → Owned session token t s
    → Applied s m t r v
    → Done session token v.tables r.file_id
Applied-Done session token m t s r v trimmed o a =
    let c = a.completes in
    let k = Owned-Keys session token t s trimmed o in
    let marked =
      mark_completed-Marked a.file_id c.marked_at (record s { completed_parts = counted m s })
        c.marked a.unfinished c.marks in
    let still =
      Owned-moves session token t a.middle.tables s
        (Records-sessions s m _ a.file_id t a.middle a.records) o in
    let d =
      saved_sessions session token a.file_id s c.marked a.middle.tables k
        (record {
          was = marked.was;
          now = marked.now;
          file = marked.file;
          id = marked.id;
          tenant = marked.tenant;
          token = marked.token;
        })
        still in
    record {
      row = d.row;
      found =
          ap (λ rows. find_row (is_owned session token) rows)
            (saved_in_event a.middle.tables v c.event_at c.event_id _ (to_row c.marked) c.inside)
          ∙ d.found;
      status = d.status;
      file =
          d.file
          ∙ ap (λ (x : CompletedUploadSession). null_string (trim x.file_id)) (sym c.answers);
    }

pub string_of-null_string : (s : Text) → string_of (null_string s) ≡ s
unfolding null_string
string_of-null_string [] = refl
string_of-null_string (c ∷ s) = refl

-- The session that is read when the condition finds a completed row.
pub Done-read :
    (session : Session) (token : Text) (t : Tables) (file_id : Text) (s : Session)
    → Done session token t file_id
    → Owned session token t s
    → (s.status ≡ completed) × (s.file_id ≡ trim file_id)
Done-read session token t file_id s d o =
    let same : d.row ≡ o.row = ground (arith, d.found, o.found) in
    let f = from_row-ReadFrom o.row s o.read in
    (
      completed_row o.row s o.read (ap (λ (x : SessionRow). x.status) (sym same) ∙ d.status),
      f.file
          ∙ ap (λ (x : SessionRow). trim (string_of x.file_id)) (sym same)
          ∙ ap (λ x. trim (string_of x)) d.file
          ∙ ap trim (string_of-null_string (trim file_id))
          ∙ trim_idem file_id,
    )
