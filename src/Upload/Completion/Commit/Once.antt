-- ===== src/Upload/Completion/Commit/Once.antt =====
-- A commit that is run again.
use zhi_file_service_go.Common.{
  ◌≡◌, refl, ap, sym, ◌∙◌, ◌⊎◌, inl, inr, false, Text, trim, trim_idem, arith,
}
use zhi_file_service_go.Upload.Status.{completed}
use zhi_file_service_go.Upload.Session.{Session}
use zhi_file_service_go.Upload.Rows.{string_of, from_row}
use zhi_file_service_go.Upload.Tables.{Tables}
use zhi_file_service_go.Upload.World.{World, Env, settled}
use zhi_file_service_go.Upload.World.Laws.{Returns}
use zhi_file_service_go.Upload.View.{CompletedUploadSession}
use zhi_file_service_go.Upload.Materialize.{MaterializedUpload}
use zhi_file_service_go.Upload.Completion.Commit.Outcome.{
  Applied, Unchanged, Committed, commit-Committed,
}
use zhi_file_service_go.Upload.Completion.{commit}
use zhi_file_service_go.Upload.Completion.Commit.Marked.{from_row-ReadFrom}
use zhi_file_service_go.Upload.Completion.Commit.Done.{
  Owned, read_session-Owned, IsTrimmed, Owned-moves, Applied-Done, Done-read,
}

first_Owned :
    (env : Env) (session : Session) (token : Text) (m : MaterializedUpload) (w : World)
    (r : CompletedUploadSession) (v : World) (c : Committed env session token m w r v)
    → Owned session token (settled env w).tables c.owned
first_Owned env session token m w r v c =
    read_session-Owned session token (settled env w).tables c.owned _ refl c.found

-- What the first commit leaves is done, or is the session as the second one finds it.
left_by_first :
    (session : Session) (token : Text) (m : MaterializedUpload) (t : Tables) (s : Session)
    (r : CompletedUploadSession) (v : World)
    → IsTrimmed session token
    → Owned session token t s
    → Unchanged s t r v.tables ⊎ Applied s m t r v
    → (second : Session) → Owned session token v.tables second
    → (second.status ≡ completed) × (second.file_id ≡ trim r.file_id)
left_by_first session token m t s r v trimmed o (inr a) second o2 =
    Done-read session token v.tables r.file_id second
      (Applied-Done session token m t s r v trimmed o a) o2
left_by_first session token m t s r v trimmed o (inl u) second o2 =
    let o3 = Owned-moves session token t v.tables s (ap (λ (x : Tables). x.sessions) u.same) o in
    let same_row : o2.row ≡ o3.row = ground (arith, o2.found, o3.found) in
    let same : second ≡ s = ground (arith, sym o2.read ∙ ap from_row same_row ∙ o3.read) in
    let f = from_row-ReadFrom o.row s o.read in
    (
      ap (λ (x : Session). x.status) same ∙ ground (arith, u.done),
      ap (λ (x : Session). x.file_id) same
          ∙ f.file
          ∙ sym (trim_idem (string_of o.row.file_id))
          ∙ ap trim (sym f.file)
          ∙ ap (λ (x : CompletedUploadSession). trim x.file_id) (sym u.answers),
    )

changes_nothing :
    (s : Session) (m : MaterializedUpload) (t : Tables) (r : CompletedUploadSession) (v : World)
    → s.status ≡ completed
    → Unchanged s t r v.tables ⊎ Applied s m t r v
    → (r.file_id ≡ s.file_id) × (v.tables ≡ t)
changes_nothing s m t r v done (inl u) =
    (ap (λ (x : CompletedUploadSession). x.file_id) u.answers, u.same)
changes_nothing s m t r v done (inr a) = absurd (ground (arith, a.unfinished))

-- After a commit that returned, a second one of the same session and token that returns too
-- answers with the same file, trimmed, and changes nothing, if the rows of the sessions are as
-- the first left them when the transaction of the second begins. The keys and the token are
-- trimmed, and neither commit runs within a transaction.
pub commit-once :
    (env : Env) (session : Session) (token : Text) (m again : MaterializedUpload)
    (request_id id_again : Text) (w : World) (r : CompletedUploadSession) (v : World)
    (later : World) (r_again : CompletedUploadSession) (v_again : World)
    → IsTrimmed session token
    → w.in_transaction ≡ false
    → Returns (commit env session token m request_id) w r v
    → later.in_transaction ≡ false
    → (settled env later).tables.sessions ≡ v.tables.sessions
    → Returns (commit env session token again id_again) later r_again v_again
    → (r_again.file_id ≡ trim r.file_id) × (v_again.tables ≡ (settled env later).tables)
commit-once env session token m again request_id id_again w r v later r_again v_again trimmed n h n2
      same h2 =
    let c = commit-Committed env session token m request_id w r v n h in
    let c2 = commit-Committed env session token again id_again later r_again v_again n2 h2 in
    let kept = ap (λ (x : Tables). x.sessions) c.kept in
    let o2 =
      Owned-moves session token (settled env later).tables c.ending.tables c2.owned
        (sym (same ∙ kept)) (first_Owned env session token again later r_again v_again c2) in
    let (done, file) =
      left_by_first session token m (settled env w).tables c.owned r c.ending trimmed
        (first_Owned env session token m w r v c) c.change c2.owned o2 in
    let (answer, tables) =
      changes_nothing c2.owned again (settled env later).tables r_again c2.ending done c2.change in
    (answer ∙ file, c2.kept ∙ tables)
