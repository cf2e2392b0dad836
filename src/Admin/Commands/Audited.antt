-- ===== src/Admin/Commands/Audited.antt =====
-- What a deletion that returns has done to the tables.
use zhi_file_service_go.Common.{
  ◌≡◌, ℕ, refl, ap, sym, ◌∙◌, ◌⊎◌, inl, inr, true, false, Option, none, some, ◌∷◌, Text, text, trim,
  Time, arith,
}
use mathlib.Core.Path.{subst}
use zhi_file_service_go.Xerrors.{Err}
use zhi_file_service_go.Result.{ok}
use zhi_file_service_go.Upload.Tables.{FileRow, AuditRow, OutboxRow, pending, Tables, find_row}
use zhi_file_service_go.Upload.World.{World, settled}
use zhi_file_service_go.Upload.World.Laws.{
  Returns, steps, lifted, returned, Inside, clock-Inside, opened, transaction_returns,
}
use zhi_file_service_go.Admin.Repositories.{AdminEnv, mark_deleted}
use zhi_file_service_go.Admin.Repositories.Statements.{
  is_file, file_view, delete_file_rows, release_blob, release_usage, AdminFileView,
  DeleteFileRecord,
}
use zhi_file_service_go.Job.Blobs.Writes.{deletion_tables}
use zhi_file_service_go.Admin.Commands.{DeleteFileCommand, DeleteFileResult, or_missing}
use zhi_file_service_go.Admin.Commands.Atomic.{get-Reads, settled-tables}
use zhi_file_service_go.Admin.Commands.Handlers.{
  record_deletion, record_unless, delete_file_body, handle_delete_file,
}
use zhi_file_service_go.Admin.Commands.Deleting.{
  Deletes, WasDeleted, Unchanged, mark_deleted-Deletes, audit-Appends, publish-Publishes,
  trimmed_id,
}

module _ (env : AdminEnv) where
  -- The file was ACTIVE: it is deleted, and one audit record and one event are written of it.
  pub record Deleted (command : DeleteFileCommand) (file_id : Text) (t after : Tables)
      : Type 0 where
    pub at : Time
    pub row : FileRow
    pub found : find_row (is_file file_id) t.files ≡ some row
    pub active : row.is_active ≡ true
    pub audit_log : AuditRow
    pub event : OutboxRow
    pub after_is : after ≡ record (deletion_tables at file_id row t) {
      audit_logs = audit_log ∷ t.audit_logs;
      outbox = event ∷ t.outbox;
    }
    pub subject : audit_log.admin_subject ≡ command.auth.admin_id
    pub does : audit_log.action ≡ text "file.delete"
    pub announces : event.event_type ≡ text "file.asset.delete_requested.v1"
    pub of_file : event.aggregate_id ≡ row.file_id
    pub status : event.status ≡ pending

  record-Deleted :
      (formatted : Time → Text) (now : Time) (command : DeleteFileCommand) (file_id : Text)
      (d : DeleteFileRecord) (t : Tables) (w : World) (r : DeleteFileRecord) (v : World)
      → Deletes env file_id now t d w
      → Returns (record_deletion env formatted now command d) w r v
      → Deleted command file_id t v.tables
  unfolding record_deletion release_usage release_blob delete_file_rows file_view
  record-Deleted formatted now command file_id d t w r v was h =
      let s1 = steps _ _ w r v h in
      let a =
        audit-Appends env command.auth _ _ _ _ _ _ w s1.value s1.between was.inside s1.first in
      let s2 = steps _ _ s1.between r v s1.rest in
      let p = publish-Publishes env _ _ s1.between s2.value s2.between a.inside s2.first in
      let (same, there) = returned _ s2.between r v s2.rest in
      record {
        at = now;
        row = was.row;
        found = was.found;
        active = was.active;
        audit_log = a.row;
        event = p.row;
        after_is = ap (λ (x : World). x.tables) there ∙ p.inside.on;
        subject = a.subject;
        does = a.does;
        announces = p.names;
        of_file = p.of_aggregate ∙ ap (λ (f : AdminFileView). f.file_id) was.answers;
        status = p.status;
      }

  found_some :
      (x : Option DeleteFileRecord) (d : DeleteFileRecord) (e : Err)
      → or_missing e x ≡ ok d
      → x ≡ some d
  found_some none d e h = absurd (ground arith)
  found_some (some x) d e h = ground arith

  unless-Deleted :
      (formatted : Time → Text) (now : Time) (command : DeleteFileCommand) (file_id : Text)
      (t : Tables) (d : DeleteFileRecord) (u w : World) (r : DeleteFileRecord) (v : World)
      → (d.already_deleted ≡ true) × WasDeleted env file_id t u
        ⊎ (d.already_deleted ≡ false) × Deletes env file_id now t d u
      → w ≡ u
      → Returns (record_unless env formatted now command d d.already_deleted) w r v
      → Unchanged env file_id t v.tables ⊎ Deleted command file_id t v.tables
  unless-Deleted formatted now command file_id t d u w r v (inl (done, i)) there h =
      let h' = subst (λ b. Returns (record_unless env formatted now command d b) w r v) done h in
      inl (record {
        row = i.row;
        found = i.found;
        inactive = i.inactive;
        same = ap (λ (x : World). x.tables) ((returned _ w r v h').1 ∙ there) ∙ i.inside.on;
      })
  unless-Deleted formatted now command file_id t d u w r v (inr (fresh, was)) there h =
      let h' = subst (λ b. Returns (record_unless env formatted now command d b) w r v) fresh h in
      inr (
        record-Deleted formatted now command file_id d t w r v
          (subst (λ x. Deletes env file_id now t d x) (sym there) was) h')

  body-Deleted :
      (formatted : Time → Text) (command : DeleteFileCommand) (file_id : Text) (t : Tables)
      (w : World) (r : DeleteFileRecord) (v : World)
      → Inside t w
      → Returns (delete_file_body env formatted file_id command) w r v
      → Unchanged env file_id t v.tables ⊎ Deleted command file_id t v.tables
  unfolding delete_file_body
  body-Deleted formatted command file_id t w r v i h =
      let s1 = steps _ _ w r v h in
      let i1 = clock-Inside env.base t w _ _ i s1.first in
      let s2 = steps _ _ s1.between r v s1.rest in
      let s3 = steps _ _ s2.between r v s2.rest in
      let (found, there) = lifted _ s2.between _ _ s3.first in
      let d = s3.value in
      let was = mark_deleted-Deletes env file_id s1.value t s1.between d s2.between i1 (
        subst
          (λ (x : Option DeleteFileRecord).
            Returns (mark_deleted env file_id s1.value) s1.between x s2.between)
          (found_some s2.value d _ found) s2.first) in
      unless-Deleted formatted s1.value command file_id t d s2.between s3.between r v was there
        s3.rest

  -- A deletion that DeleteFileHandler.Handle answers, outside of any transaction and where no other
  -- request writes meanwhile, has found the file of the trimmed identifier. Where that was DELETED
  -- it has changed nothing. Where it was ACTIVE it has done all of this and no more: the file is
  -- deleted, its blob's count and its tenant's usage are lowered, and one audit record of the
  -- administrator and one pending event of the file are added.
  pub handle_delete_file-Deleted :
      ((n : ℕ) (t : Tables) → env.base.meanwhile n t ≡ t)
      → (formatted : Time → Text) (command : DeleteFileCommand) (w : World) (r : DeleteFileResult)
        (v : World)
      → w.in_transaction ≡ false
      → Returns (handle_delete_file env formatted command) w r v
      → Unchanged env (trim command.file_id) w.tables v.tables
        ⊎ Deleted command (trim command.file_id) w.tables v.tables
  unfolding handle_delete_file
  handle_delete_file-Deleted quiet formatted command w r v n h =
      let s1 = steps _ _ w r v h in
      let (made1, there1) = lifted _ w _ _ s1.first in
      let s2 = steps _ _ s1.between r v s1.rest in
      let (kept2, out2) = get-Reads env quiet s1.value s1.between s2.value s2.between s2.first in
      let s3 = steps _ _ s2.between r v s2.rest in
      let (made3, there3) = lifted _ s2.between _ _ s3.first in
      let s4 = steps _ _ s3.between r v s3.rest in
      let (made4, there4) = lifted _ s3.between _ _ s4.first in
      let s5 = steps _ _ s4.between r v s4.rest in
      let (same, there5) = returned _ s5.between r v s5.rest in
      let outside =
        ap (λ (x : World). x.in_transaction) (there4 ∙ there3)
        ∙ out2
        ∙ ap (λ (x : World). x.in_transaction) there1
        ∙ n in
      let tables =
        settled-tables env quiet s4.between
        ∙ ap (λ (x : World). x.tables) (there4 ∙ there3)
        ∙ kept2
        ∙ ap (λ (x : World). x.tables) there1 in
      let ran =
        transaction_returns env.base _ _ _ s4.between s5.value s5.between outside s5.first in
      let kept = ap (λ (x : World). x.tables) there5 ∙ ran.kept in
      let done =
        body-Deleted formatted command s1.value (settled env.base s4.between).tables
          (opened env.base s4.between) s5.value ran.ending (record { on = refl; within = refl })
          ran.ran in
      changed _ _ _ tables (trimmed_id env command.file_id s1.value made1) kept done
    where
      changed :
          (t : Tables) (id : Text) (after : Tables)
          → t ≡ w.tables
          → id ≡ trim command.file_id
          → v.tables ≡ after
          → Unchanged env id t after ⊎ Deleted command id t after
          → Unchanged env (trim command.file_id) w.tables v.tables
            ⊎ Deleted command (trim command.file_id) w.tables v.tables
      changed t id after e f g d =
          subst
            (λ x.
              Unchanged env (trim command.file_id) w.tables x
              ⊎ Deleted command (trim command.file_id) w.tables x)
            (sym g)
            (subst (λ i. Unchanged env i w.tables after ⊎ Deleted command i w.tables after) f
              (subst (λ x. Unchanged env id x after ⊎ Deleted command id x after) e d))
