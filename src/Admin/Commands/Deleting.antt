-- ===== src/Admin/Commands/Deleting.antt =====
-- What the repositories of the admin service do within a transaction: MarkDeleted, the audit record and
-- the event.
use zhi_file_service_go.Common.{
  ◌≡◌, Bool-cases, is_empty, refl, ap, sym, ◌⊎◌, inl, inr, Bool, true, false, Option, none, some,
  ◌∷◌, String, Text, trim, Time, is_zero, utc, if◌then◌else◌, arith,
}
use zhi_file_service_go.Xerrors.{Details}
use zhi_file_service_go.Result.{ok}
use zhi_file_service_go.Upload.Tables.{FileRow, AuditRow, OutboxRow, pending, Tables, find_row}
use zhi_file_service_go.Upload.World.{World, pure, clock, settled}
use zhi_file_service_go.Upload.World.Laws.{
  Returns, steps, lifted, returned, Inside, moved, clock-Inside, generate-Inside,
}
use zhi_file_service_go.Admin.Context.{AdminContext}
use zhi_file_service_go.Admin.Repositories.{
  AdminEnv, checked_statement, delete_row, delete_found, mark_deleted, append_audit, publish,
  event_time,
}
use zhi_file_service_go.Admin.Repositories.Statements.{
  is_file, file_view, DeleteFileRecord, AuditLogRecord, audit_row, AdminEvent, event_row,
}
use zhi_file_service_go.Job.Blobs.Writes.{deletion_tables}
use zhi_file_service_go.Admin.Commands.{new_audit_record, audit, required_field}

module _ (env : AdminEnv) where
  pub trimmed_id : (given id : Text) → required_field given "fileId" ≡ ok id → id ≡ trim given
  unfolding required_field
  trimmed_id given id h = ground (arith, Bool-cases (is_empty (trim given)))

  pub checked-Inside {ℓ} :
      {A : Type ℓ} (message : String) (conflicts : Tables → Bool) (run : Tables → A × Tables)
      (t : Tables) (w : World) (a : A) (v : World)
      → Inside t w
      → Returns (checked_statement env message conflicts run) w a v
      → (a ≡ (run t).0) × Inside (run t).1 v
  unfolding checked_statement settled
  checked-Inside message conflicts run t w a v i h = ground arith

  -- MarkDeleted of a file that was ACTIVE.
  pub record Deletes (id : Text) (at : Time) (t : Tables) (d : DeleteFileRecord) (v : World)
      : Type 0 where
    pub row : FileRow
    pub found : find_row (is_file id) t.files ≡ some row
    pub active : row.is_active ≡ true
    pub inside : Inside (deletion_tables at id row t) v
    pub answers :
        d.file ≡ file_view (record row { is_active = false; deleted_at = some at; updated_at = at })

  pub record WasDeleted (id : Text) (t : Tables) (v : World) : Type 0 where
    pub row : FileRow
    pub found : find_row (is_file id) t.files ≡ some row
    pub inactive : row.is_active ≡ false
    pub inside : Inside t v

  -- The file was DELETED, and nothing has changed.
  pub record Unchanged (file_id : Text) (t after : Tables) : Type 0 where
    pub row : FileRow
    pub found : find_row (is_file file_id) t.files ≡ some row
    pub inactive : row.is_active ≡ false
    pub same : after ≡ t

  row-Deletes :
      (id : Text) (at : Time) (r : FileRow) (b : Bool) (t : Tables) (w : World)
      (d : DeleteFileRecord) (v : World)
      → find_row (is_file id) t.files ≡ some r
      → r.is_active ≡ b
      → Inside t w
      → Returns (delete_row env id at r b) w (some d) v
      → (d.already_deleted ≡ true) × WasDeleted id t v
        ⊎ (d.already_deleted ≡ false) × Deletes id at t d v
  unfolding delete_row
  row-Deletes id at r false t w d v f a i h =
      let (same, there) = returned _ w (some d) v h in
      inl (
        ground (arith, same),
        record { row = r; found = f; inactive = a; inside = moved t w v i there },
      )
  row-Deletes id at r true t w d v f a i h =
      let s1 = steps _ _ w (some d) v h in
      let i1 = (checked-Inside _ _ _ t w _ _ i s1.first).1 in
      let s2 = steps _ _ s1.between (some d) v s1.rest in
      let i2 = (checked-Inside _ _ _ _ s1.between _ _ i1 s2.first).1 in
      let s3 = steps _ _ s2.between (some d) v s2.rest in
      let i3 = (checked-Inside _ _ _ _ s2.between _ _ i2 s3.first).1 in
      let (same, there) = returned _ s3.between (some d) v s3.rest in
      inr (
        ground (arith, same),
        record {
          row = r;
          found = f;
          active = a;
          inside = moved _ s3.between v i3 there;
          answers = ground (arith, same);
        },
      )

  found-Deletes :
      (id : Text) (at : Time) (found : Option FileRow) (t : Tables) (w : World)
      (d : DeleteFileRecord) (v : World)
      → find_row (is_file id) t.files ≡ found
      → Inside t w
      → Returns (delete_found env id at found) w (some d) v
      → (d.already_deleted ≡ true) × WasDeleted id t v
        ⊎ (d.already_deleted ≡ false) × Deletes id at t d v
  found-Deletes id at none t w d v f i h = absurd (ground (arith, (returned _ w (some d) v h).0))
  found-Deletes id at (some r) t w d v f i h = row-Deletes id at r r.is_active t w d v f refl i h

  pub mark_deleted-Deletes :
      (id : Text) (at : Time) (t : Tables) (w : World) (d : DeleteFileRecord) (v : World)
      → Inside t w
      → Returns (mark_deleted env id at) w (some d) v
      → (d.already_deleted ≡ true) × WasDeleted id t v
        ⊎ (d.already_deleted ≡ false) × Deletes id (utc at) t d v
  unfolding mark_deleted
  mark_deleted-Deletes id at t w d v i h =
      let s1 = steps _ _ w (some d) v h in
      let (row, i1) = checked-Inside _ _ _ t w _ _ i s1.first in
      found-Deletes id at s1.value t s1.between d v (sym row) i1 s1.rest

  -- Append within a transaction, and what it appends.
  pub record Appends (auth : AdminContext) (tenant_id action target_type target_id : Text)
      (t : Tables) (v : World) : Type 0 where
    pub row : AuditRow
    pub inside : Inside (record t { audit_logs = row ∷ t.audit_logs }) v
    pub subject : row.admin_subject ≡ auth.admin_id
    pub does : row.action ≡ action

  pub audit-Appends :
      (auth : AdminContext) (tenant_id action target_type target_id : Text) (details : Details)
      (t : Tables) (w : World) (u : Unit {0}) (v : World)
      → Inside t w
      → Returns (audit env auth tenant_id action target_type target_id details) w u v
      → Appends auth tenant_id action target_type target_id t v
  unfolding audit new_audit_record append_audit audit_row
  audit-Appends auth tenant_id action target_type target_id details t w u v i h =
      let s1 = steps _ _ w u v h in
      let m1 = steps _ _ w s1.value s1.between s1.first in
      let i1 = generate-Inside env.base _ t w _ _ i m1.first in
      let m2 = steps _ _ m1.between s1.value s1.between m1.rest in
      let i2 = clock-Inside env.base t m1.between _ _ i1 m2.first in
      let (same, there) = returned _ m2.between s1.value s1.between m2.rest in
      let s2 = steps _ _ s1.between u v s1.rest in
      let (made, there2) = lifted _ s1.between _ _ s2.first in
      let i4 =
        (checked-Inside _ _ _ t s2.between u v
          (moved t s1.between s2.between (moved t m2.between s1.between i2 there) there2)
          s2.rest).1 in
      record {
        row = audit_row s2.value s1.value;
        inside = i4;
        subject = ap (λ (r : AuditLogRecord). r.admin_subject) (sym same);
        does = ap (λ (r : AuditLogRecord). r.action) (sym same);
      }

  time-Inside :
      (at : Time) (t : Tables) (w : World) (now : Time) (v : World)
      → Inside t w
      → Returns (event_time env at) w now v
      → Inside t v
  unfolding event_time
  time-Inside at t w now v i h = time_of (is_zero at) h
    where
      time_of :
          (b : Bool) → Returns (if b then clock env.base else pure (utc at)) w now v → Inside t v
      time_of true k = clock-Inside env.base t w now v i k
      time_of false k = moved t w v i (returned _ w now v k).1

  -- Publish within a transaction, and what it enqueues.
  pub record Publishes (e : AdminEvent) (t : Tables) (v : World) : Type 0 where
    pub row : OutboxRow
    pub inside : Inside (record t { outbox = row ∷ t.outbox }) v
    pub names : row.event_type ≡ e.event_type
    pub of_aggregate : row.aggregate_id ≡ e.aggregate_id
    pub status : row.status ≡ pending

  pub publish-Publishes :
      (e : AdminEvent) (t : Tables) (w : World) (u : Unit {0}) (v : World)
      → Inside t w
      → Returns (publish env e) w u v
      → Publishes e t v
  unfolding publish event_row
  publish-Publishes e t w u v i h =
      let s1 = steps _ _ w u v h in
      let i1 = generate-Inside env.base _ t w _ _ i s1.first in
      let s2 = steps _ _ s1.between u v s1.rest in
      let (made, there) = lifted _ s1.between _ _ s2.first in
      let s3 = steps _ _ s2.between u v s2.rest in
      let i3 =
        time-Inside e.occurred_at t s2.between _ s3.between (moved t s1.between s2.between i1 there)
          s3.first in
      record {
        row = event_row s1.value s2.value s3.value e;
        inside = (checked-Inside _ _ _ t s3.between u v i3 s3.rest).1;
        names = refl;
        of_aggregate = refl;
        status = refl;
      }
