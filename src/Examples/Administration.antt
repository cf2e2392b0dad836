-- ===== src/Examples/Administration.antt =====
-- Requests of the admin service at concrete tables, and the pages of its lists.
use zhi_file_service_go.Common.{
  ◌≡◌, ◌==◌, ◌∙◌, ap, ◌&&◌, refl, sym, Bool, true, false, Option, none, some, List, [], ◌∷◌, All,
  if◌then◌else◌, Bool-cases, inl, inr, ◌⊎◌, Text, text, trim, to_upper, to_lower, Time, text_eq,
  text_eq_iff, ◌++◌, pos, ℤ, arith, is_space, lower_char, strip, strip_right, upper_char,
}
use zhi_file_service_go.Common.Sorting.{sort}
use zhi_file_service_go.Xerrors.{new, wrap, internal_error, Err}
use zhi_file_service_go.Result.{ok, err}
use zhi_file_service_go.Storage.{AccessLevel}
use zhi_file_service_go.Upload.Tables.{FileRow}
use zhi_file_service_go.Upload.World.{
  World, settled, transaction, ◌>>=◌, lift, clock, close_transaction, generate, open_transaction,
  pure,
}
use zhi_file_service_go.Upload.World.Laws.{Returns}
use zhi_file_service_go.Admin.Context.{
  has_minimum_role, can_access_tenant, is_global_scope, role_rank, Role,
}
use zhi_file_service_go.Admin.Context.{AdminContext, AdminContextInput, new_admin_context}
use zhi_file_service_go.Admin.Repositories.{
  get_file_row, checked_statement, mark_deleted, append_audit, delete_row, event_time, publish,
  wrap_admin_error, AdminEnv,
}
use zhi_file_service_go.Admin.Pages.{
  read_cursor, list_file_rows, CursorValue, PageEnv, page_rows, list_page,
}
use zhi_file_service_go.Admin.Pages.Skipped.{pages_skip}
use zhi_file_service_go.Admin.Commands.{
  required_field, audit, new_audit_record, DeleteFileCommand, DeleteFileResult,
}
use zhi_file_service_go.Admin.Commands.Handlers.{
  delete_file_body, record_deletion, handle_delete_file,
}
use zhi_file_service_go.Admin.Commands.Deleting.{Unchanged}
use zhi_file_service_go.Admin.Commands.Audited.{Deleted, handle_delete_file-Deleted}
use zhi_file_service_go.Admin.Commands.Atomic.{AdminCommand, perform, failed_command_keeps}
use zhi_file_service_go.Admin.Repositories.Statements.{
  audit_row, delete_file_row, delete_file_rows, event_row, null_string_trimmed, release_blob,
  release_usage, file_view,
}
use zhi_file_service_go.Admin.Queries.{
  normalize_query_value, normalize_file_status, scope_of_query, listed, normalize_page_limit,
  scoped_tenants, AdminFile, from_admin_file, ListFilesQuery, handle_list_files,
}
use zhi_file_service_go.Admin.Queries.Scoped.{IsInScope, listed_files-IsInScope}
use zhi_file_service_go.Admin.Guard.{ensure_delete_file}
use zhi_file_service_go.Admin.Authorization.{
  authorize_operation, ensure_tenant_scope, require_destructive_reason, rule_for,
}
use zhi_file_service_go.Access.Ticket.{DownloadDisposition}
use zhi_file_service_go.Access.Queries.{ResolveDownloadResult, resolve_download, ticket_auth}
use zhi_file_service_go.Access.Repositories.{scanned_file, reading}
use zhi_file_service_go.Access.Repositories.Deleted.{deleted_not_downloaded}
use zhi_file_service_go.Examples.Access.{ports, claims}
use zhi_file_service_go.Examples.Upload.{draft}
use zhi_file_service_go.Examples.Completion.{calm, holding}

-- Three rows, of which the cursor of the second can be written.
abbrev at_place : Time → Text → CursorValue
at_place t id = record { created_at = t; id = id }

abbrev second : CursorValue
second = at_place 2 (text "b")

abbrev places : List CursorValue
places = at_place 3 (text "c") ∷ second ∷ at_place 1 (text "a") ∷ []

abbrev is_second : CursorValue → Bool
is_second c = c.created_at == 2 && text_eq c.id (text "b")

abbrev paging : PageEnv
paging = record {
  id_before = λ a b. false;
  encode = λ c. if is_second c then ok (text "n") else err (new internal_error "refused" []);
  decode = λ s. some second;
}

eq-second : (c : CursorValue) → is_second c ≡ true → second ≡ c
eq-second c h =
    ap (λ n. at_place n (text "b")) {x = 2} {y = c.created_at} (ground arith)
    ∙ ap (at_place c.created_at) {x = text "b"} {y = c.id}
        (sym ((text_eq_iff c.id (text "b")).0 (ground arith)))

encoded_second : (c : CursorValue) (s : Text) → paging.encode c ≡ ok s → some second ≡ some c
encoded_second c s h = elim (Bool-cases (is_second c)) [
  | inl e ↦ ap some (eq-second c e)
  | inr e ↦ absurd (ground (arith, e, h))
]

other-keys : (a b : Text) → text_eq a b ≡ false → ¬ (a ≡ b)
other-keys a b h e = ground (arith, (text_eq_iff a b).1 e)

pages_skip_example :
    (start : Option CursorValue) × (x : CursorValue) × (rest : List CursorValue) × (read_cursor
        paging
        (λ (c : CursorValue). c.created_at)
        (λ c. c.id)
        []
      ≡ ok start)
    × (page_rows paging (λ c. c.created_at) (λ c. c.id) (λ c. true) start 1 places
        ≡ (at_place 3 (text "c") ∷ []) ++ (x ∷ rest))
    × All (λ (y : CursorValue). ¬ (y.id ≡ x.id)) (at_place 3 (text "c") ∷ [])
    × All (λ (y : CursorValue). ¬ (y ≡ x)) (at_place 1 (text "a") ∷ [])
unfolding list_page trim text_eq
pages_skip_example =
    pages_skip paging (λ c. c.created_at) (λ c. c.id)
      (record { strict = λ id. refl; decodes = encoded_second }) (λ c. true) [] (text "n") (pos 1)
      (pos 5) places places (at_place 3 (text "c") ∷ []) (at_place 1 (text "a") ∷ []) []
      (refl, (refl, (refl, tt)))
      ((other-keys _ _ refl, (other-keys _ _ refl, tt)), ((other-keys _ _ refl, tt), (tt, tt))) refl
      refl refl

abbrev entered : AdminContextInput
entered = record {
  request_id = text "r";
  admin_id = text "eve";
  roles = text "admin.governance" ∷ [];
  tenant_scopes = text "acme" ∷ [];
  permissions = [];
  token_id = [];
}

abbrev eve : AdminContext
eve = record {
  request_id = text "r";
  admin_id = text "eve";
  roles = Role.governance ∷ [];
  tenant_scopes = text "acme" ∷ [];
  permissions = [];
  token_id = [];
}

abbrev kept_file : FileRow
kept_file = record {
  file_id = text "f1";
  tenant_id = text "acme";
  owner_id = text "ann";
  blob_object_id = text "b1";
  original_filename = text "a.bin";
  content_type = none;
  file_size = pos 4096;
  access_level = AccessLevel.private;
  is_active = true;
  storage_provider = text "S3";
  bucket_name = text "b";
  object_key = text "k";
  file_hash = none;
  created_at = 10;
  updated_at = 10;
  deleted_at = none;
}

abbrev filed : World
filed = record (holding draft) { tables = record (holding draft).tables { files = kept_file ∷ [] } }

abbrev quiet : AdminEnv
quiet = record {
  base = calm;
  is_duplicate = λ e. false;
  duplicate_key = new internal_error "duplicate key" [];
  marshal = λ d. ok (text "{}");
}

abbrev removal : DeleteFileCommand
removal = record { file_id = text " f1"; reason = text "abuse"; idempotency_key = []; auth = eve }

abbrev removed : DeleteFileResult
removed = record {
  file_id = text "f1";
  status = text "DELETED";
  deleted_at = some 32;
  physical_delete_scheduled = true;
}

abbrev after_delete : World
after_delete = (handle_delete_file quiet (λ t. text "now") removal filed).1

deletes : Returns (handle_delete_file quiet (λ t. text "now") removal) filed removed after_delete
unfolding handle_delete_file trim text_eq to_upper to_lower is_space strip strip_right lower_char
    upper_char ◌>>=◌ lift required_field get_file_row checked_statement settled ensure_delete_file
    authorize_operation has_minimum_role ensure_tenant_scope file_view can_access_tenant
    require_destructive_reason transaction delete_file_body clock mark_deleted rule_for
    record_deletion audit new_audit_record is_global_scope role_rank audit_row delete_file_row
    delete_file_rows event_row null_string_trimmed release_blob release_usage append_audit
    delete_row event_time publish wrap_admin_error close_transaction generate open_transaction pure
deletes = refl

handle_delete_file-Deleted_example :
    Unchanged quiet (trim (text " f1")) filed.tables after_delete.tables
    ⊎ Deleted quiet removal (trim (text " f1")) filed.tables after_delete.tables
handle_delete_file-Deleted_example =
    handle_delete_file-Deleted quiet (λ n t. refl) (λ t. text "now") removal filed removed
      after_delete refl deletes

-- Nothing can be encoded, so that the audit record of the deletion cannot be made.
abbrev failing : AdminEnv
failing = record quiet { marshal = λ d. err (new internal_error "refused" []) }

abbrev after_failure : World
after_failure = (perform failing (λ t. text "now") (AdminCommand.delete removal) filed).1

abbrev failure : Err
failure = wrap internal_error "marshal admin audit details" (new internal_error "refused" []) []

fails :
    perform failing (λ t. text "now") (AdminCommand.delete removal) filed
    ≡ (err failure, after_failure)
unfolding perform handle_delete_file trim text_eq to_upper to_lower is_space strip strip_right
    lower_char upper_char ◌>>=◌ lift required_field get_file_row checked_statement settled
    ensure_delete_file authorize_operation has_minimum_role ensure_tenant_scope file_view
    can_access_tenant require_destructive_reason transaction delete_file_body clock mark_deleted
    rule_for record_deletion audit new_audit_record is_global_scope role_rank audit_row
    delete_file_row delete_file_rows event_row null_string_trimmed release_blob release_usage
    append_audit delete_row event_time publish wrap_admin_error close_transaction generate
    open_transaction pure
fails = refl

failed_command_keeps_example : after_failure.tables ≡ filed.tables
failed_command_keeps_example =
    failed_command_keeps failing (λ n t. refl) (λ t. text "now") (AdminCommand.delete removal) filed
      failure after_failure refl fails

abbrev asked : ListFilesQuery
asked = record { tenant_id = []; status = []; cursor = []; limit = pos 10; auth = eve }

abbrev limits : ℤ × ℤ
limits = (pos 50, pos 200)

abbrev shown : List AdminFile
shown = from_admin_file (file_view kept_file) ∷ []

abbrev after_list : World
after_list = (handle_list_files quiet paging limits asked filed).1

lists : Returns (handle_list_files quiet paging limits asked) filed (shown, []) after_list
unfolding handle_list_files trim text_eq to_upper to_lower is_space strip strip_right lower_char
    upper_char ◌>>=◌ lift authorize_operation has_minimum_role normalize_query_value
    normalize_file_status scope_of_query listed read_cursor checked_statement list_file_rows
    normalize_page_limit settled scoped_tenants is_global_scope pure
lists = refl

enters : new_admin_context entered ≡ ok eve
unfolding new_admin_context trim text_eq sort
enters = refl

listed_files-IsInScope_example : All (λ (f : AdminFile). IsInScope eve f.tenant_id) shown
listed_files-IsInScope_example =
    listed_files-IsInScope quiet paging limits entered asked filed shown [] after_list enters lists

abbrev downloaded : ResolveDownloadResult
downloaded = record { file = scanned_file kept_file; url = text "signed/k" }

deleted_not_downloaded_example : ¬ (
    resolve_download
      (reading ports none none after_delete.tables)
      (trim (text " f1"))
      DownloadDisposition.attachment
      (ticket_auth claims)
    ≡ ok downloaded)
deleted_not_downloaded_example =
    deleted_not_downloaded quiet (λ n t. refl) (λ t. text "now") removal filed removed after_delete
      refl deletes ports none none DownloadDisposition.attachment (ticket_auth claims) downloaded
