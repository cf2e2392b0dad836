-- ===== src/Admin/Queries.antt =====
-- The handlers of internal/services/admin/app/queries, with their helpers in support.go.
pub mod Scoped
use zhi_file_service_go.Common.{
  Bool, true, false, not, ◌&&◌, ◌||◌, Option, none, some, List, [], ◌∷◌, map, if◌then◌else◌, String,
  Text, text, text_eq, is_empty, is_blank, trim, ℤ, pos, ltb_ℤ, leb_ℤ, Time,
}
use zhi_file_service_go.Xerrors.{Err, new, invalid_argument, audit_query_invalid, name}
use zhi_file_service_go.Result.{Result, ok, err, Check, refuse, accepted}
use zhi_file_service_go.Storage.{AccessLevel}
use zhi_file_service_go.Upload.Rows.{string_of}
use zhi_file_service_go.Upload.Tables.{FileRow, TenantRow, AuditRow, Tables}
use zhi_file_service_go.Upload.World.{Action, ◌>>=◌, ◌>>◌, pure, lift}
use zhi_file_service_go.Admin.Context.{AdminContext, is_global_scope}
use zhi_file_service_go.Admin.Authorization.{
  Operation, list_tenants, get_tenant, get_tenant_policy, get_tenant_usage, list_files, get_file,
  list_audit_logs, authorize_operation, ensure_tenant_scope,
}
use zhi_file_service_go.Admin.Tenant.{Tenant, TenantStatus, validate_tenant_status}
use zhi_file_service_go.Admin.TenantPolicy.{normalize_policy}
use zhi_file_service_go.Admin.Pages.{
  PageEnv, read_cursor, list_file_rows, list_tenant_rows, list_audit_rows,
}
use zhi_file_service_go.Admin.Repositories.{
  AdminEnv, checked_statement, admin_query, get_tenant_row, get_policy, get_usage_row, get_file_row,
}
use zhi_file_service_go.Admin.Repositories.Statements.{
  TenantPolicyView, TenantUsageView, AdminFileView, file_view, file_status, tenant_of,
}
use zhi_file_service_go.Admin.Commands.{or_missing, tenant_missing, file_missing, checked_option}

-- normalizeListConfig
unfoldable pub normalize_list_config : ℤ → ℤ → ℤ × ℤ
normalize_list_config default_limit max_limit =
    let default = if leb_ℤ default_limit (pos 0) then pos 50 else default_limit in
    let max = if leb_ℤ max_limit (pos 0) then pos 200 else max_limit in
    (default, if ltb_ℤ max default then default else max)

-- normalizeLimit of list_tenants.go
unfoldable pub normalize_page_limit : ℤ → ℤ × ℤ → ℤ
normalize_page_limit value (default, max) =
    let n = if leb_ℤ value (pos 0) then default else value in if ltb_ℤ max n then max else n

abbrev normalized_by : Err → Text → Result Text
normalized_by e value =
    let normalized = trim value in
    if not (is_empty value) && is_empty normalized then err e else ok normalized

-- normalizeOptionalQueryValue
unfoldable pub normalize_query_value : Text → String → Result Text
normalize_query_value value field =
    normalized_by
      (new invalid_argument "query parameter is invalid"
        (("field", name field) ∷ ("reason", name "must_not_be_blank") ∷ []))
      value

-- normalizeOptionalAuditQueryValue
unfoldable pub normalize_audit_value : Text → String → Result Text
normalize_audit_value value field =
    normalized_by
      (new audit_query_invalid "audit query invalid"
        (("field", name field) ∷ ("reason", name "must_not_be_blank") ∷ []))
      value

abbrev known_status : Text → Result Text
known_status status =
    if is_empty status || text_eq status (text "ACTIVE") || text_eq status (text "DELETED")
    then ok status
    else err (
        new invalid_argument "query parameter is invalid"
          (("field", name "status") ∷ ("reason", name "unsupported_value") ∷ []))

abbrev and_known : Result Text → Result Text
and_known (err e) = err e
and_known (ok status) = known_status status

-- normalizeFileStatus
unfoldable pub normalize_file_status : Text → Result Text
unfolding normalize_query_value
normalize_file_status value = and_known (normalize_query_value value "status")

-- scopedTenants
unfoldable pub scoped_tenants : AdminContext → List Text
scoped_tenants ctx = if is_global_scope ctx then [] else ctx.tenant_scopes

-- if tenantID != "" { EnsureTenantScope }
unfoldable pub scope_of_query : AdminContext → Text → Check
scope_of_query ctx tenant_id =
    if is_empty tenant_id then accepted else ensure_tenant_scope ctx tenant_id

-- AdminFile of app/view
pub record AdminFile : Type 0 where
  pub file_id : Text
  pub tenant_id : Text
  pub file_name : Text
  pub content_type : Text
  pub size_bytes : ℤ
  pub access_level : AccessLevel
  pub status : Text
  pub deleted_at : Option Time
  pub created_at : Time
  pub updated_at : Time

-- FromAdminFile
abbrev pub from_admin_file : AdminFileView → AdminFile
from_admin_file v = record {
  file_id = v.file_id;
  tenant_id = v.tenant_id;
  file_name = v.file_name;
  content_type = v.content_type;
  size_bytes = v.size_bytes;
  access_level = v.access_level;
  status = v.status;
  deleted_at = v.deleted_at;
  created_at = v.created_at;
  updated_at = v.updated_at;
}

pub record ListFilesQuery : Type 0 where
  pub tenant_id : Text
  pub status : Text
  pub cursor : Text
  pub limit : ℤ
  pub auth : AdminContext

pub record ListAuditLogsQuery : Type 0 where
  pub tenant_id : Text
  pub actor_id : Text
  pub action : Text
  pub cursor : Text
  pub limit : ℤ
  pub auth : AdminContext

-- blank ids are refused, the others trimmed
unfoldable pub id_of_query : Text → String → String → Result Text
id_of_query id message field =
    let trimmed = trim id in
    if is_empty trimmed
    then err (new invalid_argument message (("field", name field) ∷ []))
    else ok trimmed

abbrev as_check {ℓ} : {A : Type ℓ} → Result A → Check
as_check (ok a) = accepted
as_check (err e) = err e

module _ (env : AdminEnv) (pages : PageEnv) where
  -- A list: its cursor is decoded before its query is sent.
  unfoldable pub listed :
      {A : Type 0} → String → Text → (Tables → Result (List A × Text)) → Action (List A × Text)
  listed message cursor list = do
    lift (as_check (read_cursor pages (λ (r : FileRow). r.created_at) (λ r. r.file_id) cursor))
    page ← admin_query env message list
    lift page

  -- GetFileHandler.Handle
  unfoldable pub handle_get_file : AdminContext → Text → Action AdminFile
  handle_get_file auth id = do
    file_id ← lift (id_of_query id "file id is required" "fileId")
    lift (authorize_operation auth get_file)
    found ← get_file_row env file_id
    file ← lift (or_missing (file_missing file_id) found)
    lift (ensure_tenant_scope auth file.tenant_id)
    pure (from_admin_file file)

  -- GetTenantHandler.Handle
  unfoldable pub handle_get_tenant : AdminContext → Text → Action Tenant
  handle_get_tenant auth id = do
    tenant_id ← lift (id_of_query id "tenant id is required" "tenantId")
    lift (authorize_operation auth get_tenant)
    lift (ensure_tenant_scope auth tenant_id)
    found ← get_tenant_row env tenant_id
    lift (or_missing (tenant_missing tenant_id) found)

  -- GetTenantPolicyHandler.Handle, with FromTenantPolicy
  unfoldable pub handle_get_policy : AdminContext → Text → Action TenantPolicyView
  handle_get_policy auth id = do
    tenant_id ← lift (id_of_query id "tenant id is required" "tenantId")
    lift (authorize_operation auth get_tenant_policy)
    lift (ensure_tenant_scope auth tenant_id)
    found ← get_policy env tenant_id
    policy ← lift (or_missing (tenant_missing tenant_id) found)
    pure (record policy { policy = normalize_policy policy.policy })

  -- GetTenantUsageHandler.Handle
  unfoldable pub handle_get_usage : AdminContext → Text → Action TenantUsageView
  handle_get_usage auth id = do
    tenant_id ← lift (id_of_query id "tenant id is required" "tenantId")
    lift (authorize_operation auth get_tenant_usage)
    lift (ensure_tenant_scope auth tenant_id)
    found ← get_usage_row env tenant_id
    lift (or_missing (tenant_missing tenant_id) found)

  -- ListFilesHandler.Handle, for the limits that NewListFilesHandler keeps
  unfoldable pub handle_list_files : ℤ × ℤ → ListFilesQuery → Action (List AdminFile × Text)
  handle_list_files limits q = do
    lift (authorize_operation q.auth list_files)
    tenant_id ← lift (normalize_query_value q.tenant_id "tenantId")
    status ← lift (normalize_file_status q.status)
    cursor ← lift (normalize_query_value q.cursor "cursor")
    lift (scope_of_query q.auth tenant_id)
    page ← listed "list admin files" cursor (
        list_file_rows pages file_status tenant_id (scoped_tenants q.auth) status cursor
          (normalize_page_limit q.limit limits))
    pure (map (λ r. from_admin_file (file_view r)) page.0, page.1)

  -- ListTenantsHandler.Handle
  unfoldable pub handle_list_tenants :
      ℤ × ℤ → AdminContext → Text → ℤ → Option TenantStatus → Action (List Tenant × Text)
  handle_list_tenants limits auth given_cursor limit status = do
    lift (authorize_operation auth list_tenants)
    cursor ← lift (normalize_query_value given_cursor "cursor")
    lift (checked_option validate_tenant_status status)
    page ← listed "list tenants" cursor (
        list_tenant_rows pages (scoped_tenants auth) status cursor
          (normalize_page_limit limit limits))
    pure (map tenant_of page.0, page.1)

  -- ListAuditLogsHandler.Handle; the rows stand for their views.
  unfoldable pub handle_list_audit_logs : ℤ × ℤ → ListAuditLogsQuery → Action (List AuditRow × Text)
  handle_list_audit_logs limits q = do
    lift (authorize_operation q.auth list_audit_logs)
    tenant_id ← lift (normalize_audit_value q.tenant_id "tenantId")
    actor_id ← lift (normalize_audit_value q.actor_id "actorId")
    action ← lift (normalize_audit_value q.action "action")
    cursor ← lift (normalize_audit_value q.cursor "cursor")
    lift (scope_of_query q.auth tenant_id)
    listed "list admin audit logs" cursor (
        list_audit_rows pages tenant_id (scoped_tenants q.auth) actor_id action cursor
          (normalize_page_limit q.limit limits))
