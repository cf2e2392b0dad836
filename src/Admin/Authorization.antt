-- ===== src/Admin/Authorization.antt =====
-- internal/services/admin/domain/authorization.go: the role matrix and the scope of tenants.
pub mod Matrix
use zhi_file_service_go.Common.{
  Bool, true, false, not, Option, none, some, [], ◌∷◌, if◌then◌else◌, Text, trim, is_blank,
  is_empty, String,
}
use zhi_file_service_go.Xerrors.{
  Err, new, invalid_argument, internal_error, admin_permission_denied, tenant_scope_denied, Value,
  str, name,
}
use zhi_file_service_go.Result.{◌>>=◌, ◌>>◌, err, refuse, Check, accepted}
use zhi_file_service_go.Admin.Context.{
  Role, readonly, governance, super, role_text, AdminContext, can_access_tenant, has_minimum_role,
}

-- A string type: the constants, and any other string.
pub data Operation : Type 0 where
  list_tenants create_tenant get_tenant patch_tenant get_tenant_policy : Operation
  patch_tenant_policy get_tenant_usage list_files get_file delete_file list_audit_logs : Operation
  other : Text → Operation

abbrev pub operation_text : Operation → Value
operation_text list_tenants = name "listTenants"
operation_text create_tenant = name "createTenant"
operation_text get_tenant = name "getTenant"
operation_text patch_tenant = name "patchTenant"
operation_text get_tenant_policy = name "getTenantPolicy"
operation_text patch_tenant_policy = name "patchTenantPolicy"
operation_text get_tenant_usage = name "getTenantUsage"
operation_text list_files = name "listFiles"
operation_text get_file = name "getFile"
operation_text delete_file = name "deleteFile"
operation_text list_audit_logs = name "listAuditLogs"
operation_text (other s) = str s

pub record OperationRule : Type 0 where
  pub minimum_role : Role
  pub destructive : Bool

abbrev plain_rule : Role → Option OperationRule
plain_rule role = some (record { minimum_role = role; destructive = false })

-- RuleFor, over the table operationRules
unfoldable pub rule_for : Operation → Option OperationRule
rule_for list_tenants = plain_rule readonly
rule_for create_tenant = plain_rule super
rule_for get_tenant = plain_rule readonly
rule_for patch_tenant = plain_rule governance
rule_for get_tenant_policy = plain_rule readonly
rule_for patch_tenant_policy = plain_rule governance
rule_for get_tenant_usage = plain_rule readonly
rule_for list_files = plain_rule readonly
rule_for get_file = plain_rule readonly
rule_for delete_file = some (record { minimum_role = governance; destructive = true })
rule_for list_audit_logs = plain_rule readonly
rule_for (other s) = none

-- ErrAdminPermissionDenied and ErrTenantScopeDenied of domain/errors.go
abbrev pub permission_denied : Operation → Role → Err
permission_denied operation minimum_role =
    new admin_permission_denied "admin permission denied" (
      ("operation", operation_text operation) ∷ ("requiredRole", str (role_text minimum_role)) ∷ [])

abbrev pub scope_denied : Text → Err
scope_denied tenant_id =
    new tenant_scope_denied "tenant scope denied" (("tenantId", str tenant_id) ∷ [])

authorize_by : Operation → Option OperationRule → AdminContext → Check
authorize_by operation none ctx = err (
    new internal_error "admin operation is not registered"
      (("operation", operation_text operation) ∷ []))
authorize_by operation (some rule) ctx =
    refuse (not (has_minimum_role ctx rule.minimum_role))
      (permission_denied operation rule.minimum_role)

-- AuthorizeOperation
unfoldable pub authorize_operation : AdminContext → Operation → Check
unfolding authorize_by rule_for
authorize_operation ctx operation = authorize_by operation (rule_for operation) ctx

-- EnsureTenantScope
unfoldable pub ensure_tenant_scope : AdminContext → Text → Check
ensure_tenant_scope ctx tenant_id = do
  let trimmed = trim tenant_id
  refuse (is_empty trimmed)
      (new invalid_argument "tenant id is required" (("field", name "tenantId") ∷ []))
  refuse (not (can_access_tenant ctx trimmed)) (scope_denied trimmed)
  accepted

-- RequireDestructiveReason
unfoldable pub require_destructive_reason : Text → Check
require_destructive_reason reason = refuse (is_blank reason) (
    new invalid_argument "reason is required for destructive operation"
      (("field", name "reason") ∷ []))
