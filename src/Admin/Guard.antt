-- ===== src/Admin/Guard.antt =====
-- internal/services/admin/app/guard.go: what each change by an administrator is held to.
pub mod Granted
use zhi_file_service_go.Common.{if◌then◌else◌, Text}
use zhi_file_service_go.Result.{◌>>=◌, ◌>>◌, Check, accepted}
use zhi_file_service_go.Admin.Context.{AdminContext}
use zhi_file_service_go.Admin.Authorization.{
  create_tenant, patch_tenant, patch_tenant_policy, delete_file, authorize_operation,
  ensure_tenant_scope, require_destructive_reason,
}
use zhi_file_service_go.Admin.Tenant.{TenantPatch, normalize_tenant_patch, has_destructive_change}
use zhi_file_service_go.Admin.TenantPolicy.{
  TenantPolicy, TenantPolicyPatch, apply_to, tightens_compared_to,
}

-- Guard.EnsureCreateTenant
unfoldable pub ensure_create_tenant : AdminContext → Text → Check
ensure_create_tenant ctx tenant_id = do
  authorize_operation ctx create_tenant
  ensure_tenant_scope ctx tenant_id

-- Guard.EnsureTenantPatch
unfoldable pub ensure_tenant_patch : AdminContext → Text → TenantPatch → Check
ensure_tenant_patch ctx tenant_id patch = do
  authorize_operation ctx patch_tenant
  ensure_tenant_scope ctx tenant_id
  let normalized = normalize_tenant_patch patch
  if has_destructive_change normalized
      then require_destructive_reason normalized.reason
      else accepted

-- Guard.EnsureTenantPolicyPatch
unfoldable pub ensure_tenant_policy_patch :
    AdminContext → Text → TenantPolicy → TenantPolicyPatch → Check
ensure_tenant_policy_patch ctx tenant_id current patch = do
  authorize_operation ctx patch_tenant_policy
  ensure_tenant_scope ctx tenant_id
  if tightens_compared_to (apply_to patch current) current
      then require_destructive_reason patch.reason
      else accepted

-- Guard.EnsureDeleteFile
unfoldable pub ensure_delete_file : AdminContext → Text → Text → Check
ensure_delete_file ctx tenant_id reason = do
  authorize_operation ctx delete_file
  ensure_tenant_scope ctx tenant_id
  require_destructive_reason reason
