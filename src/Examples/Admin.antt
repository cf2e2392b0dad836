-- ===== src/Examples/Admin.antt =====
-- Administrators and what they may change.
use zhi_file_service_go.Common.{◌≡◌, ◌↔◌, ◌⊎◌, false, none, some, [], ◌∷◌, text, is_blank, pos}
use zhi_file_service_go.Result.{accepted}
use zhi_file_service_go.Admin.Context.{Role, AdminContext}
use zhi_file_service_go.Admin.Authorization.{Operation, authorize_operation}
use zhi_file_service_go.Admin.Authorization.Matrix.{OneMayDo, authorize_operation-accepted_iff}
use zhi_file_service_go.Admin.TenantPolicy.{TenantPolicy, TenantPolicyPatch}
use zhi_file_service_go.Admin.TenantPolicy.Tightens.{Tightens}
use zhi_file_service_go.Admin.Guard.{ensure_delete_file, ensure_tenant_policy_patch}
use zhi_file_service_go.Admin.Guard.Granted.{
  Entitled, ensure_delete_file-accepted_iff, ensure_tenant_policy_patch-accepted_iff,
}

abbrev eve : AdminContext
eve = record {
  request_id = text "r";
  admin_id = text "eve";
  roles = Role.governance ∷ [];
  tenant_scopes = text "acme" ∷ [];
  permissions = [];
  token_id = text "";
}

authorize_operation-accepted_iff_example :
    (authorize_operation eve Operation.delete_file ≡ accepted)
    ↔ OneMayDo eve.roles Operation.delete_file
authorize_operation-accepted_iff_example =
    authorize_operation-accepted_iff eve Operation.delete_file

ensure_delete_file-accepted_iff_example :
    (ensure_delete_file eve (text "acme") (text "abuse") ≡ accepted)
    ↔ (Entitled eve (text "acme") Operation.delete_file × (is_blank (text "abuse") ≡ false))
ensure_delete_file-accepted_iff_example =
    ensure_delete_file-accepted_iff eve (text "acme") (text "abuse")

abbrev policy : TenantPolicy
policy = record {
  max_storage_bytes = some (pos 1000);
  max_file_count = none;
  max_single_file_size = some (pos 100);
  allowed_mime_types = some (text "image/png" ∷ []);
  allowed_extensions = none;
  default_access_level = none;
  auto_create_enabled = none;
}

-- A limit on the files where there was none, without a reason.
abbrev capped : TenantPolicyPatch
capped = record {
  max_storage_bytes = none;
  max_file_count = some (pos 5);
  max_single_file_size = none;
  allowed_mime_types = none;
  allowed_extensions = none;
  default_access_level = none;
  auto_create_enabled = none;
  reason = text "";
}

ensure_tenant_policy_patch-accepted_iff_example :
    (ensure_tenant_policy_patch eve (text "acme") policy capped ≡ accepted) ↔ (
      Entitled eve (text "acme") Operation.patch_tenant_policy
      × ((¬ Tightens capped policy) ⊎ (is_blank capped.reason ≡ false)))
ensure_tenant_policy_patch-accepted_iff_example =
    ensure_tenant_policy_patch-accepted_iff eve (text "acme") policy capped
