-- ===== src/Admin/Commands/Handlers.antt =====
-- The handlers of internal/services/admin/app/commands.
use zhi_file_service_go.Common.{Bool, true, false, [], ◌∷◌, Text, text, Time, utc}
use zhi_file_service_go.Xerrors.{Details, str, name}
use zhi_file_service_go.Result.{refuse}
use zhi_file_service_go.Upload.World.{Action, ◌>>=◌, ◌>>◌, pure, lift, clock, within_transaction}
use zhi_file_service_go.Admin.Guard.{
  ensure_create_tenant, ensure_tenant_patch, ensure_tenant_policy_patch, ensure_delete_file,
}
use zhi_file_service_go.Admin.Tenant.{
  Tenant, active, tenant_status_text, validate_tenant_status, TenantPatch, normalize_tenant_patch,
  is_empty_patch,
}
use zhi_file_service_go.Admin.TenantPolicy.{
  TenantPolicyPatch, normalize_policy, normalize_policy_patch, is_empty_policy_patch,
  validate_policy_patch,
}
use zhi_file_service_go.Admin.Repositories.{
  AdminEnv, create_tenant_row, patch_tenant_rows, create_default, get_policy, patch_policy_rows,
  initialize_usage, get_file_row, mark_deleted, publish,
}
use zhi_file_service_go.Admin.Repositories.Statements.{
  TenantPolicyView, AdminFileView, DeleteFileRecord,
}
use zhi_file_service_go.Admin.Commands.{
  CreateTenantCommand, PatchTenantCommand, PatchTenantPolicyCommand, DeleteFileCommand,
  DeleteFileResult, delete_result, required_field, optional_field, validate_optional_email,
  tenant_missing, file_missing, empty_patch, tenant_patch_details, tenant_policy_patch_details,
  or_missing, checked_option, audit,
}

module _ (env : AdminEnv) where
  -- What CreateTenantHandler.Handle does in its transaction.
  unfoldable pub create_tenant_body : Tenant → CreateTenantCommand → Action Tenant
  create_tenant_body tenant command = do
    create_tenant_row env tenant
    create_default env tenant.tenant_id
    initialize_usage env tenant.tenant_id
    audit env command.auth tenant.tenant_id (text "tenant.create") (text "tenant") tenant.tenant_id
        (("tenantName", str tenant.tenant_name)
          ∷ ("status", str (tenant_status_text tenant.status))
          ∷ ("idempotencyKey", str (optional_field command.idempotency_key))
          ∷ [])
    pure tenant

  -- CreateTenantHandler.Handle; the view is a copy of the tenant.
  unfoldable pub handle_create_tenant : CreateTenantCommand → Action Tenant
  handle_create_tenant command = do
    tenant_id ← lift (required_field command.tenant_id "tenantId")
    tenant_name ← lift (required_field command.tenant_name "tenantName")
    lift (validate_optional_email command.contact_email)
    lift (ensure_create_tenant command.auth tenant_id)
    now ← clock env.base
    let tenant : Tenant = record {
      tenant_id = tenant_id;
      tenant_name = tenant_name;
      status = active;
      contact_email = optional_field command.contact_email;
      description = optional_field command.description;
      created_at = now;
      updated_at = now;
    }
    within_transaction env.base (create_tenant_body tenant command)

  -- What PatchTenantHandler.Handle does in its transaction.
  unfoldable pub patch_tenant_body : Text → TenantPatch → PatchTenantCommand → Action Tenant
  patch_tenant_body tenant_id patch command = do
    patched ← patch_tenant_rows env tenant_id patch
    updated ← lift (or_missing (tenant_missing tenant_id) patched)
    audit env command.auth tenant_id (text "tenant.patch") (text "tenant") tenant_id
        (tenant_patch_details patch command.idempotency_key)
    pure updated

  -- PatchTenantHandler.Handle
  unfoldable pub handle_patch_tenant : PatchTenantCommand → Action Tenant
  handle_patch_tenant command = do
    tenant_id ← lift (required_field command.tenant_id "tenantId")
    let patch = normalize_tenant_patch command.patch
    lift (refuse (is_empty_patch patch) (empty_patch "tenant patch is empty"))
    lift (checked_option validate_tenant_status patch.status)
    lift (checked_option validate_optional_email patch.contact_email)
    lift (ensure_tenant_patch command.auth tenant_id patch)
    within_transaction env.base (patch_tenant_body tenant_id patch command)

  -- What PatchTenantPolicyHandler.Handle does in its transaction.
  unfoldable pub patch_policy_body :
      Text → TenantPolicyPatch → PatchTenantPolicyCommand → Action TenantPolicyView
  patch_policy_body tenant_id patch command = do
    found ← get_policy env tenant_id
    current ← lift (or_missing (tenant_missing tenant_id) found)
    lift (ensure_tenant_policy_patch command.auth tenant_id (normalize_policy current.policy) patch)
    patched ← patch_policy_rows env tenant_id patch
    updated ← lift (or_missing (tenant_missing tenant_id) patched)
    audit env command.auth tenant_id (text "tenant_policy.patch") (text "tenantPolicy") tenant_id
        (tenant_policy_patch_details patch command.idempotency_key)
    pure updated

  -- PatchTenantPolicyHandler.Handle; FromTenantPolicy normalises the policy once more.
  unfoldable pub handle_patch_policy : PatchTenantPolicyCommand → Action TenantPolicyView
  handle_patch_policy command = do
    tenant_id ← lift (required_field command.tenant_id "tenantId")
    let patch = normalize_policy_patch command.patch
    lift (refuse (is_empty_policy_patch patch) (empty_patch "tenant policy patch is empty"))
    lift (validate_policy_patch patch)
    updated ← within_transaction env.base (patch_policy_body tenant_id patch command)
    pure (record updated { policy = normalize_policy updated.policy })

  -- The payload of file.asset.delete_requested.v1; `formatted` is Format(time.RFC3339).
  abbrev pub delete_payload : (Time → Text) → Time → DeleteFileCommand → AdminFileView → Details
  delete_payload formatted now command file =
      ("occurredAt", str (formatted (utc now)))
      ∷ ("requestId", str command.auth.request_id)
      ∷ ("tenantId", str file.tenant_id)
      ∷ ("producer", name "admin-service")
      ∷ ("fileId", str file.file_id)
      ∷ ("blobObjectId", str file.blob_id)
      ∷ ("deletedBy", str command.auth.admin_id)
      ∷ ("reason", str command.reason)
      ∷ []

  -- What follows MarkDeleted where the file was not deleted before.
  unfoldable pub record_deletion :
      (Time → Text) → Time → DeleteFileCommand → DeleteFileRecord → Action DeleteFileRecord
  record_deletion formatted now command deleted = do
    audit env command.auth deleted.file.tenant_id (text "file.delete") (text "file")
        deleted.file.file_id
        (("reason", str command.reason)
          ∷ ("idempotencyKey", str (optional_field command.idempotency_key))
          ∷ ("blobId", str deleted.file.blob_id)
          ∷ [])
    publish env (record {
      event_type = text "file.asset.delete_requested.v1";
      aggregate_id = deleted.file.file_id;
      occurred_at = now;
      payload = delete_payload formatted now command deleted.file;
    })
    pure deleted

  -- if deleted.AlreadyDeleted { return nil }
  abbrev pub record_unless :
      (Time → Text) → Time → DeleteFileCommand → DeleteFileRecord → Bool → Action DeleteFileRecord
  record_unless formatted now command deleted true = pure deleted
  record_unless formatted now command deleted false = record_deletion formatted now command deleted

  -- What DeleteFileHandler.Handle does in its transaction.
  unfoldable pub delete_file_body :
      (Time → Text) → Text → DeleteFileCommand → Action DeleteFileRecord
  delete_file_body formatted file_id command = do
    now ← clock env.base
    found ← mark_deleted env file_id now
    deleted ← lift (or_missing (file_missing file_id) found)
    record_unless formatted now command deleted deleted.already_deleted

  -- DeleteFileHandler.Handle
  unfoldable pub handle_delete_file : (Time → Text) → DeleteFileCommand → Action DeleteFileResult
  handle_delete_file formatted command = do
    file_id ← lift (required_field command.file_id "fileId")
    found ← get_file_row env file_id
    current ← lift (or_missing (file_missing file_id) found)
    lift (ensure_delete_file command.auth current.tenant_id command.reason)
    deleted ← within_transaction env.base (delete_file_body formatted file_id command)
    pure (delete_result deleted)
