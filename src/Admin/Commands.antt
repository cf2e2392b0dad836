-- ===== src/Admin/Commands.antt =====
-- The commands of internal/services/admin/app/commands, and the helpers of its support.go. A command
-- comes with the administrator that the transport made of its token.
pub mod Handlers
pub mod Atomic
pub mod Deleting
pub mod Audited
use zhi_file_service_go.Common.{
  Bool, true, false, not, ◌&&◌, ◌||◌, ◌==◌, Option, none, some, List, [], ◌∷◌, ◌++◌, is_some,
  if◌then◌else◌, any, String, Text, text, is_empty, trim, ℤ, Time, utc,
}
use zhi_file_service_go.Xerrors.{
  Err, new, wrap, invalid_argument, internal_error, file_not_found, tenant_not_found, Details,
  Value, str, name, int, strs, flag,
}
use zhi_file_service_go.Result.{Result, ok, err, Check, refuse, accepted}
use zhi_file_service_go.Upload.World.{
  Action, ◌>>=◌, ◌>>◌, pure, lift, raise, clock, generate, within_transaction,
}
use zhi_file_service_go.Admin.Context.{AdminContext}
use zhi_file_service_go.Admin.Guard.{
  ensure_create_tenant, ensure_tenant_patch, ensure_tenant_policy_patch, ensure_delete_file,
}
use zhi_file_service_go.Admin.Tenant.{
  Tenant, TenantStatus, active, tenant_status_text, validate_tenant_status, TenantPatch,
  normalize_tenant_patch, is_empty_patch,
}
use zhi_file_service_go.Admin.TenantPolicy.{
  TenantPolicyPatch, normalize_policy, normalize_policy_patch, is_empty_policy_patch,
  validate_policy_patch,
}
use zhi_file_service_go.Admin.Repositories.{
  AdminEnv, create_tenant_row, patch_tenant_rows, create_default, get_policy, patch_policy_rows,
  initialize_usage, get_file_row, mark_deleted, append_audit, publish,
}
use zhi_file_service_go.Admin.Repositories.Statements.{
  TenantPolicyView, AdminFileView, DeleteFileRecord, AuditLogRecord,
}

-- requiredField
unfoldable pub required_field : Text → String → Result Text
required_field value field =
    let normalized = trim value in
    if is_empty normalized
    then err (new invalid_argument "field is required" (("field", name field) ∷ []))
    else ok normalized

-- optionalField
abbrev pub optional_field : Text → Text
optional_field value = trim value

-- strings.Contains(email, "@")
abbrev has_at : Text → Bool
has_at email = any (λ c. c == 64) email

-- validateOptionalEmail
unfoldable pub validate_optional_email : Text → Check
validate_optional_email email =
    let trimmed = trim email in
    if is_empty trimmed || has_at trimmed
    then accepted
    else err (new invalid_argument "contact email is invalid" (("field", name "contactEmail") ∷ []))

-- ErrTenantNotFound and ErrFileNotFound of domain/errors.go
abbrev pub tenant_missing : Text → Err
tenant_missing id = new tenant_not_found "tenant not found" (("tenantId", str id) ∷ [])

abbrev pub file_missing : Text → Err
file_missing id = new file_not_found "file not found" (("fileId", str id) ∷ [])

abbrev pub empty_patch : String → Err
empty_patch message = new invalid_argument message (("field", name "body") ∷ [])

-- if p.F != nil { details[key] = *p.F }
abbrev pub detail {ℓ} : {A : Type ℓ} → String → (A → Value) → Option A → Details → Details
detail key value none rest = rest
detail key value (some a) rest = (key, value a) ∷ rest

abbrev pub reason_detail : Text → Details
reason_detail reason = if is_empty reason then [] else ("reason", str reason) ∷ []

-- tenantPatchDetails
unfoldable pub tenant_patch_details : TenantPatch → Text → Details
tenant_patch_details p key =
    ("idempotencyKey", str (optional_field key))
    ∷ detail "tenantName" (λ s. str s) p.tenant_name
        (detail "status" (λ s. str (tenant_status_text s)) p.status
          (detail "contactEmail" (λ s. str s) p.contact_email
            (detail "description" (λ s. str s) p.description (reason_detail p.reason))))

-- tenantPolicyPatchDetails
unfoldable pub tenant_policy_patch_details : TenantPolicyPatch → Text → Details
tenant_policy_patch_details p key =
    ("idempotencyKey", str (optional_field key))
    ∷ detail "maxStorageBytes" (λ n. int n) p.max_storage_bytes
        (detail "maxFileCount" (λ n. int n) p.max_file_count
          (detail "maxSingleFileSize" (λ n. int n) p.max_single_file_size
            (detail "allowedMimeTypes" (λ v. strs v) p.allowed_mime_types
              (detail "allowedExtensions" (λ v. strs v) p.allowed_extensions
                (detail "defaultAccessLevel" (λ s. str s) p.default_access_level
                  (detail "autoCreateEnabled" (λ b. flag b) p.auto_create_enabled
                    (reason_detail p.reason)))))))

pub record CreateTenantCommand : Type 0 where
  pub tenant_id : Text
  pub tenant_name : Text
  pub contact_email : Text
  pub description : Text
  pub idempotency_key : Text
  pub auth : AdminContext

pub record PatchTenantCommand : Type 0 where
  pub tenant_id : Text
  pub patch : TenantPatch
  pub idempotency_key : Text
  pub auth : AdminContext

pub record PatchTenantPolicyCommand : Type 0 where
  pub tenant_id : Text
  pub patch : TenantPolicyPatch
  pub idempotency_key : Text
  pub auth : AdminContext

pub record DeleteFileCommand : Type 0 where
  pub file_id : Text
  pub reason : Text
  pub idempotency_key : Text
  pub auth : AdminContext

-- if x == nil { return e }
abbrev pub or_missing {ℓ} : {A : Type ℓ} → Err → Option A → Result A
or_missing e none = err e
or_missing e (some a) = ok a

-- DeleteFileResult of app/view
pub record DeleteFileResult : Type 0 where
  pub file_id : Text
  pub status : Text
  pub deleted_at : Option Time
  pub physical_delete_scheduled : Bool

-- FromDeleteFileRecord
abbrev pub delete_result : DeleteFileRecord → DeleteFileResult
delete_result r = record {
  file_id = r.file.file_id;
  status = r.file.status;
  deleted_at = r.file.deleted_at;
  physical_delete_scheduled = r.physical_delete_scheduled;
}

-- if p != nil { if err := check(*p); err != nil { return err } }
abbrev pub checked_option {ℓ} : {A : Type ℓ} → (A → Check) → Option A → Check
checked_option check none = accepted
checked_option check (some a) = check a

module _ (env : AdminEnv) where
  -- newAuditRecord
  unfoldable pub new_audit_record :
      AdminContext → Text → Text → Text → Text → Details → Action AuditLogRecord
  new_audit_record auth tenant_id action target_type target_id details = do
    audit_id ← generate env.base (λ e. wrap internal_error "generate audit log id" e [])
    now ← clock env.base
    pure (record {
      audit_id = audit_id;
      admin_subject = auth.admin_id;
      tenant_id = trim tenant_id;
      action = action;
      target_type = trim target_type;
      target_id = trim target_id;
      request_id = auth.request_id;
      details = details;
      created_at = now;
    })

  -- The end of each command: the record is made and appended.
  unfoldable pub audit : AdminContext → Text → Text → Text → Text → Details → Action (Unit {0})
  audit auth tenant_id action target_type target_id details = do
    r ← new_audit_record auth tenant_id action target_type target_id details
    append_audit env r
