-- ===== src/Admin/Repositories/Statements.antt =====
-- The rows that the repositories of internal/services/admin/infra/postgres/repositories.go write, and
-- what they make of the rows that they read.
use zhi_file_service_go.Common.{
  ◌+ℤ◌, zero, suc, Bool, false, Option, none, some, List, [], ◌∷◌, is_nil, is_empty, if◌then◌else◌,
  Text, text, text_eq, trim, ℤ, pos, negsuc, ltb_ℤ, Time, is_zero, utc,
}
use zhi_file_service_go.Xerrors.{Details}
use zhi_file_service_go.Storage.{AccessLevel}
use zhi_file_service_go.Upload.Rows.{string_of}
use zhi_file_service_go.Upload.Tables.{
  FileRow, UsageRow, PolicyRow, TenantRow, AuditRow, OutboxRow, pending, Tables, update_where,
}
use zhi_file_service_go.Upload.Statements.{is_blob}
use zhi_file_service_go.Admin.Tenant.{Tenant, TenantStatus, deleted, TenantPatch}
use zhi_file_service_go.Admin.TenantPolicy.{TenantPolicy, TenantPolicyPatch, normalize_policy}

-- nullString, which trims
unfoldable pub null_string_trimmed : Text → Option Text
null_string_trimmed value = let s = trim value in if is_empty s then none else some s

-- nullTime
unfoldable pub null_time_value : Option Time → Option Time
null_time_value none = none
null_time_value (some t) = if is_zero t then none else some (utc t)

-- statusDeletedAt
unfoldable pub status_deleted_at : TenantStatus → Time → Option Time
status_deleted_at deleted updated_at = some (utc updated_at)
status_deleted_at _ updated_at = none

-- The INSERT of TenantRepository.Create
unfoldable pub tenant_row : Tenant → TenantRow
unfolding null_string_trimmed null_time_value status_deleted_at
tenant_row t = record {
  tenant_id = t.tenant_id;
  tenant_name = t.tenant_name;
  status = t.status;
  contact_email = null_string_trimmed t.contact_email;
  description = null_string_trimmed t.description;
  created_at = utc t.created_at;
  updated_at = utc t.updated_at;
  deleted_at = null_time_value (status_deleted_at t.status t.updated_at);
}

-- scanTenant
unfoldable pub tenant_of : TenantRow → Tenant
tenant_of r = record {
  tenant_id = r.tenant_id;
  tenant_name = r.tenant_name;
  status = r.status;
  contact_email = string_of r.contact_email;
  description = string_of r.description;
  created_at = utc r.created_at;
  updated_at = utc r.updated_at;
}

-- CASE WHEN p IS GIVEN THEN p ELSE column END
abbrev pub replaced {ℓ} : {A : Type ℓ} → Option A → A → A
replaced none column = column
replaced (some value) column = value

abbrev pub replaced_nullable : Option Text → Option Text → Option Text
replaced_nullable none column = column
replaced_nullable (some value) column = some value

abbrev pub replaced_deletion : Option TenantStatus → Time → Option Time → Option Time
replaced_deletion none now column = column
replaced_deletion (some deleted) now column = some now
replaced_deletion (some _) now column = none

-- SET of TenantRepository.Patch
unfoldable pub patch_tenant_row : Time → TenantPatch → TenantRow → TenantRow
patch_tenant_row now p r = record r {
  tenant_name = replaced p.tenant_name r.tenant_name;
  status = replaced p.status r.status;
  contact_email = replaced_nullable p.contact_email r.contact_email;
  description = replaced_nullable p.description r.description;
  deleted_at = replaced_deletion p.status now r.deleted_at;
  updated_at = now;
}

-- The INSERT of TenantPolicyRepository.CreateDefault
unfoldable pub default_policy : Time → Text → PolicyRow
default_policy now tenant_id = record {
  tenant_id = tenant_id;
  max_storage_bytes = pos 10737418240;
  max_file_count = pos 100000;
  max_single_file_size = pos 104857600;
  allowed_mime_types = text "image/png" ∷ text "image/jpeg" ∷ text "application/pdf" ∷ [];
  allowed_extensions = text "png" ∷ text "jpg" ∷ text "jpeg" ∷ text "pdf" ∷ [];
  default_access_level = text "PRIVATE";
  auto_create_enabled = false;
  created_at = now;
  updated_at = now;
}

-- TenantPolicyView of ports
pub record TenantPolicyView : Type 0 where
  pub tenant_id : Text
  pub policy : TenantPolicy
  pub created_at : Time
  pub updated_at : Time

-- cloneStrings
unfoldable pub clone_strings : List Text → Option (List Text)
clone_strings values = if is_nil values then none else some values

-- scanTenantPolicy
unfoldable pub policy_view : PolicyRow → TenantPolicyView
unfolding clone_strings normalize_policy
policy_view r = record {
  tenant_id = r.tenant_id;
  policy = normalize_policy (record {
    max_storage_bytes = some r.max_storage_bytes;
    max_file_count = some r.max_file_count;
    max_single_file_size = some r.max_single_file_size;
    allowed_mime_types = clone_strings r.allowed_mime_types;
    allowed_extensions = clone_strings r.allowed_extensions;
    default_access_level = some r.default_access_level;
    auto_create_enabled = some r.auto_create_enabled;
  });
  created_at = utc r.created_at;
  updated_at = utc r.updated_at;
}

-- SET of TenantPolicyRepository.Patch
unfoldable pub patch_policy_row : Time → TenantPolicyPatch → PolicyRow → PolicyRow
patch_policy_row now p r = record r {
  max_storage_bytes = replaced p.max_storage_bytes r.max_storage_bytes;
  max_file_count = replaced p.max_file_count r.max_file_count;
  max_single_file_size = replaced p.max_single_file_size r.max_single_file_size;
  allowed_mime_types = replaced p.allowed_mime_types r.allowed_mime_types;
  allowed_extensions = replaced p.allowed_extensions r.allowed_extensions;
  default_access_level = replaced p.default_access_level r.default_access_level;
  auto_create_enabled = replaced p.auto_create_enabled r.auto_create_enabled;
  updated_at = now;
}

-- The INSERT of TenantUsageRepository.Initialize
unfoldable pub initial_usage : Time → Text → UsageRow
initial_usage now tenant_id = record {
  tenant_id = tenant_id;
  used_storage_bytes = pos 0;
  used_file_count = pos 0;
  last_upload_at = none;
  version = pos 0;
  updated_at = now;
}

abbrev pub is_tenant : Text → TenantRow → Bool
is_tenant id r = text_eq r.tenant_id id

abbrev pub is_policy : Text → PolicyRow → Bool
is_policy id r = text_eq r.tenant_id id

abbrev pub is_usage : Text → UsageRow → Bool
is_usage id r = text_eq r.tenant_id id

abbrev pub is_file : Text → FileRow → Bool
is_file id r = text_eq r.file_id id

-- GREATEST(a, 0)
abbrev pub at_least_zero : ℤ → ℤ
at_least_zero a = if ltb_ℤ a (pos 0) then pos 0 else a

-- -a
abbrev pub negated : ℤ → ℤ
negated (pos zero) = pos 0
negated (pos (suc n)) = negsuc n
negated (negsuc n) = pos (suc n)

-- The first UPDATE of MarkDeleted
unfoldable pub delete_file_row : Time → FileRow → FileRow
delete_file_row now f = record f { is_active = false; deleted_at = some now; updated_at = now }

unfoldable pub delete_file_rows : Time → Text → Tables → Tables
unfolding delete_file_row
delete_file_rows now file_id t = record t {
  files = update_where (is_file file_id) (delete_file_row now) t.files;
}

-- The second UPDATE of MarkDeleted
unfoldable pub release_blob : Time → Text → Tables → Tables
release_blob now blob_id t = record t {
  blobs =
      update_where (is_blob blob_id)
        (λ b. record b {
          reference_count = at_least_zero (b.reference_count +ℤ negsuc 0);
          updated_at = now;
        })
        t.blobs;
}

-- The third UPDATE of MarkDeleted
unfoldable pub release_usage : Time → Text → ℤ → Tables → Tables
release_usage now tenant_id size t = record t {
  usage =
      update_where (is_usage tenant_id)
        (λ u. record u {
          used_storage_bytes = at_least_zero (u.used_storage_bytes +ℤ negated size);
          used_file_count = at_least_zero (u.used_file_count +ℤ negsuc 0);
          version = u.version +ℤ pos 1;
          updated_at = now;
        })
        t.usage;
}

-- AdminFileView of ports
pub record AdminFileView : Type 0 where
  pub file_id : Text
  pub tenant_id : Text
  pub owner_id : Text
  pub blob_id : Text
  pub file_name : Text
  pub content_type : Text
  pub size_bytes : ℤ
  pub access_level : AccessLevel
  pub status : Text
  pub deleted_at : Option Time
  pub created_at : Time
  pub updated_at : Time

-- The column status
abbrev pub file_status : FileRow → Text
file_status r = if r.is_active then text "ACTIVE" else text "DELETED"

-- TenantUsageView of ports
pub record TenantUsageView : Type 0 where
  pub tenant_id : Text
  pub storage_bytes : ℤ
  pub file_count : ℤ
  pub last_upload_at : Option Time
  pub updated_at : Time

-- scanTenantUsage
unfoldable pub usage_view : UsageRow → TenantUsageView
usage_view r = record {
  tenant_id = r.tenant_id;
  storage_bytes = r.used_storage_bytes;
  file_count = r.used_file_count;
  last_upload_at = r.last_upload_at;
  updated_at = utc r.updated_at;
}

-- scanAdminFile
unfoldable pub file_view : FileRow → AdminFileView
file_view r = record {
  file_id = r.file_id;
  tenant_id = r.tenant_id;
  owner_id = r.owner_id;
  blob_id = r.blob_object_id;
  file_name = r.original_filename;
  content_type = string_of r.content_type;
  size_bytes = r.file_size;
  access_level = r.access_level;
  status = file_status r;
  deleted_at = r.deleted_at;
  created_at = utc r.created_at;
  updated_at = utc r.updated_at;
}

-- DeleteFileRecord of ports
pub record DeleteFileRecord : Type 0 where
  pub file : AdminFileView
  pub physical_delete_scheduled : Bool
  pub already_deleted : Bool

-- AuditLogRecord of ports
pub record AuditLogRecord : Type 0 where
  pub audit_id : Text
  pub admin_subject : Text
  pub tenant_id : Text
  pub action : Text
  pub target_type : Text
  pub target_id : Text
  pub request_id : Text
  pub details : Details
  pub created_at : Time

-- The INSERT of AuditLogRepository.Append, with the details that were marshalled
unfoldable pub audit_row : Text → AuditLogRecord → AuditRow
unfolding null_string_trimmed
audit_row details r = record {
  audit_log_id = r.audit_id;
  admin_subject = r.admin_subject;
  action = r.action;
  target_type = r.target_type;
  target_id = null_string_trimmed r.target_id;
  tenant_id = null_string_trimmed r.tenant_id;
  request_id = null_string_trimmed r.request_id;
  details = details;
  created_at = utc r.created_at;
}

-- OutboxEvent of the admin service's ports, as Publish reads it
pub record AdminEvent : Type 0 where
  pub event_type : Text
  pub aggregate_id : Text
  pub occurred_at : Time
  pub payload : Details

-- The INSERT of OutboxPublisher.Publish
unfoldable pub event_row : Text → Text → Time → AdminEvent → OutboxRow
event_row event_id payload now e = record {
  event_id = event_id;
  aggregate_id = e.aggregate_id;
  event_type = e.event_type;
  payload = payload;
  status = pending;
  retry_count = pos 0;
  next_attempt_at = some now;
  published_at = none;
  created_at = now;
  updated_at = now;
}
