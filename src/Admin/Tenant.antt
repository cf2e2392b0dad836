-- ===== src/Admin/Tenant.antt =====
-- internal/services/admin/domain/tenant.go: the status of a tenant, and patches of a tenant.
use zhi_file_service_go.Common.{
  Bool, true, false, ◌&&◌, not, Option, none, some, [], ◌∷◌, is_some, Text, text, trim, Time,
}
use zhi_file_service_go.Xerrors.{new, tenant_status_invalid, str}
use zhi_file_service_go.Result.{err, Check, accepted}

-- A string type: the constants, and any other string.
pub data TenantStatus : Type 0 where
  active suspended deleted : TenantStatus
  other : Text → TenantStatus

abbrev pub tenant_status_text : TenantStatus → Text
tenant_status_text active = text "ACTIVE"
tenant_status_text suspended = text "SUSPENDED"
tenant_status_text deleted = text "DELETED"
tenant_status_text (other s) = s

pub record Tenant : Type 0 where
  pub tenant_id : Text
  pub tenant_name : Text
  pub status : TenantStatus
  pub contact_email : Text
  pub description : Text
  pub created_at : Time
  pub updated_at : Time

pub record TenantPatch : Type 0 where
  pub tenant_name : Option Text
  pub status : Option TenantStatus
  pub contact_email : Option Text
  pub description : Option Text
  pub reason : Text

-- TenantStatus.IsDestructive
unfoldable pub is_destructive : TenantStatus → Bool
is_destructive suspended = true
is_destructive deleted = true
is_destructive _ = false

-- TenantStatus.Validate
unfoldable pub validate_tenant_status : TenantStatus → Check
validate_tenant_status (other s) =
    err (new tenant_status_invalid "tenant status invalid" (("status", str s) ∷ []))
validate_tenant_status _ = accepted

destroys : Option TenantStatus → Bool
unfolding is_destructive
destroys none = false
destroys (some s) = is_destructive s

-- TenantPatch.HasDestructiveChange
unfoldable pub has_destructive_change : TenantPatch → Bool
unfolding destroys
has_destructive_change p = destroys p.status

-- normalizeStringPtr
unfoldable pub normalize_string_ptr : Option Text → Option Text
normalize_string_ptr none = none
normalize_string_ptr (some s) = some (trim s)

-- TenantPatch.Normalize
unfoldable pub normalize_tenant_patch : TenantPatch → TenantPatch
unfolding normalize_string_ptr
normalize_tenant_patch p = record {
  tenant_name = normalize_string_ptr p.tenant_name;
  status = p.status;
  contact_email = normalize_string_ptr p.contact_email;
  description = normalize_string_ptr p.description;
  reason = trim p.reason;
}

-- TenantPatch.IsEmpty
unfoldable pub is_empty_patch : TenantPatch → Bool
is_empty_patch p =
    not (is_some p.tenant_name)
    && not (is_some p.status)
    && not (is_some p.contact_email)
    && not (is_some p.description)
