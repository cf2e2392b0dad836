-- ===== src/Admin/TenantPolicy.antt =====
-- internal/services/admin/domain/tenant_policy.go: the limits of a tenant, patches of them, and when
-- a change tightens them. A slice that may be nil is an Option.
pub mod Tightening
pub mod Tightens
use zhi_file_service_go.Common.{
  Bool, true, false, not, ◌&&◌, ◌||◌, String, Option, none, some, List, [], ◌∷◌, any, is_nil,
  is_some, is_empty, length, ltb, if◌then◌else◌, Text, text, text_eq, trim, to_upper, to_lower, ℤ,
  pos, ltb_ℤ,
}
use mathlib.Core.Option
use zhi_file_service_go.Xerrors.{Err, new, tenant_policy_invalid, name}
use zhi_file_service_go.Result.{◌>>=◌, ◌>>◌, refuse, err, Check, accepted}
use zhi_file_service_go.Admin.Context.{contains}

pub record TenantPolicy : Type 0 where
  pub max_storage_bytes : Option ℤ
  pub max_file_count : Option ℤ
  pub max_single_file_size : Option ℤ
  pub allowed_mime_types : Option (List Text)
  pub allowed_extensions : Option (List Text)
  pub default_access_level : Option Text
  pub auto_create_enabled : Option Bool

pub record TenantPolicyPatch : Type 0 where
  pub max_storage_bytes : Option ℤ
  pub max_file_count : Option ℤ
  pub max_single_file_size : Option ℤ
  pub allowed_mime_types : Option (List Text)
  pub allowed_extensions : Option (List Text)
  pub default_access_level : Option Text
  pub auto_create_enabled : Option Bool
  pub reason : Text

-- normalizeAccessLevelPtr
unfoldable pub normalize_access_level_ptr : Option Text → Option Text
normalize_access_level_ptr none = none
normalize_access_level_ptr (some s) = some (to_upper (trim s))

abbrev normalized : Bool → Text → Text
normalized lower value = if lower then to_lower (trim value) else trim value

-- The loop of normalizeStringSlice.
unfoldable pub collect_slice : Bool → List Text → List Text → List Text
collect_slice lower seen [] = []
collect_slice lower seen (value ∷ values) =
    let n = normalized lower value in
    let skip = collect_slice lower seen values in
    let take = n ∷ collect_slice lower (n ∷ seen) values in
    if is_empty n then skip else if contains seen n then skip else take

-- normalizeStringSlice
unfoldable pub normalize_string_slice : Option (List Text) → Bool → Option (List Text)
unfolding collect_slice
normalize_string_slice none lower = none
normalize_string_slice (some values) lower = some (collect_slice lower [] values)

-- TenantPolicy.Normalize
unfoldable pub normalize_policy : TenantPolicy → TenantPolicy
unfolding normalize_string_slice normalize_access_level_ptr
normalize_policy p = record {
  max_storage_bytes = p.max_storage_bytes;
  max_file_count = p.max_file_count;
  max_single_file_size = p.max_single_file_size;
  allowed_mime_types = normalize_string_slice p.allowed_mime_types false;
  allowed_extensions = normalize_string_slice p.allowed_extensions true;
  default_access_level = normalize_access_level_ptr p.default_access_level;
  auto_create_enabled = p.auto_create_enabled;
}

-- ErrTenantPolicyInvalid of domain/errors.go
abbrev pub policy_invalid : String → String → Err
policy_invalid field reason =
    new tenant_policy_invalid "tenant policy invalid"
      (("field", name field) ∷ ("reason", name reason) ∷ [])

-- validatePositiveInt64Ptr
unfoldable pub validate_positive_ptr : String → Option ℤ → Check
validate_positive_ptr field none = accepted
validate_positive_ptr field (some value) =
    refuse (not (ltb_ℤ (pos 0) value)) (policy_invalid field "must be greater than zero")

-- validateAccessLevelPtr
unfoldable pub validate_access_level_ptr : Option Text → Check
validate_access_level_ptr none = accepted
validate_access_level_ptr (some value) =
    refuse (not (text_eq value (text "PRIVATE") || text_eq value (text "PUBLIC")))
      (policy_invalid "defaultAccessLevel" "must be PUBLIC or PRIVATE")

-- TenantPolicy.Validate
unfoldable pub validate_policy : TenantPolicy → Check
unfolding validate_positive_ptr validate_access_level_ptr
validate_policy p = do
  validate_positive_ptr "maxStorageBytes" p.max_storage_bytes
  validate_positive_ptr "maxFileCount" p.max_file_count
  validate_positive_ptr "maxSingleFileSize" p.max_single_file_size
  validate_access_level_ptr p.default_access_level
  accepted

-- TenantPolicyPatch.Normalize
unfoldable pub normalize_policy_patch : TenantPolicyPatch → TenantPolicyPatch
unfolding normalize_string_slice normalize_access_level_ptr
normalize_policy_patch p = record {
  max_storage_bytes = p.max_storage_bytes;
  max_file_count = p.max_file_count;
  max_single_file_size = p.max_single_file_size;
  allowed_mime_types = normalize_string_slice p.allowed_mime_types false;
  allowed_extensions = normalize_string_slice p.allowed_extensions true;
  default_access_level = normalize_access_level_ptr p.default_access_level;
  auto_create_enabled = p.auto_create_enabled;
  reason = trim p.reason;
}

-- TenantPolicyPatch.IsEmpty
unfoldable pub is_empty_policy_patch : TenantPolicyPatch → Bool
is_empty_policy_patch p =
    not (is_some p.max_storage_bytes)
    && not (is_some p.max_file_count)
    && not (is_some p.max_single_file_size)
    && not (is_some p.allowed_mime_types)
    && not (is_some p.allowed_extensions)
    && not (is_some p.default_access_level)
    && not (is_some p.auto_create_enabled)

-- if p.F != nil { next.F = p.F }
abbrev pub patched {ℓ} : {A : Type ℓ} → Option A → Option A → Option A
patched none current = current
patched (some value) current = some value

-- TenantPolicyPatch.ApplyTo
unfoldable pub apply_to : TenantPolicyPatch → TenantPolicy → TenantPolicy
apply_to p current = record {
  max_storage_bytes = patched p.max_storage_bytes current.max_storage_bytes;
  max_file_count = patched p.max_file_count current.max_file_count;
  max_single_file_size = patched p.max_single_file_size current.max_single_file_size;
  allowed_mime_types = patched p.allowed_mime_types current.allowed_mime_types;
  allowed_extensions = patched p.allowed_extensions current.allowed_extensions;
  default_access_level = patched p.default_access_level current.default_access_level;
  auto_create_enabled = patched p.auto_create_enabled current.auto_create_enabled;
}

abbrev pub no_policy : TenantPolicy
no_policy = record {
  max_storage_bytes = none;
  max_file_count = none;
  max_single_file_size = none;
  allowed_mime_types = none;
  allowed_extensions = none;
  default_access_level = none;
  auto_create_enabled = none;
}

-- TenantPolicyPatch.Validate
unfoldable pub validate_policy_patch : TenantPolicyPatch → Check
unfolding apply_to validate_policy
validate_policy_patch p = validate_policy (apply_to p no_policy)

-- int64LimitTightens
unfoldable pub limit_tightens : Option ℤ → Option ℤ → Bool
limit_tightens none none = false
limit_tightens none (some next) = true
limit_tightens (some current) none = false
limit_tightens (some current) (some next) = ltb_ℤ next current

-- The values of a slice that may be nil.
abbrev pub items : Option (List Text) → List Text
items none = []
items (some values) = values

all_in : List Text → List Text → Bool
all_in current [] = true
all_in current (value ∷ values) = contains current value && all_in current values

-- stringSetTightens
unfoldable pub string_set_tightens : List Text → List Text → Bool
unfolding all_in
string_set_tightens current next =
    if is_nil next
    then false
    else if is_nil current
    then true
    else if not (all_in current next)
    then false
    else ltb (length next) (length current)

-- boolTightens
unfoldable pub bool_tightens : Option Bool → Option Bool → Bool
bool_tightens (some current) (some next) = current && not next
bool_tightens _ _ = false

-- TenantPolicy.TightensComparedTo
unfoldable pub tightens_compared_to : TenantPolicy → TenantPolicy → Bool
unfolding limit_tightens string_set_tightens bool_tightens
tightens_compared_to p current =
    limit_tightens current.max_storage_bytes p.max_storage_bytes
    || limit_tightens current.max_file_count p.max_file_count
    || limit_tightens current.max_single_file_size p.max_single_file_size
    || string_set_tightens (items current.allowed_mime_types) (items p.allowed_mime_types)
    || string_set_tightens (items current.allowed_extensions) (items p.allowed_extensions)
    || bool_tightens current.auto_create_enabled p.auto_create_enabled
