-- ===== src/Admin/Guard/Granted.antt =====
-- What an administrator needs for a change to be let through.
use zhi_file_service_go.Common.{
  Option, some, ◌≡◌, ◌↔◌, ◌⊎◌, inl, inr, Bool-cases, false, Text, trim, is_blank, is_blank-trim,
  arith,
}
use zhi_file_service_go.Result.{accepted}
use zhi_file_service_go.Admin.Context.{AdminContext}
use zhi_file_service_go.Admin.Authorization.{
  Operation, patch_tenant, patch_tenant_policy, delete_file, require_destructive_reason,
}
use zhi_file_service_go.Admin.Authorization.Matrix.{
  OneMayDo, Covers, authorize_operation-accepted_iff, ensure_tenant_scope-accepted_iff,
}
use zhi_file_service_go.Admin.Tenant.{
  TenantPatch, TenantStatus, suspended, deleted, normalize_tenant_patch, has_destructive_change,
}
use zhi_file_service_go.Admin.TenantPolicy.Tightens.{Tightens, tightens_compared_to_iff}
use zhi_file_service_go.Admin.TenantPolicy.{
  TenantPolicy, TenantPolicyPatch, apply_to, tightens_compared_to,
}
use zhi_file_service_go.Admin.Guard.{
  ensure_tenant_patch, ensure_tenant_policy_patch, ensure_delete_file,
}

-- The administrator has the role and the scope for a change of the tenant.
abbrev pub Entitled : AdminContext → Text → Operation → Type 0
Entitled ctx tenant_id op =
    OneMayDo ctx.roles op × (is_blank tenant_id ≡ false) × Covers ctx tenant_id

-- The patch neither suspends nor deletes the tenant.
abbrev pub IsHarmless : Option TenantStatus → Type 0
IsHarmless (some suspended) = ⊥
IsHarmless (some deleted) = ⊥
IsHarmless _ = Unit

require_reason_iff :
    (reason : Text) → (require_destructive_reason reason ≡ accepted) ↔ (is_blank reason ≡ false)
unfolding require_destructive_reason
require_reason_iff reason = ground arith

-- A file may be deleted exactly by those entitled to it who give a reason that is not blank.
pub ensure_delete_file-accepted_iff :
    (ctx : AdminContext) (tenant_id reason : Text)
    → (ensure_delete_file ctx tenant_id reason ≡ accepted)
      ↔ (Entitled ctx tenant_id delete_file × (is_blank reason ≡ false))
unfolding ensure_delete_file
ensure_delete_file-accepted_iff ctx tenant_id reason = ground (
  arith,
  authorize_operation-accepted_iff ctx delete_file,
  ensure_tenant_scope-accepted_iff ctx tenant_id,
  require_reason_iff reason,
)

-- A tenant may be patched exactly by those entitled to it who, where the patch suspends or deletes the
-- tenant, give a reason that is not blank.
pub ensure_tenant_patch-accepted_iff :
    (ctx : AdminContext) (tenant_id : Text) (patch : TenantPatch)
    → (ensure_tenant_patch ctx tenant_id patch ≡ accepted) ↔ (
        Entitled ctx tenant_id patch_tenant
        × (IsHarmless patch.status ⊎ (is_blank patch.reason ≡ false)))
unfolding ensure_tenant_patch has_destructive_change normalize_tenant_patch
ensure_tenant_patch-accepted_iff ctx tenant_id patch = ground (
  arith,
  authorize_operation-accepted_iff ctx patch_tenant,
  ensure_tenant_scope-accepted_iff ctx tenant_id,
  require_reason_iff (trim patch.reason),
  is_blank-trim patch.reason,
)

-- The policy of a tenant may be patched exactly by those entitled to it who, where the patch tightens
-- the current policy, give a reason that is not blank. It tightens it by a limit where there was none
-- or by a lower one, by a list of allowed values that is not empty where all were allowed or that is
-- shorter and has no new value, and by turning off the creation on demand; a shorter list that has a
-- new value does not count, nor does an empty one.
pub ensure_tenant_policy_patch-accepted_iff :
    (ctx : AdminContext) (tenant_id : Text) (current : TenantPolicy) (patch : TenantPolicyPatch)
    → (ensure_tenant_policy_patch ctx tenant_id current patch ≡ accepted) ↔ (
        Entitled ctx tenant_id patch_tenant_policy
        × ((¬ Tightens patch current) ⊎ (is_blank patch.reason ≡ false)))
unfolding ensure_tenant_policy_patch
ensure_tenant_policy_patch-accepted_iff ctx tenant_id current patch =
    elim (Bool-cases (tightens_compared_to (apply_to patch current) current)) [
      | inl e ↦
          let tight = (tightens_compared_to_iff patch current).0 e in
          ground (
            arith,
            e,
            tight,
            authorize_operation-accepted_iff ctx patch_tenant_policy,
            ensure_tenant_scope-accepted_iff ctx tenant_id,
            require_reason_iff patch.reason,
          )
      | inr e ↦
          let loose : ¬ Tightens patch current =
            λ t. ground (arith, e, (tightens_compared_to_iff patch current).1 t) in
          ground (
            arith,
            e,
            loose,
            authorize_operation-accepted_iff ctx patch_tenant_policy,
            ensure_tenant_scope-accepted_iff ctx tenant_id,
            require_reason_iff patch.reason,
          )
    ]
