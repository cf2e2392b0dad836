-- ===== src/Admin/Authorization/Matrix.antt =====
-- The role matrix of docs/api/admin-auth-spec.md, and the scope of tenants.
use zhi_file_service_go.Common.{
  ◌≡◌, ◌↔◌, ◌⊎◌, Bool, true, false, Option, none, some, List, [], ◌∷◌, any, Text, trim, trim_idem,
  is_blank, ℤ, pos, arith,
}
use zhi_file_service_go.Result.{accepted}
use zhi_file_service_go.Admin.Context.{
  Role, readonly, governance, super, role_rank, reaches, AdminContext, global_tenant_scope,
  contains, can_access_tenant, has_minimum_role,
}
use zhi_file_service_go.Admin.Authorization.{
  Operation, create_tenant, patch_tenant, patch_tenant_policy, delete_file, authorize_operation,
  ensure_tenant_scope,
}

-- What a role may do: reading is for all three roles, changing tenants, policies and files for two,
-- and only a super administrator creates tenants.
abbrev pub MayDo : Role → Operation → Type 0
MayDo _ (Operation.other s) = ⊥
MayDo (Role.other r) _ = ⊥
MayDo super _ = Unit
MayDo governance create_tenant = ⊥
MayDo governance _ = Unit
MayDo readonly create_tenant = ⊥
MayDo readonly patch_tenant = ⊥
MayDo readonly patch_tenant_policy = ⊥
MayDo readonly delete_file = ⊥
MayDo readonly _ = Unit

-- One of the roles may do it.
abbrev pub OneMayDo : List Role → Operation → Type 0
OneMayDo [] op = ⊥
OneMayDo (r ∷ rs) op = MayDo r op ⊎ OneMayDo rs op

-- The rank that the rule of an operation asks for.
abbrev rank_needed : Operation → Option ℤ
rank_needed (Operation.other s) = none
rank_needed create_tenant = some (pos 3)
rank_needed patch_tenant = some (pos 2)
rank_needed patch_tenant_policy = some (pos 2)
rank_needed delete_file = some (pos 2)
rank_needed _ = some (pos 1)

abbrev has_rank : Option ℤ → List Role → Bool
has_rank none roles = false
has_rank (some n) roles = any (λ role. reaches n (role_rank role)) roles

authorize_iff_rank :
    (ctx : AdminContext) (op : Operation)
    → (authorize_operation ctx op ≡ accepted) ↔ (has_rank (rank_needed op) ctx.roles ≡ true)
unfolding authorize_operation has_minimum_role
authorize_iff_rank ctx create_tenant = ground arith
authorize_iff_rank ctx op = ground arith

one_may_iff_rank :
    (roles : List Role) (op : Operation)
    → (has_rank (rank_needed op) roles ≡ true) ↔ OneMayDo roles op
unfolding role_rank
one_may_iff_rank [] create_tenant = ground arith
one_may_iff_rank [] op = ground arith
one_may_iff_rank (r ∷ rs) create_tenant = ground (arith, one_may_iff_rank rs create_tenant)
one_may_iff_rank (r ∷ rs) op = ground (arith, one_may_iff_rank rs op)

-- AuthorizeOperation lets an administrator through exactly when one of the roles may do the operation
-- by the role matrix.
pub authorize_operation-accepted_iff :
    (ctx : AdminContext) (op : Operation)
    → (authorize_operation ctx op ≡ accepted) ↔ OneMayDo ctx.roles op
authorize_operation-accepted_iff ctx op = (
  λ h. (one_may_iff_rank ctx.roles op).0 ((authorize_iff_rank ctx op).0 h),
  λ h. (authorize_iff_rank ctx op).1 ((one_may_iff_rank ctx.roles op).1 h),
)

-- The administrator's scopes cover the tenant.
abbrev pub Covers : AdminContext → Text → Type 0
Covers ctx tenant_id =
    (contains ctx.tenant_scopes global_tenant_scope ≡ true)
    ⊎ (contains ctx.tenant_scopes (trim tenant_id) ≡ true)

-- EnsureTenantScope lets an administrator through exactly when the tenant id is not blank and the
-- scopes hold the global scope or the tenant id, spaces trimmed.
pub ensure_tenant_scope-accepted_iff :
    (ctx : AdminContext) (tenant_id : Text)
    → (ensure_tenant_scope ctx tenant_id ≡ accepted)
      ↔ ((is_blank tenant_id ≡ false) × Covers ctx tenant_id)
unfolding ensure_tenant_scope can_access_tenant
ensure_tenant_scope-accepted_iff ctx tenant_id = ground (arith, trim_idem tenant_id)
