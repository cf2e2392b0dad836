-- ===== src/Admin/Context.antt =====
-- internal/services/admin/domain/admin_context.go: who an administrator is. The map `seen` of a loop
-- is the list of its keys.
pub mod Normal
use zhi_file_service_go.Common.{
  ℕ, Bool, true, false, not, ◌&&◌, ◌||◌, Option, none, some, List, [], ◌∷◌, any, is_nil, is_some,
  is_empty, if◌then◌else◌, Text, text, text_eq, trim, ℤ, pos, ltb_ℤ, leb_ℤ,
}
use mathlib.Core.Option
use zhi_file_service_go.Common.Sorting.{sort}
use zhi_file_service_go.Xerrors.{Err, new, invalid_argument, str, name}
use zhi_file_service_go.Result.{Result, ok, err, ◌>>=◌}

abbrev pub global_tenant_scope : Text
global_tenant_scope = text "*"

-- A string type: the constants, and any other string.
pub data Role : Type 0 where
  readonly governance super : Role
  other : Text → Role

abbrev pub role_text : Role → Text
role_text readonly = text "admin.readonly"
role_text governance = text "admin.governance"
role_text super = text "admin.super"
role_text (other s) = s

-- Role(s)
unfoldable pub role_of_text : Text → Role
role_of_text s =
    if text_eq s (text "admin.readonly")
    then readonly
    else if text_eq s (text "admin.governance")
    then governance
    else if text_eq s (text "admin.super")
    then super
    else other s

-- roleRank; the `false` of its second result is `none`.
unfoldable pub role_rank : Role → Option ℤ
role_rank readonly = some (pos 1)
role_rank governance = some (pos 2)
role_rank super = some (pos 3)
role_rank (other s) = none

pub record AdminContextInput : Type 0 where
  pub request_id : Text
  pub admin_id : Text
  pub roles : List Text
  pub tenant_scopes : List Text
  pub permissions : List Text
  pub token_id : Text

pub record AdminContext : Type 0 where
  pub request_id : Text
  pub admin_id : Text
  pub roles : List Role
  pub tenant_scopes : List Text
  pub permissions : List Text
  pub token_id : Text

-- slices.Contains
abbrev pub contains : List Text → Text → Bool
contains values value = any (λ v. text_eq v value) values

-- AdminContext.IsGlobalScope
unfoldable pub is_global_scope : AdminContext → Bool
is_global_scope c = contains c.tenant_scopes global_tenant_scope

-- AdminContext.CanAccessTenant
unfoldable pub can_access_tenant : AdminContext → Text → Bool
unfolding is_global_scope
can_access_tenant c tenant_id =
    if is_global_scope c then true else contains c.tenant_scopes (trim tenant_id)

-- rank, ok := roleRank(role); ok && rank >= requiredRank
abbrev pub reaches : ℤ → Option ℤ → Bool
reaches required none = false
reaches required (some rank) = leb_ℤ required rank

any_reaches : Option ℤ → List Role → Bool
unfolding role_rank
any_reaches none roles = false
any_reaches (some required) roles = any (λ role. reaches required (role_rank role)) roles

-- AdminContext.HasMinimumRole
unfoldable pub has_minimum_role : AdminContext → Role → Bool
unfolding any_reaches
has_minimum_role c required = any_reaches (role_rank required) c.roles

abbrev pub same_role : Role → Role → Bool
same_role a b = text_eq (role_text a) (role_text b)

-- The loop of normalizeRoles; the roles it appends come before those of the rest.
unfoldable pub collect_roles : List Role → List Text → Result (List Role)
collect_roles seen [] = ok []
collect_roles seen (value ∷ values) =
    let role = role_of_text (trim value) in
    let skip = collect_roles seen values in
    let take = collect_roles (role ∷ seen) values >>= λ roles. ok (role ∷ roles) in
    if is_empty (role_text role)
    then skip
    else if not (is_some (role_rank role))
    then err (
        new invalid_argument "admin role is invalid"
          (("field", name "roles") ∷ ("role", str (role_text role)) ∷ []))
    else if any (same_role role) seen
    then skip
    else take

-- The key of the sort: roles of one rank are the same role, so the name never decides.
abbrev pub rank_key : Role → ℤ
rank_key readonly = pos 1
rank_key governance = pos 2
rank_key super = pos 3
rank_key (other s) = pos 0

sort_roles : List Role → Result (List Role)
sort_roles [] =
    err (new invalid_argument "at least one admin role is required" (("field", name "roles") ∷ []))
sort_roles (r ∷ rs) = ok (sort rank_key (r ∷ rs))

-- normalizeRoles
unfoldable pub normalize_roles : List Text → Result (List Role)
unfolding collect_roles role_of_text role_rank sort_roles
normalize_roles values = do roles ← collect_roles [] values; sort_roles roles

-- The loop of normalizeStringSet: `none` where it returns the global scope at once.
unfoldable pub collect_strings : List Text → List Text → Option (List Text)
collect_strings seen [] = some []
collect_strings seen (value ∷ values) =
    let normalized = trim value in
    let skip = collect_strings seen values in
    let take =
      Option.map (λ rest. normalized ∷ rest) (collect_strings (normalized ∷ seen) values) in
    if is_empty normalized
    then skip
    else if text_eq normalized global_tenant_scope
    then none
    else if contains seen normalized
    then skip
    else take

unfoldable pub string_set_of : Bool → Option (List Text) → List Text
string_set_of default_global none = global_tenant_scope ∷ []
string_set_of default_global (some result) =
    if default_global && is_nil result then global_tenant_scope ∷ [] else result

-- normalizeStringSet
unfoldable pub normalize_string_set : List Text → Bool → List Text
unfolding collect_strings string_set_of
normalize_string_set values default_global =
    string_set_of default_global (collect_strings [] values)

-- NewAdminContext
unfoldable pub new_admin_context : AdminContextInput → Result AdminContext
unfolding normalize_roles normalize_string_set
new_admin_context input =
    if is_empty (trim input.admin_id)
    then err (new invalid_argument "admin id is required" (("field", name "sub") ∷ []))
    else (do
      roles ← normalize_roles input.roles
      ok (record {
        request_id = trim input.request_id;
        admin_id = trim input.admin_id;
        roles = roles;
        tenant_scopes = normalize_string_set input.tenant_scopes true;
        permissions = normalize_string_set input.permissions false;
        token_id = trim input.token_id;
      }))
