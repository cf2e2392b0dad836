-- ===== src/Admin/Queries/Scoped.antt =====
-- What an administrator is shown lies within the administrator's scope.
use zhi_file_service_go.Common.{
  ◌≡◌, refl, ap, sym, ◌∙◌, inl, inr, Bool, true, false, Bool-cases, not, ◌&&◌, ◌||◌, Option, none,
  some, List, [], ◌∷◌, All, map, is_nil, Text, text_eq_iff, trim, trim_idem, is_empty, ℤ, String,
  arith,
}
use mathlib.Core.Path.{subst}
use zhi_file_service_go.Result.{Result, ok, accepted, Result-cases}
use zhi_file_service_go.Upload.Tables.{FileRow, Tables}
use zhi_file_service_go.Upload.World.{World, settled}
use zhi_file_service_go.Upload.World.Laws.{Returns, steps, lifted, returned}
use zhi_file_service_go.Admin.Context.{
  AdminContextInput, AdminContext, contains, is_global_scope, can_access_tenant,
  normalize_string_set, string_set_of, collect_strings, normalize_roles, new_admin_context,
}
use zhi_file_service_go.Admin.Authorization.{ensure_tenant_scope}
use zhi_file_service_go.Admin.Pages.{PageEnv, of_tenant, given_or_any, list_file_rows}
use zhi_file_service_go.Admin.Pages.Skipped.{list_page-matches}
use zhi_file_service_go.Admin.Repositories.{AdminEnv, checked_statement, admin_query}
use zhi_file_service_go.Admin.Repositories.Statements.{file_view, file_status}
use zhi_file_service_go.Job.Maintenance.Batches.{All-map}
use zhi_file_service_go.Admin.Queries.{
  AdminFile, ListFilesQuery, normalize_query_value, scoped_tenants, scope_of_query,
  normalize_page_limit, listed, handle_list_files,
}

-- The administrator's scopes are global or name the tenant.
abbrev pub IsInScope : AdminContext → Text → Type 0
IsInScope ctx tenant_id = (is_global_scope ctx || contains ctx.tenant_scopes tenant_id) ≡ true

string_set_nonempty : (found : Option (List Text)) → is_nil (string_set_of true found) ≡ false
unfolding string_set_of
string_set_nonempty none = refl
string_set_nonempty (some []) = refl
string_set_nonempty (some (x ∷ xs)) = refl

normalized_nonempty : (values : List Text) → is_nil (normalize_string_set values true) ≡ false
unfolding normalize_string_set
normalized_nonempty values = string_set_nonempty (collect_strings [] values)

-- NewAdminContext leaves no administrator without a scope.
new_admin_context-scoped :
    (input : AdminContextInput) (ctx : AdminContext)
    → new_admin_context input ≡ ok ctx
    → is_nil ctx.tenant_scopes ≡ false
unfolding new_admin_context
new_admin_context-scoped input ctx h = elim (Bool-cases (is_empty (trim input.admin_id))) [
  | inl e ↦ absurd (ground (arith, e, h))
  | inr e ↦ elim (Result-cases (normalize_roles input.roles)) [
    | inr (x, k) ↦ absurd (ground (arith, e, k, h))
    | inl (roles, k) ↦
        let scopes : normalize_string_set input.tenant_scopes true ≡ ctx.tenant_scopes =
          ground (arith, e, k, h) in
        ap is_nil (sym scopes) ∙ normalized_nonempty input.tenant_scopes
  ]
]

query_value_trimmed :
    (value : Text) (field : String) (id : Text)
    → normalize_query_value value field ≡ ok id
    → trim id ≡ id
unfolding normalize_query_value
query_value_trimmed value field id h =
    elim (Bool-cases (not (is_empty value) && is_empty (trim value))) [
      | inl e ↦ absurd (ground (arith, e, h))
      | inr e ↦
          let same : trim value ≡ id = ground (arith, e, h) in
          ap trim (sym same) ∙ trim_idem value ∙ same
    ]

-- The rows that the query keeps are in scope.
kept-IsInScope :
    (ctx : AdminContext) (tenant_id : Text) (row_tenant : Text)
    → is_nil ctx.tenant_scopes ≡ false
    → trim tenant_id ≡ tenant_id
    → scope_of_query ctx tenant_id ≡ accepted
    → of_tenant tenant_id (scoped_tenants ctx) row_tenant ≡ true
    → IsInScope ctx row_tenant
unfolding scope_of_query ensure_tenant_scope can_access_tenant scoped_tenants
kept-IsInScope ctx tenant_id row_tenant s t c h = elim (Bool-cases (is_global_scope ctx)) [
  | inl g ↦ rw g refl
  | inr g ↦ elim (Bool-cases (is_empty tenant_id)) [
    | inl e ↦ ground (arith, g, e, s, h)
    | inr e ↦
        let same : row_tenant ≡ tenant_id =
          (text_eq_iff row_tenant tenant_id).0 (ground (arith, e, h)) in
        subst (IsInScope ctx) (sym same) (ground (arith, g, e, c, t))
  ]
]

query_read :
    {A : Type 0} (env : AdminEnv) (message : String) (list : Tables → A) (w : World) (r : A)
    (v : World)
    → Returns (admin_query env message list) w r v
    → r ≡ list (settled env.base w).tables
unfolding checked_statement
query_read env message list w r v h = ground arith

listed_page :
    (env : AdminEnv) (pages : PageEnv) {A : Type 0} (message : String) (cursor : Text)
    (list : Tables → Result (List A × Text)) (w : World) (page : List A × Text) (v : World)
    → Returns (listed env pages message cursor list) w page v
    → (t : Tables) × (list t ≡ ok page)
unfolding listed
listed_page env pages message cursor list w page v h =
    let s1 = steps _ _ w page v h in
    let s2 = steps _ _ s1.between page v s1.rest in
    let read = query_read env message list s1.between s2.value s2.between s2.first in
    ((settled env.base s1.between).tables, sym read ∙ (lifted _ s2.between page v s2.rest).0)

All-map_to :
    {A B : Type 0} (P : A → Type 0) (Q : B → Type 0) (f : A → B) (xs : List A)
    → ((x : A) → P x → Q (f x))
    → All P xs
    → All Q (map f xs)
All-map_to P Q f [] k h = tt
All-map_to P Q f (x ∷ xs) k h = (k x h.0, All-map_to P Q f xs k h.1)

listed_rows :
    (pages : PageEnv) (ctx : AdminContext) (tenant_id status cursor : Text) (limit : ℤ) (t : Tables)
    (items : List FileRow) (next : Text)
    → is_nil ctx.tenant_scopes ≡ false
    → trim tenant_id ≡ tenant_id
    → scope_of_query ctx tenant_id ≡ accepted
    → list_file_rows pages file_status tenant_id (scoped_tenants ctx) status cursor limit t
      ≡ ok (items, next)
    → All (λ r. IsInScope ctx r.tenant_id) items
unfolding list_file_rows
listed_rows pages ctx tenant_id status cursor limit t items next s n c h =
    All-map _ _ items (λ r k. kept-IsInScope ctx tenant_id r.tenant_id s n c (first_of _ _ k))
      (list_page-matches pages (λ (f : FileRow). f.created_at) (λ f. f.file_id)
        (λ f.
          of_tenant tenant_id (scoped_tenants ctx) f.tenant_id
          && given_or_any status (file_status f))
        cursor limit t.files items next h)
  where
    first_of : (b d : Bool) → (b && d) ≡ true → b ≡ true
    first_of b d k = ground arith

-- Every file that ListFilesHandler.Handle lists for an administrator as NewAdminContext made it is of
-- a tenant in the administrator's scopes, or the scopes are global, whatever the query asks for and
-- whatever its cursor is, and also where it names no tenant.
pub listed_files-IsInScope :
    (env : AdminEnv) (pages : PageEnv) (limits : ℤ × ℤ) (input : AdminContextInput)
    (q : ListFilesQuery) (w : World) (items : List AdminFile) (next : Text) (v : World)
    → new_admin_context input ≡ ok q.auth
    → Returns (handle_list_files env pages limits q) w (items, next) v
    → All (λ f. IsInScope q.auth f.tenant_id) items
unfolding handle_list_files file_view
listed_files-IsInScope env pages limits input q w items next v made h =
    let s1 = steps _ _ w (items, next) v h in
    let s2 = steps _ _ s1.between (items, next) v s1.rest in
    let s3 = steps _ _ s2.between (items, next) v s2.rest in
    let s4 = steps _ _ s3.between (items, next) v s3.rest in
    let s5 = steps _ _ s4.between (items, next) v s4.rest in
    let s6 = steps _ _ s5.between (items, next) v s5.rest in
    let tenant = (lifted _ s1.between s2.value s2.between s2.first).0 in
    let checked = (lifted _ s4.between s5.value s5.between s5.first).0 in
    let (t, page) =
      listed_page env pages _ s4.value
        (list_file_rows pages file_status s2.value (scoped_tenants q.auth) s3.value s4.value
          (normalize_page_limit q.limit limits))
        s5.between s6.value s6.between s6.first in
    let shown = (returned _ s6.between (items, next) v s6.rest).0 in
    let rows =
      listed_rows pages q.auth s2.value s3.value s4.value (normalize_page_limit q.limit limits) t
        s6.value.0 s6.value.1 (new_admin_context-scoped input q.auth made)
        (query_value_trimmed q.tenant_id "tenantId" s2.value tenant) checked page in
    subst (All (λ f. IsInScope q.auth f.tenant_id)) (ap (λ (p : List AdminFile × Text). p.0) shown)
      (All-map_to (λ r. IsInScope q.auth r.tenant_id) _ _ s6.value.0 (λ r k. k) rows)
