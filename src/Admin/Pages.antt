-- ===== src/Admin/Pages.antt =====
-- The lists of internal/services/admin/infra/postgres/repositories.go: the query of a page, its order,
-- and the cursor to the next one. `id_before` is the order of the database on identifiers, and base64
-- with JSON is given as `encode` and `decode`.
pub mod Keyed
pub mod Skipped
use zhi_file_service_go.Common.{
  ◌+◌, ◌==◌, ℕ, zero, suc, Bool, true, false, not, ◌&&◌, ◌||◌, Option, none, some, List, [], ◌∷◌,
  any, is_nil, take, if◌then◌else◌, ltb, Text, text_eq, trim, is_empty, is_blank, ℤ, Time, is_zero,
  utc,
}
use zhi_file_service_go.Xerrors.{Err, new, wrap, invalid_argument, internal_error, name}
use zhi_file_service_go.Result.{Result, ok, err, ◌>>=◌}
use zhi_file_service_go.Upload.Tables.{FileRow, TenantRow, AuditRow, Tables, keep_where}
use zhi_file_service_go.Job.Outbox.{positive_or}
use zhi_file_service_go.Admin.Tenant.{TenantStatus, tenant_status_text}

-- cursorValue
pub record CursorValue : Type 0 where
  pub created_at : Time
  pub id : Text

pub record PageEnv : Type 0 where
  pub id_before : Text → Text → Bool
  pub encode : CursorValue → Result Text
  pub decode : Text → Option CursorValue

abbrev pub invalid_cursor : Err
invalid_cursor =
    new invalid_argument "query parameter is invalid"
      (("field", name "cursor") ∷ ("reason", name "invalid_cursor") ∷ [])

-- item at the place, and the items from there on
abbrev pub drop {ℓ} : {A : Type ℓ} → ℕ → List A → List A
drop zero xs = xs
drop (suc n) [] = []
drop (suc n) (x ∷ xs) = drop n xs

abbrev pub wrapped_cursor : Result Text → Result Text
wrapped_cursor (ok s) = ok s
wrapped_cursor (err e) = err (wrap internal_error "marshal cursor" e [])

abbrev pub cursor_checked : Option CursorValue → Result CursorValue
cursor_checked none = err invalid_cursor
cursor_checked (some c) =
    if is_zero c.created_at || is_blank c.id
    then err invalid_cursor
    else ok (record { created_at = utc c.created_at; id = trim c.id })

module _ (env : PageEnv) where
  -- encodeCursor
  unfoldable pub encode_cursor : Time → Text → Result Text
  encode_cursor created_at id =
      wrapped_cursor (env.encode (record { created_at = utc created_at; id = trim id }))

  -- decodeCursor
  unfoldable pub decode_cursor : Text → Result CursorValue
  decode_cursor value = cursor_checked (env.decode (trim value))

  -- (created_at, id) < (c.created_at, c.id), as SQL compares rows
  unfoldable pub is_before : Time → Text → CursorValue → Bool
  is_before created_at id c =
      ltb created_at c.created_at || (created_at == c.created_at && env.id_before id c.id)

  module _ {A : Type 0} (created : A → Time) (key : A → Text) where
    abbrev pub cursor_of : A → CursorValue
    cursor_of x = record { created_at = created x; id = key x }

    unfoldable pub placed : A → List A → List A
    unfolding is_before
    placed x [] = x ∷ []
    placed x (y ∷ ys) =
        let later = placed x ys in
        if is_before (created x) (key x) (cursor_of y) then y ∷ later else x ∷ y ∷ ys

    -- ORDER BY created_at DESC, id DESC
    unfoldable pub newest_first : List A → List A
    unfolding placed
    newest_first [] = []
    newest_first (x ∷ xs) = placed x (newest_first xs)

    abbrev pub trimmed : ℕ → List A → List A → Result (List A × Text)
    trimmed limit items [] = ok (items, [])
    trimmed limit items (next ∷ rest) = do
      cursor ← encode_cursor (created next) (key next)
      ok (take limit items, cursor)

    -- trimTenantPage, trimAdminFilePage and trimAuditPage
    unfoldable pub trim_page : List A → ℕ → Result (List A × Text)
    unfolding encode_cursor
    trim_page items limit = trimmed limit items (drop limit items)

    abbrev pub after_cursor : Option CursorValue → A → Bool
    after_cursor none x = true
    after_cursor (some c) x = is_before (created x) (key x) c

    -- if query.Cursor != "" { decode it }
    unfoldable pub read_cursor : Text → Result (Option CursorValue)
    unfolding decode_cursor
    read_cursor cursor =
        if is_empty cursor then ok none else decode_cursor cursor >>= λ c. ok (some c)

    -- The rows that the query of a page returns.
    unfoldable pub page_rows : (A → Bool) → Option CursorValue → ℕ → List A → List A
    unfolding newest_first is_before
    page_rows matches cursor limit rows =
        take (limit + 1) (newest_first (keep_where (λ x. matches x && after_cursor cursor x) rows))

    -- List, on the rows of its table
    unfoldable pub list_page : (A → Bool) → Text → ℤ → List A → Result (List A × Text)
    unfolding page_rows trim_page read_cursor
    list_page matches cursor limit rows = do
      c ← read_cursor cursor
      let n = positive_or limit 50
      trim_page (page_rows matches c n rows) n

-- tenant_id = ANY(scopes), where there are any
abbrev pub in_scopes : List Text → Text → Bool
in_scopes scopes id = is_nil scopes || any (λ s. text_eq s id) scopes

-- The tenant that is asked for, or else the scopes
abbrev pub of_tenant : Text → List Text → Text → Bool
of_tenant tenant_id scopes id =
    if is_empty tenant_id then in_scopes scopes id else text_eq id tenant_id

abbrev pub given_or_any : Text → Text → Bool
given_or_any wanted value = is_empty wanted || text_eq value wanted

-- AdminFileRepository.List, by the text of the status
unfoldable pub list_file_rows :
    PageEnv
    → (FileRow → Text)
    → Text
    → List Text
    → Text
    → Text
    → ℤ
    → Tables
    → Result (List FileRow × Text)
unfolding list_page
list_file_rows env status_of tenant_id scopes status cursor limit t =
    list_page env (λ f. f.created_at) (λ f. f.file_id)
      (λ f. of_tenant tenant_id scopes f.tenant_id && given_or_any status (status_of f)) cursor
      limit t.files

abbrev of_status : Option TenantStatus → TenantRow → Bool
of_status none r = true
of_status (some s) r = text_eq (tenant_status_text r.status) (tenant_status_text s)

-- TenantRepository.List
unfoldable pub list_tenant_rows :
    PageEnv → List Text → Option TenantStatus → Text → ℤ → Tables → Result (List TenantRow × Text)
unfolding list_page
list_tenant_rows env scopes status cursor limit t =
    list_page env (λ r. r.created_at) (λ r. r.tenant_id)
      (λ r. in_scopes scopes r.tenant_id && of_status status r) cursor limit t.tenants

abbrev audited_tenant : Text → List Text → Option Text → Bool
audited_tenant tenant_id scopes none = is_empty tenant_id && is_nil scopes
audited_tenant tenant_id scopes (some id) = of_tenant tenant_id scopes id

-- AuditLogRepository.List; a NULL tenant equals none.
unfoldable pub list_audit_rows :
    PageEnv → Text → List Text → Text → Text → Text → ℤ → Tables → Result (List AuditRow × Text)
unfolding list_page
list_audit_rows env tenant_id scopes actor action cursor limit t =
    list_page env (λ r. r.created_at) (λ r. r.audit_log_id)
      (λ r.
        audited_tenant tenant_id scopes r.tenant_id
        && given_or_any actor r.admin_subject
        && given_or_any action r.action)
      cursor limit t.audit_logs
