-- ===== src/Admin/Repositories.antt =====
-- internal/services/admin/infra/postgres/repositories.go, on the tables of Upload/Tables: what the
-- statements of each repository do. Their environment is that of Upload/World.
pub mod Statements
use zhi_file_service_go.Common.{
  Bool, true, false, Option, none, some, [], ◌∷◌, is_some, if◌then◌else◌, any, String, Text, Time,
  is_zero, utc,
}
use zhi_file_service_go.Xerrors.{Err, wrap, conflict, service_unavailable, internal_error, Details}
use zhi_file_service_go.Result.{Result, ok, err}
use zhi_file_service_go.Upload.Tables.{FileRow, Tables, find_row, update_where}
use zhi_file_service_go.Upload.World.{
  World, Env, Action, ◌>>=◌, ◌>>◌, pure, lift, settled, generate, clock,
}
use zhi_file_service_go.Admin.Tenant.{Tenant, TenantPatch}
use zhi_file_service_go.Admin.TenantPolicy.{TenantPolicyPatch}
use zhi_file_service_go.Admin.Repositories.Statements.{
  TenantPolicyView, TenantUsageView, usage_view, tenant_row, tenant_of, policy_view,
  patch_tenant_row, patch_policy_row, is_tenant, is_policy, is_file, is_usage, default_policy,
  initial_usage, delete_file_rows, release_blob, release_usage, AdminFileView, file_view,
  DeleteFileRecord, AuditLogRecord, audit_row, AdminEvent, event_row,
}

-- What the admin service meets beside the environment of Upload/World: whether an error is the
-- database's unique_violation, the one that an INSERT of a key that is there gives, and encoding/json.
pub record AdminEnv : Type 0 where
  pub base : Env
  pub is_duplicate : Err → Bool
  pub duplicate_key : Err
  pub marshal : Details → Result Text

-- marshalJSON, its error wrapped
abbrev pub marshalled : String → Result Text → Result Text
marshalled message (ok payload) = ok payload
marshalled message (err e) = err (wrap internal_error message e [])

abbrev pub mapped_row {ℓ κ} : {A : Type ℓ} {B : Type κ} → (A → B) → Option A → Option B
mapped_row f none = none
mapped_row f (some r) = some (f r)

module _ (env : AdminEnv) where
  -- wrapDBError
  unfoldable pub wrap_admin_error : String → Err → Err
  wrap_admin_error message e =
      if env.is_duplicate e
      then wrap conflict message e []
      else wrap service_unavailable message e []

  abbrev run_checked {ℓ} :
      {A : Type ℓ} → String → Bool → (Tables → A × Tables) → World → Result A × World
  run_checked message true run w = (err (wrap_admin_error message env.duplicate_key), w)
  run_checked message false run w = (ok (run w.tables).0, record w { tables = (run w.tables).1 })

  -- A statement, its error wrapped: it changes nothing if it fails, or where it would write a key
  -- that is there.
  unfoldable pub checked_statement {ℓ} :
      {A : Type ℓ} → String → (Tables → Bool) → (Tables → A × Tables) → Action A
  checked_statement message conflicts run w =
      let before = settled env.base w in
      elim (env.base.fault w.tick) [
        | some e ↦ (err (wrap_admin_error message e), before)
        | none ↦ run_checked message (conflicts before.tables) run before
      ]

  abbrev pub admin_exec : String → (Tables → Tables) → Action (Unit {0})
  admin_exec message change = checked_statement message (λ t. false) (λ t. (tt, change t))

  abbrev pub admin_query {ℓ} : {A : Type ℓ} → String → (Tables → A) → Action A
  admin_query message read = checked_statement message (λ t. false) (λ t. (read t, t))

  -- UPDATE ... RETURNING
  abbrev pub admin_update {ℓ} : {A : Type ℓ} → String → (Tables → Tables) → (Tables → A) → Action A
  admin_update message change read =
      checked_statement message (λ t. false) (λ t. (read (change t), change t))

  abbrev pub admin_insert : String → (Tables → Bool) → (Tables → Tables) → Action (Unit {0})
  admin_insert message exists change = checked_statement message exists (λ t. (tt, change t))

  -- TenantRepository.Create
  unfoldable pub create_tenant_row : Tenant → Action (Unit {0})
  create_tenant_row tenant =
      admin_insert "create tenant" (λ t. any (is_tenant tenant.tenant_id) t.tenants)
        (λ t. record t { tenants = tenant_row tenant ∷ t.tenants })

  -- TenantRepository.GetByID
  unfoldable pub get_tenant_row : Text → Action (Option Tenant)
  get_tenant_row id =
      admin_query "get tenant" (λ t. mapped_row tenant_of (find_row (is_tenant id) t.tenants))

  -- TenantRepository.Patch
  unfoldable pub patch_tenant_rows : Text → TenantPatch → Action (Option Tenant)
  patch_tenant_rows id patch = do
    now ← clock env.base
    admin_update "patch tenant"
        (λ t. record t {
          tenants = update_where (is_tenant id) (patch_tenant_row now patch) t.tenants;
        })
        (λ t. mapped_row tenant_of (find_row (is_tenant id) t.tenants))

  -- TenantPolicyRepository.CreateDefault
  unfoldable pub create_default : Text → Action (Unit {0})
  create_default id = do
    now ← clock env.base
    admin_insert "create default tenant policy" (λ t. any (is_policy id) t.policies)
        (λ t. record t { policies = default_policy now id ∷ t.policies })

  -- TenantPolicyRepository.GetByTenantID
  unfoldable pub get_policy : Text → Action (Option TenantPolicyView)
  get_policy id =
      admin_query "get tenant policy"
        (λ t. mapped_row policy_view (find_row (is_policy id) t.policies))

  -- TenantPolicyRepository.Patch
  unfoldable pub patch_policy_rows : Text → TenantPolicyPatch → Action (Option TenantPolicyView)
  patch_policy_rows id patch = do
    now ← clock env.base
    admin_update "patch tenant policy"
        (λ t. record t {
          policies = update_where (is_policy id) (patch_policy_row now patch) t.policies;
        })
        (λ t. mapped_row policy_view (find_row (is_policy id) t.policies))

  -- TenantUsageRepository.Initialize
  unfoldable pub initialize_usage : Text → Action (Unit {0})
  initialize_usage id = do
    now ← clock env.base
    admin_insert "initialize tenant usage" (λ t. any (is_usage id) t.usage)
        (λ t. record t { usage = initial_usage now id ∷ t.usage })

  -- TenantUsageRepository.GetByTenantID
  unfoldable pub get_usage_row : Text → Action (Option TenantUsageView)
  get_usage_row id =
      admin_query "get tenant usage" (λ t. mapped_row usage_view (find_row (is_usage id) t.usage))

  -- AdminFileRepository.GetByID
  unfoldable pub get_file_row : Text → Action (Option AdminFileView)
  get_file_row id =
      admin_query "get admin file" (λ t. mapped_row file_view (find_row (is_file id) t.files))

  -- What MarkDeleted does with the row that it locked, by whether it is ACTIVE; a row that is locked
  -- is still there to update.
  unfoldable pub delete_row : Text → Time → FileRow → Bool → Action (Option DeleteFileRecord)
  delete_row id at r false = pure (
      some
        (record { file = file_view r; physical_delete_scheduled = true; already_deleted = true }))
  delete_row id at r true = do
    admin_exec "mark admin file deleted" (delete_file_rows at id)
    admin_exec "decrement blob reference count" (release_blob at r.blob_object_id)
    admin_exec "apply tenant usage delete delta" (release_usage at r.tenant_id r.file_size)
    pure (
        some (record {
          file = file_view (record r { is_active = false; deleted_at = some at; updated_at = at });
          physical_delete_scheduled = true;
          already_deleted = false;
        }))

  abbrev pub delete_found : Text → Time → Option FileRow → Action (Option DeleteFileRecord)
  delete_found id at none = pure none
  delete_found id at (some r) = delete_row id at r r.is_active

  -- AdminFileRepository.MarkDeleted
  unfoldable pub mark_deleted : Text → Time → Action (Option DeleteFileRecord)
  mark_deleted id at = do
    current ← admin_query "lock admin file" (λ t. find_row (is_file id) t.files)
    delete_found id (utc at) current

  -- AuditLogRepository.Append
  unfoldable pub append_audit : AuditLogRecord → Action (Unit {0})
  append_audit r = do
    details ← lift (marshalled "marshal admin audit details" (env.marshal r.details))
    admin_exec "append admin audit log"
        (λ t. record t { audit_logs = audit_row details r ∷ t.audit_logs })

  -- now.IsZero() in Publish
  unfoldable pub event_time : Time → Action Time
  event_time at = if is_zero at then clock env.base else pure (utc at)

  -- OutboxPublisher.Publish
  unfoldable pub publish : AdminEvent → Action (Unit {0})
  publish e = do
    event_id ← generate env.base (λ x. wrap internal_error "generate outbox event id" x [])
    payload ← lift (marshalled "marshal outbox payload" (env.marshal e.payload))
    now ← event_time e.occurred_at
    admin_exec "publish outbox event"
        (λ t. record t { outbox = event_row event_id payload now e ∷ t.outbox })
