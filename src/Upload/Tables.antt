-- ===== src/Upload/Tables.antt =====
-- The tables that the repositories of the upload, job and admin services share, each a list of rows,
-- and what the statements on upload sessions in
-- internal/services/upload/infra/postgres/repositories.go do to them. A statement may also fail: see
-- World. The rows of one table are in no order that a query relies on.
pub mod Find
use zhi_file_service_go.Common.{
  ◌+ℤ◌, Bool, true, false, not, ◌&&◌, ◌||◌, Option, none, some, List, [], ◌∷◌, ◌++◌, map, any,
  if◌then◌else◌, Text, text, text_eq, is_empty, ℤ, pos, ltb_ℤ, eq_ℤ, Time, before, utc,
}
use zhi_file_service_go.Storage.{AccessLevel, access_level_text, Provider}
use zhi_file_service_go.Admin.Tenant.{TenantStatus}
use zhi_file_service_go.Upload.Status.{SessionStatus, status_text, initiated, uploading}
use zhi_file_service_go.Upload.Mode.{SessionMode, mode_text}
use zhi_file_service_go.Upload.Hash.{ContentHash}
use zhi_file_service_go.Upload.Parts.{SessionPartRecord}
use zhi_file_service_go.Upload.Rows.{SessionRow, null_string, hash_value, hash_algorithm_column}

-- upload.upload_session_parts
pub record PartRow : Type 0 where
  pub upload_session_id : Text
  pub part_number : ℤ
  pub etag : Text
  pub part_size : ℤ
  pub checksum : Option Text
  pub uploaded_at : Time

-- file.blob_objects
pub record BlobRow : Type 0 where
  pub blob_object_id : Text
  pub tenant_id : Text
  pub storage_provider : Provider
  pub bucket_name : Text
  pub object_key : Text
  pub etag : Option Text
  pub checksum : Option Text
  pub hash_value : Option Text
  pub hash_algorithm : Option Text
  pub file_size : ℤ
  pub content_type : Option Text
  pub reference_count : ℤ
  pub created_at : Time
  pub updated_at : Time
  pub deleted_at : Option Time

-- file.file_assets, its status, ACTIVE or DELETED, as whether it is ACTIVE
pub record FileRow : Type 0 where
  pub file_id : Text
  pub tenant_id : Text
  pub owner_id : Text
  pub blob_object_id : Text
  pub original_filename : Text
  pub content_type : Option Text
  pub file_size : ℤ
  pub access_level : AccessLevel
  pub is_active : Bool
  pub storage_provider : Provider
  pub bucket_name : Text
  pub object_key : Text
  pub file_hash : Option Text
  pub created_at : Time
  pub updated_at : Time
  pub deleted_at : Option Time

-- tenant.tenant_usage
pub record UsageRow : Type 0 where
  pub tenant_id : Text
  pub used_storage_bytes : ℤ
  pub used_file_count : ℤ
  pub last_upload_at : Option Time
  pub version : ℤ
  pub updated_at : Time

-- tenant.tenant_policies
pub record PolicyRow : Type 0 where
  pub tenant_id : Text
  pub max_storage_bytes : ℤ
  pub max_file_count : ℤ
  pub max_single_file_size : ℤ
  pub allowed_mime_types : List Text
  pub allowed_extensions : List Text
  pub default_access_level : Text
  pub auto_create_enabled : Bool
  pub created_at : Time
  pub updated_at : Time

-- tenant.tenants
pub record TenantRow : Type 0 where
  pub tenant_id : Text
  pub tenant_name : Text
  pub status : TenantStatus
  pub contact_email : Option Text
  pub description : Option Text
  pub created_at : Time
  pub updated_at : Time
  pub deleted_at : Option Time

-- audit.admin_audit_logs, without the two columns that are always NULL
pub record AuditRow : Type 0 where
  pub audit_log_id : Text
  pub admin_subject : Text
  pub action : Text
  pub target_type : Text
  pub target_id : Option Text
  pub tenant_id : Option Text
  pub request_id : Option Text
  pub details : Text
  pub created_at : Time

-- The statuses of infra.outbox_events
pub data OutboxStatus : Type 0 where
  pending : OutboxStatus
  published : OutboxStatus
  failed : OutboxStatus

-- infra.outbox_events, without the names of the service and of the kind of aggregate
pub record OutboxRow : Type 0 where
  pub event_id : Text
  pub aggregate_id : Text
  pub event_type : Text
  pub payload : Text
  pub status : OutboxStatus
  pub retry_count : ℤ
  pub next_attempt_at : Option Time
  pub published_at : Option Time
  pub created_at : Time
  pub updated_at : Time

pub record Tables : Type 0 where
  pub sessions : List SessionRow
  pub parts : List PartRow
  pub blobs : List BlobRow
  pub files : List FileRow
  pub usage : List UsageRow
  pub policies : List PolicyRow
  pub outbox : List OutboxRow
  pub tenants : List TenantRow
  pub audit_logs : List AuditRow

-- The first row that passes the test: what a query for one row finds by its key.
abbrev pub find_row {ℓ} : {A : Type ℓ} → (A → Bool) → List A → Option A
find_row p [] = none
find_row p (r ∷ rs) = if p r then some r else find_row p rs

-- UPDATE: the rows that pass the test are changed.
abbrev pub update_where {ℓ} : {A : Type ℓ} → (A → Bool) → (A → A) → List A → List A
update_where p f [] = []
update_where p f (r ∷ rs) = (if p r then f r else r) ∷ update_where p f rs

-- DELETE: the rows that pass the test go.
abbrev pub delete_where {ℓ} : {A : Type ℓ} → (A → Bool) → List A → List A
delete_where p [] = []
delete_where p (r ∷ rs) = if p r then delete_where p rs else r ∷ delete_where p rs

-- INSERT ... ON CONFLICT DO UPDATE
abbrev pub upsert_where {ℓ} : {A : Type ℓ} → (A → Bool) → (A → A) → A → List A → List A
upsert_where p f new rows = if any p rows then update_where p f rows else new ∷ rows

-- tenant_id = $1 AND upload_session_id = $2
abbrev pub is_session : Text → Text → SessionRow → Bool
is_session tenant_id id r = text_eq r.tenant_id tenant_id && text_eq r.upload_session_id id

-- AND completion_token = $3; NULL equals nothing
abbrev pub has_token : Text → Option Text → Bool
has_token token none = false
has_token token (some t) = text_eq t token

-- The UPDATE of Save does not write created_at, and the WHERE clause fixes the two keys.
abbrev pub saved_over : SessionRow → SessionRow → SessionRow
saved_over new old = record new { created_at = old.created_at }

-- The UPDATE of Save
unfoldable pub save_row : SessionRow → Tables → Tables
save_row r db = record db {
  sessions = update_where (is_session r.tenant_id r.upload_session_id) (saved_over r) db.sessions;
}

-- The INSERT of Create
unfoldable pub insert_row : SessionRow → Tables → Tables
insert_row r db = record db { sessions = r ∷ db.sessions }

abbrev pub reusable_status : SessionStatus → Bool
reusable_status initiated = true
reusable_status uploading = true
reusable_status _ = false

-- The last condition of FindReusable, on the columns and the arguments
abbrev pub same_hash : Option Text → Option Text → Option ContentHash → Bool
same_hash none none none = true
same_hash (some v) (some a) (some h) = text_eq v h.value && text_eq a h.algorithm
same_hash _ _ _ = false

pub record ReusableSessionQuery : Type 0 where
  pub tenant_id : Text
  pub owner_id : Text
  pub mode : SessionMode
  pub access_level : AccessLevel
  pub size_bytes : ℤ
  pub hash : Option ContentHash

unfoldable pub is_reusable : ReusableSessionQuery → SessionRow → Bool
is_reusable q r =
    text_eq r.tenant_id q.tenant_id
    && text_eq r.owner_id q.owner_id
    && text_eq (mode_text r.upload_mode) (mode_text q.mode)
    && text_eq (access_level_text r.target_access_level) (access_level_text q.access_level)
    && eq_ℤ r.expected_size q.size_bytes
    && reusable_status r.status
    && same_hash r.file_hash r.hash_algorithm q.hash

-- ORDER BY created_at DESC LIMIT 1, the candidate so far before the rows that are left
unfoldable pub latest : Option SessionRow → List SessionRow → Option SessionRow
latest best [] = best
latest none (r ∷ rs) = latest (some r) rs
latest (some b) (r ∷ rs) = latest (if before b.created_at r.created_at then some r else some b) rs

abbrev pub keep_where {ℓ} : {A : Type ℓ} → (A → Bool) → List A → List A
keep_where p [] = []
keep_where p (r ∷ rs) = if p r then r ∷ keep_where p rs else keep_where p rs

-- The SELECT of FindReusable
unfoldable pub find_reusable_row : ReusableSessionQuery → Tables → Option SessionRow
unfolding is_reusable latest
find_reusable_row q db = latest none (keep_where (is_reusable q) db.sessions)
