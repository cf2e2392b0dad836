-- ===== src/Upload/Statements.antt =====
-- What the statements of SessionPartRepository, BlobRepository, FileRepository, DedupRepository,
-- TenantUsageRepository and OutboxPublisher in
-- internal/services/upload/infra/postgres/repositories.go do to the tables. `now` is the reading of
-- time.Now().
use zhi_file_service_go.Common.{
  ◌+ℤ◌, Bool, true, false, not, ◌&&◌, Option, none, some, is_some, List, [], ◌∷◌, if◌then◌else◌,
  Text, text_eq, is_empty, ℤ, pos, ltb_ℤ, eq_ℤ, Time, before, utc,
}
use zhi_file_service_go.Storage.{AccessLevel, Provider}
use zhi_file_service_go.Upload.Hash.{ContentHash}
use zhi_file_service_go.Upload.Parts.{SessionPartRecord}
use zhi_file_service_go.Upload.Rows.{null_string, string_of, hash_value}
use zhi_file_service_go.Upload.Tables.{
  PartRow, BlobRow, FileRow, Tables, find_row, update_where, delete_where, upsert_where, is_session,
  pending,
}

-- BlobRecord of ports/blob_repository.go
pub record BlobRecord : Type 0 where
  pub blob_id : Text
  pub tenant_id : Text
  pub storage_provider : Provider
  pub bucket_name : Text
  pub object_key : Text
  pub size_bytes : ℤ
  pub content_type : Text
  pub etag : Text
  pub checksum : Text
  pub hash : ContentHash

-- FileAssetRecord of ports/file_repository.go
pub record FileAssetRecord : Type 0 where
  pub file_id : Text
  pub tenant_id : Text
  pub owner_id : Text
  pub blob_id : Text
  pub file_name : Text
  pub content_type : Text
  pub size_bytes : ℤ
  pub access_level : AccessLevel
  pub storage_provider : Provider
  pub bucket_name : Text
  pub object_key : Text
  pub hash : Option ContentHash

-- DedupDecision of domain/dedup.go, where it is a hit; none is no decision.
pub record DedupHit : Type 0 where
  pub blob_id : Text
  pub file_id : Text
  pub canonical_etag : Text
  pub canonical_bytes : ℤ

-- DedupLookupKey of ports/dedup_repository.go
pub record DedupLookupKey : Type 0 where
  pub tenant_id : Text
  pub bucket_name : Text
  pub hash : ContentHash

-- OutboxMessage of ports/outbox_publisher.go
pub record OutboxMessage : Type 0 where
  pub event_type : Text
  pub aggregate_id : Text
  pub payload : Text

abbrev is_part : Text → ℤ → PartRow → Bool
is_part id n r = text_eq r.upload_session_id id && eq_ℤ r.part_number n

part_row : SessionPartRecord → PartRow
part_row p = record {
  upload_session_id = p.upload_session_id;
  part_number = p.part_number;
  etag = p.etag;
  part_size = p.part_size;
  checksum = null_string p.checksum;
  uploaded_at = utc p.uploaded_at;
}

-- SessionPartRepository.Upsert
unfoldable pub upsert_part : SessionPartRecord → Tables → Tables
unfolding part_row
upsert_part p db = record db {
  parts =
      upsert_where (is_part p.upload_session_id p.part_number) (λ old. part_row p) (part_row p)
        db.parts;
}

-- The rows of the session's parts, where the session is the tenant's
unfoldable pub part_of : Tables → Text → Text → PartRow → Bool
part_of db tenant_id id r =
    text_eq r.upload_session_id id && is_some (find_row (is_session tenant_id id) db.sessions)

-- The DELETE of Replace
unfoldable pub delete_parts : Text → Text → Tables → Tables
unfolding part_of
delete_parts tenant_id id db = record db { parts = delete_where (part_of db tenant_id id) db.parts }

abbrev pub part_record : PartRow → SessionPartRecord
part_record r = record {
  upload_session_id = r.upload_session_id;
  part_number = r.part_number;
  etag = r.etag;
  part_size = r.part_size;
  checksum = string_of r.checksum;
  uploaded_at = r.uploaded_at;
}

-- hashValueValue and hashAlgorithmValue: NULL unless both are given.
unfoldable pub both_given : ContentHash → Bool
both_given h = not (is_empty h.algorithm) && not (is_empty h.value)

unfoldable pub blob_row : Time → BlobRecord → BlobRow
unfolding both_given
blob_row now b = record {
  blob_object_id = b.blob_id;
  tenant_id = b.tenant_id;
  storage_provider = b.storage_provider;
  bucket_name = b.bucket_name;
  object_key = b.object_key;
  etag = null_string b.etag;
  checksum = null_string b.checksum;
  hash_value = if both_given b.hash then some b.hash.value else none;
  hash_algorithm = if both_given b.hash then some b.hash.algorithm else none;
  file_size = b.size_bytes;
  content_type = null_string b.content_type;
  reference_count = pos 0;
  created_at = now;
  updated_at = now;
  deleted_at = none;
}

abbrev pub is_blob : Text → BlobRow → Bool
is_blob id r = text_eq r.blob_object_id id

-- DO UPDATE SET of the upsert: the tenant, the references and the creation stay.
abbrev pub written_over : BlobRow → BlobRow → BlobRow
written_over new old = record new {
  blob_object_id = old.blob_object_id;
  tenant_id = old.tenant_id;
  reference_count = old.reference_count;
  created_at = old.created_at;
  deleted_at = old.deleted_at;
}

-- BlobRepository.Upsert
unfoldable pub upsert_blob_row : Time → BlobRecord → Tables → Tables
unfolding blob_row
upsert_blob_row now b db = record db {
  blobs =
      upsert_where (is_blob b.blob_id) (written_over (blob_row now b)) (blob_row now b) db.blobs;
}

-- BlobRepository.AdjustReferenceCount
unfoldable pub adjust_count : Time → Text → ℤ → Tables → Tables
adjust_count now id delta db = record db {
  blobs =
      update_where (is_blob id)
        (λ r. record r { reference_count = r.reference_count +ℤ delta; updated_at = now }) db.blobs;
}

-- FileRepository.CreateFileAsset
unfoldable pub insert_file : Time → FileAssetRecord → Tables → Tables
insert_file now f db = record db {
  files =
      record {
        file_id = f.file_id;
        tenant_id = f.tenant_id;
        owner_id = f.owner_id;
        blob_object_id = f.blob_id;
        original_filename = f.file_name;
        content_type = null_string f.content_type;
        file_size = f.size_bytes;
        access_level = f.access_level;
        is_active = true;
        storage_provider = f.storage_provider;
        bucket_name = f.bucket_name;
        object_key = f.object_key;
        file_hash = hash_value f.hash;
        created_at = now;
        updated_at = now;
        deleted_at = none;
      }
      ∷ db.files;
}

-- TenantUsageRepository.ApplyDelta
unfoldable pub apply_usage : Time → Text → ℤ → Tables → Tables
apply_usage now tenant_id delta db = record db {
  usage =
      update_where (λ r. text_eq r.tenant_id tenant_id)
        (λ r. record r {
          used_storage_bytes = r.used_storage_bytes +ℤ delta;
          last_upload_at = if ltb_ℤ (pos 0) delta then some now else r.last_upload_at;
          version = r.version +ℤ pos 1;
          updated_at = now;
        })
        db.usage;
}

-- The INSERT of OutboxPublisher.Enqueue
unfoldable pub insert_event : Time → Text → OutboxMessage → Tables → Tables
insert_event now event_id m db = record db {
  outbox =
      record {
        event_id = event_id;
        aggregate_id = m.aggregate_id;
        event_type = m.event_type;
        payload = m.payload;
        status = pending;
        retry_count = pos 0;
        next_attempt_at = none;
        published_at = none;
        created_at = now;
        updated_at = now;
      }
      ∷ db.outbox;
}

-- A column equals a value; NULL equals nothing.
abbrev has_value : Text → Option Text → Bool
has_value v none = false
has_value v (some w) = text_eq w v

abbrev later_than : Option FileRow → FileRow → Bool
later_than none f = true
later_than (some b) f = before b.created_at f.created_at

-- The blob of a file that LookupByHash joins it with, where it is not deleted and has the hash.
unfoldable pub is_match : DedupLookupKey → FileRow → BlobRow → Bool
is_match k f b =
    text_eq f.blob_object_id b.blob_object_id
    && text_eq b.tenant_id k.tenant_id
    && text_eq b.bucket_name k.bucket_name
    && has_value k.hash.algorithm b.hash_algorithm
    && has_value k.hash.value b.hash_value
    && not (is_some b.deleted_at)

hit_of : FileRow → Option BlobRow → Option DedupHit
hit_of f none = none
hit_of f (some b) = some (record {
  blob_id = b.blob_object_id;
  file_id = f.file_id;
  canonical_etag = string_of b.etag;
  canonical_bytes = b.file_size;
})

-- The rows of the join in the order of the files, and the latest of them by the file's creation.
unfoldable pub latest_match :
    DedupLookupKey → List BlobRow → Option FileRow → List FileRow → Option FileRow
unfolding is_match
latest_match k blobs best [] = best
latest_match k blobs best (f ∷ fs) =
    let kept = latest_match k blobs best fs in
    let taken = latest_match k blobs (some f) fs in
    if f.is_active && is_some (find_row (is_match k f) blobs) && later_than best f
    then taken
    else kept

-- DedupRepository.LookupByHash; COALESCE is string_of.
unfoldable pub find_by_hash : DedupLookupKey → Tables → Option DedupHit
unfolding latest_match hit_of is_match
find_by_hash k db = elim (latest_match k db.blobs none db.files) [
  | none ↦ none
  | some f ↦ hit_of f (find_row (is_match k f) db.blobs)
]
