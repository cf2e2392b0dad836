-- ===== src/Access/Repositories.antt =====
-- internal/services/access/infra/postgres/repositories.go: the two reads of the access service, on the
-- tables of Upload/Tables. `fault` is the error of the one statement, where it fails.
pub mod Deleted
use zhi_file_service_go.Common.{Bool, true, false, Option, none, some, [], ◌∷◌, String, Text, utc}
use zhi_file_service_go.Xerrors.{
  Err, new, wrap, file_not_found, forbidden, service_unavailable, str, name,
}
use zhi_file_service_go.Result.{Result, ok, err}
use zhi_file_service_go.Upload.Rows.{string_of}
use zhi_file_service_go.Upload.Tables.{FileRow, PolicyRow, Tables, find_row}
use zhi_file_service_go.Admin.Repositories.Statements.{is_file, is_policy}
use zhi_file_service_go.Access.File.{FileStatus, FileView}
use zhi_file_service_go.Access.Ticket.{DownloadPolicy}
use zhi_file_service_go.Access.Queries.{Ports}

-- ErrFileNotFound
abbrev pub file_unknown : Text → Err
file_unknown id =
    new file_not_found "file not found"
      (("resourceType", name "file") ∷ ("resourceId", str id) ∷ [])

-- wrapDBError
abbrev pub wrap_read_error : String → Err → Err
wrap_read_error message e = wrap service_unavailable message e []

abbrev pub read_status : Bool → FileStatus
read_status true = FileStatus.active
read_status false = FileStatus.deleted

-- What Scan and the lines after it make of a row.
unfoldable pub scanned_file : FileRow → FileView
scanned_file r = record {
  file_id = r.file_id;
  tenant_id = r.tenant_id;
  owner_id = r.owner_id;
  file_name = r.original_filename;
  content_type = string_of r.content_type;
  size_bytes = r.file_size;
  access_level = r.access_level;
  status = read_status r.is_active;
  storage_provider = r.storage_provider;
  bucket_name = r.bucket_name;
  object_key = r.object_key;
  created_at = utc r.created_at;
  updated_at = utc r.updated_at;
}

abbrev pub file_or_unknown : Text → Option FileRow → Result FileView
file_or_unknown id none = err (file_unknown id)
file_or_unknown id (some r) = ok (scanned_file r)

-- FileReadRepository.GetByID
unfoldable pub read_file : Option Err → Tables → Text → Result FileView
unfolding scanned_file
read_file none t file_id = file_or_unknown file_id (find_row (is_file file_id) t.files)
read_file (some e) t file_id = err (wrap_read_error "get file by id" e)

-- The tenant's identifier is all that is read: the three restrictions are false.
abbrev pub policy_or_forbidden : Text → Option PolicyRow → Result DownloadPolicy
policy_or_forbidden id none =
    err (new forbidden "tenant policy is not configured" (("tenantId", str id) ∷ []))
policy_or_forbidden id (some r) = ok (record {
  tenant_id = r.tenant_id;
  download_disabled = false;
  inline_preview_disabled = false;
  attachment_download_disabled = false;
})

-- TenantPolicyReader.GetByTenantID
unfoldable pub read_policy : Option Err → Tables → Text → Result DownloadPolicy
read_policy none t tenant_id =
    policy_or_forbidden tenant_id (find_row (is_policy tenant_id) t.policies)
read_policy (some e) t tenant_id = err (wrap_read_error "get tenant policy by tenant id" e)

-- The ports, where the two repositories read the tables.
abbrev pub reading : Ports → Option Err → Option Err → Tables → Ports
reading p fault fault' t = record p {
  get_by_id = read_file fault t;
  get_by_tenant_id = read_policy fault' t;
}
