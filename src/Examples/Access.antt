-- ===== src/Examples/Access.antt =====
-- A file of the tenant acme, the requests of ann for it, and two of them at the same time.
use zhi_file_service_go.Common.{
  is_empty, any, arith, ◌≡◌, ◌↔◌, refl, true, false, none, some, [], ◌++◌, Text, text, text_eq,
  trim, strip_right, if◌then◌else◌, pos, Time,
}
use zhi_file_service_go.Xerrors.{new, not_found}
use zhi_file_service_go.Result.{Result, ok, err}
use zhi_file_service_go.Storage.{AccessLevel}
use zhi_file_service_go.Access.File.{
  FileView, FileStatus, active, require_file_read, ensure_readable,
}
use zhi_file_service_go.Access.Ticket.{
  DownloadDisposition, AccessTicketClaims, DownloadPolicy, normalize_disposition, validate_claims,
  ensure_allowed,
}
use zhi_file_service_go.Access.Queries.{
  Ports, object_url, ticket_auth, resolve_download, redirect_by_access_ticket,
}
use zhi_file_service_go.Access.Queries.Granted.{
  IsPermitted, resolve_download-granted, redirect-resolve_download,
}
use zhi_file_service_go.Access.Idempotency.{
  MemoryRecord, MemoryStore, cleanup_expired, insert, get, put_if_absent, normalize_ttl,
}
use zhi_file_service_go.Access.Request.{
  Settings, CreateAccessTicketCommand, Prepared, prepare, build_fingerprint, build_storage_key,
}
use zhi_file_service_go.Access.Issue.{
  IssuePorts, Moment, CreateAccessTicketResult, issue_ticket, build_redirect_url, record_of_result,
  key_in_use, create_access_ticket, create_prepared, answer_keyed, after_get, store_result,
  after_put,
}
use zhi_file_service_go.Access.Issue.Replay.{replay-same_ticket, race-one_ticket, reuse-conflict}

abbrev file : FileView
file = record {
  file_id = text "f1";
  tenant_id = text "acme";
  owner_id = text "ann";
  file_name = text "a.bin";
  content_type = text "video/mp4";
  size_bytes = pos 4096;
  access_level = AccessLevel.private;
  status = FileStatus.active;
  storage_provider = text "S3";
  bucket_name = text "b";
  object_key = text "k";
  created_at = 10;
  updated_at = 10;
}

abbrev open_policy : DownloadPolicy
open_policy = record {
  tenant_id = text "acme";
  download_disabled = false;
  inline_preview_disabled = true;
  attachment_download_disabled = false;
}

abbrev pub claims : AccessTicketClaims
claims = record {
  file_id = text "f1";
  tenant_id = text "acme";
  subject = text "ann";
  subject_type = text "USER";
  disposition = DownloadDisposition.attachment;
  response_name = text "";
  expires_at = 50;
}

abbrev if_f1 : Text → Result FileView
if_f1 id = if text_eq id (text "f1") then ok file else err (new not_found "no such file" [])

abbrev pub ports : Ports
ports = record {
  get_by_id = λ id. if_f1 id;
  get_by_tenant_id = λ id. ok open_policy;
  verify = λ ticket. ok claims;
  resolve_object_url = λ r. ok (text "public/" ++ r.object_key);
  presign_get_object = λ r ttl. ok (text "signed/" ++ r.object_key);
  now = 40;
  private_ttl = pos 60;
  public_url_enabled = true;
}

resolve_download-granted_example :
    ((is_empty (text "ann") ≡ false)
      × (is_empty (text "acme") ≡ false)
      × (any (λ scope. text_eq scope (text "file:read")) (ticket_auth claims).scopes ≡ true))
    × (ports.get_by_id (text "f1") ≡ ok file)
    × (file.status ≡ active)
    × (text "acme" ≡ file.tenant_id)
    × ((policy : DownloadPolicy) × (ports.get_by_tenant_id file.tenant_id ≡ ok policy)
        × (policy.download_disabled ≡ false)
        × IsPermitted DownloadDisposition.attachment policy)
    × (object_url ports file ≡ ok (text "signed/k"))
unfolding resolve_download require_file_read text_eq ensure_readable normalize_disposition trim
    ensure_allowed
resolve_download-granted_example =
    resolve_download-granted ports (text "f1") DownloadDisposition.attachment (ticket_auth claims)
      (record { file = file; url = text "signed/k" }) refl

redirect-resolve_download_example :
    (redirect_by_access_ticket ports (text "at_x")
      ≡ ok (record { file = file; url = text "signed/k"; claim = claims }))
    ↔ (resolve_download ports (text "f1") DownloadDisposition.attachment (ticket_auth claims)
        ≡ ok (record { file = file; url = text "signed/k" }))
unfolding validate_claims
redirect-resolve_download_example =
    redirect-resolve_download ports (text "at_x") claims file (text "signed/k") refl refl refl

-- The hash and the encoding stand for themselves here.
abbrev settings : Settings
settings = record {
  sha256_hex = λ s. s;
  marshal = λ fields. ok fields.response_name;
  default_ttl = pos 300;
  redirect_base_path = text "/t/";
}

abbrev issue_ports : IssuePorts
issue_ports = record {
  get_by_id = ports.get_by_id;
  get_by_tenant_id = ports.get_by_tenant_id;
  issue = λ c. ok (text "at_" ++ c.file_id);
}

-- A file that is gone.
abbrev gone_ports : IssuePorts
gone_ports = record issue_ports { get_by_id = λ id. err (new not_found "no such file" []) }

abbrev command : CreateAccessTicketCommand
command = record {
  file_id = text "f1";
  idempotency_key = text "once";
  expires_in = pos 0;
  disposition = DownloadDisposition.attachment;
  response_name = text "n";
  auth = ticket_auth claims;
}

abbrev prepared : Prepared
prepared = record {
  disposition = DownloadDisposition.attachment;
  ttl = pos 300;
  idempotency = some (text "acme\nUSER\nann\nf1\nonce", text "n");
}

abbrev no_records : MemoryStore
no_records = λ key. none

abbrev alone : Time → Moment
alone t = record {
  loaded = t;
  issued = t;
  cleaned = t;
  stored = t;
  reloaded = t;
  before_put = λ s. s;
  before_reload = λ s. s;
}

abbrev issued_at : Text → Time → CreateAccessTicketResult
issued_at ticket expires_at = record {
  ticket = ticket;
  redirect_url = text "/t/" ++ ticket ++ text "/redirect";
  expires_at = expires_at;
}

prepares : prepare settings command ≡ ok prepared
unfolding prepare require_file_read text_eq trim normalize_disposition build_fingerprint
    build_storage_key
prepares = refl

replay-same_ticket_example :
    (create_access_ticket settings gone_ports
      (alone 100)
      command
      (create_access_ticket settings issue_ports (alone 40) command no_records).1).0
    ≡ ok (issued_at (text "at_f1") 340)
unfolding create_access_ticket create_prepared prepare require_file_read text_eq trim
    normalize_disposition build_fingerprint build_storage_key answer_keyed after_get get
    cleanup_expired store_result issue_ticket ensure_readable ensure_allowed validate_claims
    after_put normalize_ttl put_if_absent build_redirect_url strip_right
replay-same_ticket_example =
    replay-same_ticket settings command prepares refl issue_ports gone_ports (alone 40) (alone 100)
      no_records (issued_at (text "at_f1") 340) refl refl

-- Another request puts its ticket into the store between the two calls of this one.
abbrev with_theirs : MemoryStore → MemoryStore
with_theirs s =
    insert (text "acme\nUSER\nann\nf1\nonce")
      (record {
        record_of = record_of_result (text "n") (issued_at (text "at_other") 339);
        expires_at = 339;
      })
      s

race-one_ticket_example :
    (create_access_ticket settings issue_ports
      (record (alone 40) { before_put = with_theirs })
      command
      no_records).0
    ≡ ok (issued_at (text "at_other") 339)
unfolding issue_ticket text_eq ensure_readable ensure_allowed validate_claims build_redirect_url
    strip_right trim get cleanup_expired
race-one_ticket_example =
    race-one_ticket settings command prepares refl issue_ports
      (record (alone 40) { before_put = with_theirs }) no_records (issued_at (text "at_f1") 340)
      (issued_at (text "at_other") 339) refl refl refl refl

abbrev reusing : CreateAccessTicketCommand
reusing = record command { response_name = text "another" }

reuses :
    prepare settings reusing
    ≡ ok (record prepared { idempotency = some (text "acme\nUSER\nann\nf1\nonce", text "another") })
unfolding prepare require_file_read text_eq trim normalize_disposition build_fingerprint
    build_storage_key
reuses = refl

abbrev held : MemoryRecord
held = record {
  record_of = record_of_result (text "n") (issued_at (text "at_f1") 340);
  expires_at = 340;
}

reuse-conflict_example :
    ((create_access_ticket settings issue_ports
        (alone 50)
        reusing
        (create_access_ticket settings issue_ports (alone 40) command no_records).1).0
      ≡ err key_in_use)
    × ((create_access_ticket settings issue_ports
            (alone 50)
            reusing
            (create_access_ticket settings issue_ports (alone 40) command no_records).1).1
          (text "acme\nUSER\nann\nf1\nonce")
        ≡ some held)
unfolding create_access_ticket create_prepared prepare require_file_read text_eq trim
    normalize_disposition build_fingerprint build_storage_key answer_keyed after_get get
    cleanup_expired store_result issue_ticket ensure_readable ensure_allowed validate_claims
    after_put normalize_ttl put_if_absent build_redirect_url strip_right
reuse-conflict_example =
    reuse-conflict settings command reusing (text "acme\nUSER\nann\nf1\nonce") prepares refl reuses
      refl refl issue_ports issue_ports (alone 40) (alone 50) no_records
      (issued_at (text "at_f1") 340) refl held refl (omega arith) (text "acme\nUSER\nann\nf1\nonce")
      held refl (omega arith)
