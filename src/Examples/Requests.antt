-- ===== src/Examples/Requests.antt =====
-- Requests of the upload service about one session, on tables that hold it.
use zhi_file_service_go.Common.{
  ◌==◌, if◌then◌else◌, ◌≡◌, refl, false, Option, none, some, List, [], ◌∷◌, map, Text, text, trim,
  pos,
}
use zhi_file_service_go.Common.Sorting.{sort}
use zhi_file_service_go.Result.{ok}
use zhi_file_service_go.Storage.{AccessLevel}
use zhi_file_service_go.Upload.Mode.{SessionMode}
use zhi_file_service_go.Upload.Status.{SessionStatus}
use zhi_file_service_go.Upload.Auth.{AuthContext, scope_file_write}
use zhi_file_service_go.Upload.Rows.{SessionRow, to_row, from_row}
use zhi_file_service_go.Upload.Rows.RoundTrip.{from_row-to_row}
use zhi_file_service_go.Upload.Session.{Session}
use zhi_file_service_go.Upload.Validation.Facts.{IsValid}
use zhi_file_service_go.Upload.Validation.Exact.{validate-accepts_iff}
use zhi_file_service_go.Upload.World.{World, Env}
use zhi_file_service_go.Upload.World.Laws.{Returns}
use zhi_file_service_go.Upload.View.{UploadSession, PresignedPart, from_session}
use zhi_file_service_go.Upload.Handlers.{
  abort_upload_session, presign_multipart_parts, PresignMultipartPartsCommand,
}
use zhi_file_service_go.Upload.Handlers.Create.{
  CreateUploadSessionCommand, CreateUploadSessionConfig, create_upload_session,
}
use zhi_file_service_go.Upload.Handlers.Outcomes.{Aborts, abort_upload_session-Aborts}
use zhi_file_service_go.Upload.Handlers.Outcomes.Presigns.{
  Presigns, presign_multipart_parts-Presigns,
}
use zhi_file_service_go.Common.{
  text_eq, is_space, lower_char, strip, strip_right, upper_char, to_upper, to_lower, path_join,
}
use zhi_file_service_go.Upload.World.{
  transaction, ◌>>=◌, statement, lift, clock, settled, generate, pure, raise, raise_if,
}
use zhi_file_service_go.Upload.Repositories.{
  get_by_id, find_reusable, create_session, read_upload_policy, save_session,
}
use zhi_file_service_go.Upload.Handlers.{session_for, abort_provider, presign_parts, first_beyond}
use zhi_file_service_go.Upload.Handlers.Create.{
  check_command, create_new, reuse_or_create, prepare, create_multipart_upload, plan_object_key,
  is_mode_allowed,
}
use zhi_file_service_go.Upload.Policy.{
  validate_upload_policy, contains_fold, normalize_presign_ttl, normalize_total_parts,
  normalize_access_level, sanitize_file_name,
}
use zhi_file_service_go.Upload.Parts.{validate_presign_part_numbers, check_numbers}
use zhi_file_service_go.Upload.Auth.{require_file_write, ensure_session_access, has_scope}
use zhi_file_service_go.Storage.{validate_ref}
use zhi_file_service_go.Upload.Hash.{matches_sha256, normalize, normalize_hash, validate_hash}
use zhi_file_service_go.Upload.Lifecycle.{abort}
use zhi_file_service_go.Upload.Mode.{
  mode_invalid, requires_content_hash, requires_provider_upload_id, validate_mode,
  default_total_parts,
}
use zhi_file_service_go.Upload.Rows.{
  hash_algorithm_column, hash_value, null_string, null_time, row_params, time_ptr,
}
use zhi_file_service_go.Upload.Session.{normalize_time_ptr, normalize_updated_at}
use zhi_file_service_go.Upload.Status.{state_conflict, validate_status}
use zhi_file_service_go.Upload.Tables.{save_row, insert_row, find_reusable_row, is_reusable, latest}
use zhi_file_service_go.Upload.Validation.{
  new_session, normalize_params, validate, fill_total_parts, ownership_invalid,
  validate_access_level, validate_head, validate_ownership, validate_tail,
}
use zhi_file_service_go.Examples.Upload.{draft, done}
use zhi_file_service_go.Examples.Completion.{calm, holding}

pub draft-normal : normalize_params draft ≡ draft
unfolding normalize_params normalize_hash normalize_time_ptr normalize_updated_at trim to_upper
    to_lower normalize
draft-normal = refl

-- The draft at times that the columns hold.
abbrev timed : Session
timed = record draft { created_at = 10000; updated_at = 10000; expires_at = 100000 }

timed-IsValid : IsValid timed
unfolding validate fill_total_parts trim validate_hash to_upper to_lower text_eq
timed-IsValid = (validate-accepts_iff timed).0 refl

timed-normal : normalize_params timed ≡ timed
unfolding normalize_params normalize_hash normalize_time_ptr normalize_updated_at trim to_upper
    to_lower normalize
timed-normal = refl

from_row-to_row_example : from_row (to_row timed) ≡ ok timed
from_row-to_row_example =
    from_row-to_row timed timed-IsValid timed-normal
      (record { started = tt; completed = tt; aborted = tt; failed = tt })
      (record {
        created = refl;
        updated = refl;
        expires = refl;
        started = tt;
        completed = tt;
        aborted = tt;
        failed = tt;
      })

abbrev ann : AuthContext
ann = record {
  request_id = text "r";
  subject_id = text "ann";
  subject_type = text "user";
  tenant_id = text "acme";
  client_id = [];
  token_id = [];
  scopes = scope_file_write ∷ [];
}

-- The session was completed by another request after the abort read it, and is aborted all the same.
abbrev overtaken : Env
overtaken = record calm { meanwhile = λ n t. if n == 2 then (holding done).tables else t }

abbrev aborted_view : UploadSession
aborted_view =
    from_session
      (record draft { status = SessionStatus.aborted; aborted_at = some 31; updated_at = 31 }) [] []

abbrev after_abort : World
after_abort = (abort_upload_session overtaken ann (text "u1") (holding draft)).1

aborts :
    Returns
      (abort_upload_session overtaken ann (text "u1"))
      (holding draft)
      aborted_view
      after_abort
unfolding abort_upload_session presign_multipart_parts create_upload_session from_session to_row
    from_row trim text_eq is_space lower_char strip strip_right upper_char to_upper to_lower
    path_join transaction ◌>>=◌ statement lift clock settled generate pure raise raise_if get_by_id
    find_reusable create_session read_upload_policy save_session session_for abort_provider
    presign_parts first_beyond check_command create_new reuse_or_create prepare
    create_multipart_upload plan_object_key is_mode_allowed validate_upload_policy contains_fold
    normalize_presign_ttl normalize_total_parts normalize_access_level sanitize_file_name
    validate_presign_part_numbers check_numbers require_file_write ensure_session_access has_scope
    validate_ref matches_sha256 normalize normalize_hash validate_hash abort mode_invalid
    requires_content_hash requires_provider_upload_id validate_mode default_total_parts
    hash_algorithm_column hash_value null_string null_time row_params time_ptr normalize_time_ptr
    normalize_updated_at state_conflict validate_status save_row insert_row find_reusable_row
    is_reusable latest new_session normalize_params validate fill_total_parts ownership_invalid
    validate_access_level validate_head validate_ownership validate_tail
aborts = refl

overwritten :
    map {B = SessionStatus × Option Text}
      (λ (r : SessionRow). (r.status, r.file_id))
      after_abort.tables.sessions
    ≡ (SessionStatus.aborted, none) ∷ []
unfolding abort_upload_session presign_multipart_parts create_upload_session from_session to_row
    from_row trim text_eq is_space lower_char strip strip_right upper_char to_upper to_lower
    path_join transaction ◌>>=◌ statement lift clock settled generate pure raise raise_if get_by_id
    find_reusable create_session read_upload_policy save_session session_for abort_provider
    presign_parts first_beyond check_command create_new reuse_or_create prepare
    create_multipart_upload plan_object_key is_mode_allowed validate_upload_policy contains_fold
    normalize_presign_ttl normalize_total_parts normalize_access_level sanitize_file_name
    validate_presign_part_numbers check_numbers require_file_write ensure_session_access has_scope
    validate_ref matches_sha256 normalize normalize_hash validate_hash abort mode_invalid
    requires_content_hash requires_provider_upload_id validate_mode default_total_parts
    hash_algorithm_column hash_value null_string null_time row_params time_ptr normalize_time_ptr
    normalize_updated_at state_conflict validate_status save_row insert_row find_reusable_row
    is_reusable latest new_session normalize_params validate fill_total_parts ownership_invalid
    validate_access_level validate_head validate_ownership validate_tail
overwritten = refl

abort_upload_session-Aborts_example :
    Aborts overtaken ann (text "u1") (holding draft) aborted_view after_abort
abort_upload_session-Aborts_example =
    abort_upload_session-Aborts overtaken ann (text "u1") (holding draft) aborted_view after_abort
      aborts

abbrev two_parts : PresignMultipartPartsCommand
two_parts = record {
  upload_session_id = text "u1";
  parts = pos 2 ∷ pos 1 ∷ [];
  expires_in = pos 0;
  auth = ann;
}

abbrev signed : List PresignedPart
signed =
    record { part_number = pos 1; url = text "https://part"; headers = []; expires_at = 131 }
    ∷ record { part_number = pos 2; url = text "https://part"; headers = []; expires_at = 131 }
    ∷ []

abbrev after_presign : World
after_presign = (presign_multipart_parts calm (pos 100) (pos 200) two_parts (holding draft)).1

presigns :
    Returns
      (presign_multipart_parts calm (pos 100) (pos 200) two_parts)
      (holding draft)
      signed
      after_presign
unfolding abort_upload_session presign_multipart_parts create_upload_session from_session to_row
    from_row trim text_eq is_space lower_char strip strip_right upper_char to_upper to_lower
    path_join transaction ◌>>=◌ statement lift clock settled generate pure raise raise_if get_by_id
    find_reusable create_session read_upload_policy save_session session_for abort_provider
    presign_parts first_beyond check_command create_new reuse_or_create prepare
    create_multipart_upload plan_object_key is_mode_allowed validate_upload_policy contains_fold
    normalize_presign_ttl normalize_total_parts normalize_access_level sanitize_file_name
    validate_presign_part_numbers check_numbers require_file_write ensure_session_access has_scope
    validate_ref matches_sha256 normalize normalize_hash validate_hash abort mode_invalid
    requires_content_hash requires_provider_upload_id validate_mode default_total_parts
    hash_algorithm_column hash_value null_string null_time row_params time_ptr normalize_time_ptr
    normalize_updated_at state_conflict validate_status save_row insert_row find_reusable_row
    is_reusable latest new_session normalize_params validate fill_total_parts ownership_invalid
    validate_access_level validate_head validate_ownership validate_tail sort
presigns = refl

presign_multipart_parts-Presigns_example :
    Presigns calm (pos 100) (pos 200) two_parts (holding draft) signed after_presign
presign_multipart_parts-Presigns_example =
    presign_multipart_parts-Presigns calm (pos 100) (pos 200) two_parts (holding draft) signed
      after_presign presigns

abbrev config : CreateUploadSessionConfig
config = record { session_ttl = pos 90; presign_ttl = pos 50; allowed_modes = [] }

abbrev wanted : CreateUploadSessionCommand
wanted = record {
  file_name = text "a.bin";
  content_type = text "video/mp4";
  size_bytes = pos 4096;
  access_level = AccessLevel.private;
  upload_mode = SessionMode.direct;
  total_parts = pos 4;
  content_hash = draft.hash;
  idempotency_key = [];
  auth = ann;
}

abbrev empty_but_policy : World
empty_but_policy = record (holding draft) {
  tables = record (holding draft).tables {
    sessions = [];
    policies =
        record {
          tenant_id = text "acme";
          max_storage_bytes = pos 1000000;
          max_file_count = pos 100;
          max_single_file_size = pos 10000;
          allowed_mime_types = [];
          allowed_extensions = [];
          default_access_level = text "PRIVATE";
          auto_create_enabled = false;
          created_at = 1;
          updated_at = 1;
        }
        ∷ [];
  };
}

abbrev new_view : UploadSession
new_view =
    from_session
      (record draft {
        id = text "f1";
        chunk_size_bytes = pos 0;
        object = record {
          provider = text "S3";
          bucket_name = text "b";
          object_key = text "acme/uploads/f1/a.bin";
        };
        created_at = 34;
        updated_at = 34;
        expires_at = 124;
      })
      [] []

abbrev after_create : World
after_create = (create_upload_session calm config wanted empty_but_policy).1
