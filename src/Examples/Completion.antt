-- ===== src/Examples/Completion.antt =====
-- One upload that is completed twice, on tables that hold its session, and requests about it.
use zhi_file_service_go.Common.{
  ◌==◌, if◌then◌else◌, ◌≡◌, ◌+◌, refl, false, none, some, [], ◌∷◌, text, trim, to_upper, to_lower,
  text_eq, pos, arith,
}
use zhi_file_service_go.Result.{ok, err, accepted}
use zhi_file_service_go.Xerrors.{new, internal_error, Err}
use zhi_file_service_go.Upload.Status.{SessionStatus}
use zhi_file_service_go.Upload.Session.{Session}
use zhi_file_service_go.Upload.Hash.{validate_hash}
use zhi_file_service_go.Upload.Validation.{
  validate, fill_total_parts, normalize_params, new_session,
}
use zhi_file_service_go.Upload.Rows.{to_row, from_row}
use zhi_file_service_go.Upload.World.{World, Env, settled, wrap_db_error}
use zhi_file_service_go.Upload.World.Laws.{Returns}
use zhi_file_service_go.Upload.World.Progress.{Reliable, Ends}
use zhi_file_service_go.Upload.View.{CompletedUploadSession, from_session}
use zhi_file_service_go.Upload.Materialize.{MaterializedUpload}
use zhi_file_service_go.Upload.Completion.{commit, counted, completed_view}
use zhi_file_service_go.Upload.Completion.Commit.Outcome.{Committed, commit-Committed}
use zhi_file_service_go.Upload.Completion.Commit.Done.{IsTrimmed}
use zhi_file_service_go.Upload.Completion.Commit.Once.{commit-once}
use zhi_file_service_go.Upload.Completion.Commit.Progress.{commit-Ends}
use zhi_file_service_go.Upload.World.{
  transaction, ◌>>=◌, statement, lift, clock, close_transaction, generate, open_transaction, pure,
  raise, raise_if,
}
use zhi_file_service_go.Upload.Completion.{
  commit_body, commit_unless_done, commit_owned, blob_id_for, complete_owned, write_records,
}
use zhi_file_service_go.Upload.Repositories.{
  confirm_completion_owner, adjust_reference_count, apply_delta, create_file_asset, enqueue,
  save_session, upsert_blob,
}
use zhi_file_service_go.Common.{is_space, lower_char, strip, strip_right, upper_char}
use zhi_file_service_go.Storage.{validate_ref}
use zhi_file_service_go.Upload.Complete.{
  effective_content_type, effective_size_bytes, hash_algorithm, hash_string,
}
use zhi_file_service_go.Upload.Hash.{matches_sha256, normalize, normalize_hash}
use zhi_file_service_go.Upload.Lifecycle.{mark_completed}
use zhi_file_service_go.Upload.Mode.{
  mode_invalid, requires_content_hash, requires_provider_upload_id, validate_mode,
}
use zhi_file_service_go.Upload.Rows.{
  hash_algorithm_column, hash_value, null_string, null_time, row_params, time_ptr,
}
use zhi_file_service_go.Upload.Session.{normalize_time_ptr, normalize_updated_at}
use zhi_file_service_go.Upload.Statements.{
  adjust_count, apply_usage, both_given, insert_event, insert_file, upsert_blob_row,
}
use zhi_file_service_go.Upload.Status.{state_conflict, validate_status}
use zhi_file_service_go.Upload.Tables.{save_row}
use zhi_file_service_go.Upload.Validation.{
  ownership_invalid, validate_access_level, validate_head, validate_ownership, validate_tail,
}
use zhi_file_service_go.Examples.Upload.{taken}

abbrev refused : Err
refused = new internal_error "refused" []

abbrev pub calm : Env
calm = record {
  now = λ n. n + 30;
  new_id = λ n. ok (text "f1");
  fault = λ n. none;
  meanwhile = λ n t. t;
  create_multipart = λ n o c. ok (text "p1");
  list_uploaded_parts = λ n o u. ok [];
  complete_multipart = λ n o u p. accepted;
  abort_multipart = λ n o u. accepted;
  head_object = λ n o. err refused;
  compute_sha256 = none;
  put_body = λ n o. accepted;
  presign_put = λ n o c t. ok (text "https://put", []);
  presign_part = λ n o u p t. ok (text "https://part", []);
  resolve_bucket =
      λ l. ok (record { provider = text "S3"; bucket_name = text "b"; public_base = [] });
  marshal_completed = λ p. ok (text "{}");
  marshal_failed = λ p. ok (text "{}");
  message_of = λ e. text "error";
}

calm-Reliable : Reliable 30 calm
unfolding trim
calm-Reliable = record {
  no_fault = λ n. refl;
  ids = λ n. (text "f1", refl, refl);
  later = λ n. omega arith;
  encodes = λ p. (text "{}", refl);
}

abbrev pub holding : Session → World
holding s = record {
  tables = record {
    sessions = to_row s ∷ [];
    parts = [];
    blobs = [];
    files = [];
    usage = [];
    policies = [];
    outbox = [];
    tenants = [];
    audit_logs = [];
  };
  tick = 0;
  in_transaction = false;
  effects = [];
}

abbrev pub uploaded : MaterializedUpload
uploaded = record {
  metadata = record {
    size_bytes = pos 4096;
    content_type = text "video/mp4";
    etag = text "e";
    checksum = [];
    version_id = [];
  };
  provider_parts = [];
  canonical_hash = none;
  dedup_decision = none;
}

taken-IsTrimmed : IsTrimmed taken (text "t1")
unfolding trim
taken-IsTrimmed = record { id = refl; tenant = refl; given_token = refl }

commit-Ends_example : Ends (commit calm taken (text "t1") uploaded (text "r1")) (holding taken)
unfolding settled to_row from_row new_session normalize_params validate text_eq trim validate_hash
    to_upper to_lower counted
commit-Ends_example =
    commit-Ends 30 calm calm-Reliable taken taken (text "t1") uploaded (text "r1") (holding taken)
      refl refl taken-IsTrimmed refl (omega arith) refl

-- The session as the commit leaves it.
abbrev finished : Session
finished = record taken {
  completed_parts = pos 4;
  status = SessionStatus.completed;
  file_id = text "f1";
  completed_at = some 42;
  updated_at = 42;
}

abbrev after_first : World
after_first = (commit calm taken (text "t1") uploaded (text "r1") (holding taken)).1

abbrev answer : CompletedUploadSession
answer = completed_view finished

first :
    Returns (commit calm taken (text "t1") uploaded (text "r1")) (holding taken) answer after_first
unfolding commit settled text_eq to_row from_row new_session trim validate_hash to_upper to_lower
    counted fill_total_parts normalize_params validate from_session transaction ◌>>=◌ statement lift
    clock close_transaction generate open_transaction pure raise raise_if commit_body
    commit_unless_done commit_owned blob_id_for complete_owned write_records
    confirm_completion_owner adjust_reference_count apply_delta create_file_asset enqueue
    save_session upsert_blob is_space lower_char strip strip_right upper_char validate_ref
    effective_content_type effective_size_bytes hash_algorithm hash_string matches_sha256 normalize
    normalize_hash mark_completed mode_invalid requires_content_hash requires_provider_upload_id
    validate_mode hash_algorithm_column hash_value null_string null_time row_params time_ptr
    normalize_time_ptr normalize_updated_at adjust_count apply_usage both_given insert_event
    insert_file upsert_blob_row state_conflict validate_status save_row ownership_invalid
    validate_access_level validate_head validate_ownership validate_tail
first = refl

commit-Committed_example :
    Committed calm taken (text "t1") uploaded (holding taken) answer after_first
commit-Committed_example =
    commit-Committed calm taken (text "t1") uploaded (text "r1") (holding taken) answer after_first
      refl first

abbrev after_second : World
after_second = (commit calm taken (text "t1") uploaded (text "r2") after_first).1

second :
    Returns (commit calm taken (text "t1") uploaded (text "r2")) after_first answer after_second
unfolding commit settled text_eq to_row from_row new_session trim validate_hash to_upper to_lower
    counted fill_total_parts normalize_params validate from_session transaction ◌>>=◌ statement lift
    clock close_transaction generate open_transaction pure raise raise_if commit_body
    commit_unless_done commit_owned blob_id_for complete_owned write_records
    confirm_completion_owner adjust_reference_count apply_delta create_file_asset enqueue
    save_session upsert_blob is_space lower_char strip strip_right upper_char validate_ref
    effective_content_type effective_size_bytes hash_algorithm hash_string matches_sha256 normalize
    normalize_hash mark_completed mode_invalid requires_content_hash requires_provider_upload_id
    validate_mode hash_algorithm_column hash_value null_string null_time row_params time_ptr
    normalize_time_ptr normalize_updated_at adjust_count apply_usage both_given insert_event
    insert_file upsert_blob_row state_conflict validate_status save_row ownership_invalid
    validate_access_level validate_head validate_ownership validate_tail
second = refl

settled-calm : (w : World) → (settled calm w).tables.sessions ≡ w.tables.sessions
unfolding settled
settled-calm w = ground arith

first_closed : after_first.in_transaction ≡ false
unfolding commit settled text_eq to_row from_row new_session trim validate_hash to_upper to_lower
    counted fill_total_parts normalize_params validate from_session transaction ◌>>=◌ statement lift
    clock close_transaction generate open_transaction pure raise raise_if commit_body
    commit_unless_done commit_owned blob_id_for complete_owned write_records
    confirm_completion_owner adjust_reference_count apply_delta create_file_asset enqueue
    save_session upsert_blob is_space lower_char strip strip_right upper_char validate_ref
    effective_content_type effective_size_bytes hash_algorithm hash_string matches_sha256 normalize
    normalize_hash mark_completed mode_invalid requires_content_hash requires_provider_upload_id
    validate_mode hash_algorithm_column hash_value null_string null_time row_params time_ptr
    normalize_time_ptr normalize_updated_at adjust_count apply_usage both_given insert_event
    insert_file upsert_blob_row state_conflict validate_status save_row ownership_invalid
    validate_access_level validate_head validate_ownership validate_tail
first_closed = refl

commit-once_example :
    (answer.file_id ≡ trim answer.file_id)
    × (after_second.tables ≡ (settled calm after_first).tables)
commit-once_example =
    commit-once calm taken (text "t1") uploaded uploaded (text "r1") (text "r2") (holding taken)
      answer after_first after_first answer after_second taken-IsTrimmed refl first first_closed
      (settled-calm after_first) second

-- The statement of Save fails.
abbrev shaky : Env
shaky = record calm { fault = λ n. if n == 13 then some refused else none }

abbrev after_fault : World
after_fault = (commit shaky taken (text "t1") uploaded (text "r1") (holding taken)).1

fails :
    commit shaky taken (text "t1") uploaded (text "r1") (holding taken)
    ≡ (err (wrap_db_error "save upload session" refused), after_fault)
unfolding commit settled text_eq to_row from_row new_session trim validate_hash to_upper to_lower
    counted fill_total_parts normalize_params validate from_session transaction ◌>>=◌ statement lift
    clock close_transaction generate open_transaction pure raise raise_if commit_body
    commit_unless_done commit_owned blob_id_for complete_owned write_records
    confirm_completion_owner adjust_reference_count apply_delta create_file_asset enqueue
    save_session upsert_blob is_space lower_char strip strip_right upper_char validate_ref
    effective_content_type effective_size_bytes hash_algorithm hash_string matches_sha256 normalize
    normalize_hash mark_completed mode_invalid requires_content_hash requires_provider_upload_id
    validate_mode hash_algorithm_column hash_value null_string null_time row_params time_ptr
    normalize_time_ptr normalize_updated_at adjust_count apply_usage both_given insert_event
    insert_file upsert_blob_row state_conflict validate_status save_row ownership_invalid
    validate_access_level validate_head validate_ownership validate_tail
fails = refl
