-- ===== src/Upload/Handlers/Create.antt =====
-- The handler of app/commands/create_upload_session.go of the upload service.
use zhi_file_service_go.Common.{
  String, Bool, not, ◌||◌, Option, none, some, List, [], ◌∷◌, any, is_nil, is_empty, Text, text,
  text_eq, trim, ℤ, pos, leb_ℤ, Time, add, path_join,
}
use zhi_file_service_go.Xerrors.{Err, new, invalid_argument, name}
use zhi_file_service_go.Result.{ok, Check}
use zhi_file_service_go.Storage.{ObjectRef, AccessLevel}
use zhi_file_service_go.Upload.Status.{SessionStatus}
use zhi_file_service_go.Upload.Mode.{
  SessionMode, presigned_single, direct, mode_text, validate_mode,
}
use zhi_file_service_go.Upload.Hash.{ContentHash, normalize_hash, validate_hash}
use zhi_file_service_go.Upload.Session.{Session, CreateSessionParams}
use zhi_file_service_go.Upload.Validation.{new_session}
use zhi_file_service_go.Upload.Auth.{AuthContext, require_file_write, ensure_session_access}
use zhi_file_service_go.Upload.Policy.{
  upload_mode_rejected, validate_upload_policy, normalize_access_level, normalize_total_parts,
  sanitize_file_name,
}
use zhi_file_service_go.Upload.Tables.{ReusableSessionQuery}
use zhi_file_service_go.Upload.World.{
  Env, Action, created, pure, lift, ◌>>=◌, ◌>>◌, raise_if, ticked, tell, clock, generate,
}
use zhi_file_service_go.Upload.View.{UploadSession, Headers, from_session}
use zhi_file_service_go.Upload.Repositories.{create_session, find_reusable, read_upload_policy}
use zhi_file_service_go.Upload.Materialize.{or_else_wrap, unavailable, internal, call}

pub record CreateUploadSessionCommand : Type 0 where
  pub file_name : Text
  pub content_type : Text
  pub size_bytes : ℤ
  pub access_level : AccessLevel
  pub upload_mode : SessionMode
  pub total_parts : ℤ
  pub content_hash : Option ContentHash
  pub idempotency_key : Text
  pub auth : AuthContext

-- What the constructor leaves of the configuration.
pub record CreateUploadSessionConfig : Type 0 where
  pub session_ttl : ℤ
  pub presign_ttl : ℤ
  pub allowed_modes : List SessionMode

abbrev pub required_field : String → String → Err
required_field message field = new invalid_argument message (("field", name field) ∷ [])

-- CreateUploadSessionHandler.isModeAllowed
unfoldable pub is_mode_allowed : List SessionMode → SessionMode → Bool
is_mode_allowed allowed mode =
    is_nil allowed || any (λ m. text_eq (mode_text m) (mode_text mode)) allowed

-- planObjectKey
unfoldable pub plan_object_key : Text → Text → Text → Text
plan_object_key tenant_id session_id file_name =
    path_join
      (trim tenant_id ∷ text "uploads" ∷ trim session_id ∷ sanitize_file_name file_name ∷ [])

abbrev hash_accepted : Option ContentHash → Check
hash_accepted none = ok tt
hash_accepted (some h) = validate_hash h

-- What the storage provider gives for a new session: an upload id, or a URL with its headers.
pub record Prepared : Type 0 where
  pub provider_upload_id : Text
  pub put_url : Text
  pub put_headers : Headers

abbrev prepared_url : Text × Headers → Prepared
prepared_url (url, headers) = record {
  provider_upload_id = text "";
  put_url = url;
  put_headers = headers;
}

-- The checks before the first statement.
unfoldable pub check_command : List SessionMode → CreateUploadSessionCommand → Action (Unit {0})
unfolding is_mode_allowed
check_command allowed command = do
  lift (require_file_write command.auth)
  raise_if (is_empty (trim command.file_name)) (required_field "file name is required" "fileName")
  raise_if (is_empty (trim command.content_type))
      (required_field "content type is required" "contentType")
  raise_if (leb_ℤ command.size_bytes (pos 0)) (required_field "size bytes must be > 0" "sizeBytes")
  lift (validate_mode command.upload_mode)
  raise_if (not (is_mode_allowed allowed command.upload_mode))
      (upload_mode_rejected command.upload_mode "upload_mode_disabled")
  lift (hash_accepted (normalize_hash command.content_hash))

abbrev pub reusable_query : CreateUploadSessionCommand → ReusableSessionQuery
reusable_query command = record {
  tenant_id = command.auth.tenant_id;
  owner_id = command.auth.subject_id;
  mode = command.upload_mode;
  access_level = normalize_access_level command.access_level;
  size_bytes = command.size_bytes;
  hash = normalize_hash command.content_hash;
}

abbrev pub session_params :
    CreateUploadSessionConfig
    → CreateUploadSessionCommand
    → Text
    → ObjectRef
    → Text
    → Time
    → CreateSessionParams
session_params config command id object provider_upload_id now = record {
  id = id;
  tenant_id = command.auth.tenant_id;
  owner_id = command.auth.subject_id;
  file_name = trim command.file_name;
  content_type = trim command.content_type;
  size_bytes = command.size_bytes;
  access_level = normalize_access_level command.access_level;
  mode = command.upload_mode;
  status = SessionStatus.other [];
  chunk_size_bytes = pos 0;
  total_parts = normalize_total_parts command.upload_mode command.total_parts;
  completed_parts = pos 0;
  object = object;
  provider_upload_id = provider_upload_id;
  file_id = [];
  hash = normalize_hash command.content_hash;
  completion_token = [];
  completion_started_at = none;
  created_at = now;
  updated_at = now;
  completed_at = none;
  aborted_at = none;
  failure_code = [];
  failure_message = [];
  failed_at = none;
  resumed_from_session_id = [];
  idempotency_key = trim command.idempotency_key;
  expires_at = add now config.session_ttl;
}

module _ (env : Env) where
  -- PresignManager.PresignPutObject, its error wrapped
  abbrev pub presign_put_object : ℤ → ObjectRef → Text → Action (Text × Headers)
  presign_put_object ttl object content_type = call env (λ n.
      or_else_wrap (unavailable "presign single upload")
        (env.presign_put n object content_type ttl))

  issue_for : SessionMode → ℤ → Session → Action (Text × Headers)
  issue_for presigned_single ttl s = presign_put_object ttl s.object s.content_type
  issue_for mode ttl s = pure (text "", [])

  -- CreateUploadSessionHandler.issuePutURL
  unfoldable pub issue_put_url : ℤ → Session → Action (Text × Headers)
  unfolding issue_for
  issue_put_url ttl s = issue_for s.mode ttl s

  -- MultipartManager.CreateMultipartUpload, its error wrapped
  unfoldable pub create_multipart_upload : ObjectRef → Text → Action Text
  create_multipart_upload object content_type w = (
    or_else_wrap (unavailable "create multipart upload")
        (env.create_multipart w.tick object content_type),
    tell (created object content_type) (ticked w),
  )

  -- The switch on the mode.
  unfoldable pub prepare : SessionMode → ℤ → ObjectRef → Text → Action Prepared
  unfolding create_multipart_upload
  prepare direct ttl object content_type = do
    id ← create_multipart_upload object content_type
    pure (record { provider_upload_id = id; put_url = text ""; put_headers = [] })
  prepare presigned_single ttl object content_type = do
    signed ← presign_put_object ttl object content_type
    pure (prepared_url signed)
  prepare mode ttl object content_type =
      pure (record { provider_upload_id = text ""; put_url = text ""; put_headers = [] })

  -- Of a session that can be used again.
  unfoldable pub reuse : ℤ → AuthContext → Session → Action UploadSession
  unfolding issue_put_url
  reuse ttl auth s = do
    lift (ensure_session_access auth s)
    put ← issue_put_url ttl s
    pure (from_session s put.0 put.1)

  -- From the identifier of the new session on.
  unfoldable pub create_new :
      CreateUploadSessionConfig → CreateUploadSessionCommand → Action UploadSession
  unfolding prepare plan_object_key
  create_new config command = do
    id ← generate env (internal "generate upload session id")
    bucket ← lift (
        or_else_wrap (unavailable "resolve upload bucket")
          (env.resolve_bucket (normalize_access_level command.access_level)))
    let object : ObjectRef = record {
      provider = bucket.provider;
      bucket_name = bucket.bucket_name;
      object_key = plan_object_key command.auth.tenant_id id (trim command.file_name);
    }
    prepared ← prepare command.upload_mode config.presign_ttl object (trim command.content_type)
    now ← clock env
    s ← lift (new_session (session_params config command id object prepared.provider_upload_id now))
    create_session env s
    pure (from_session s prepared.put_url prepared.put_headers)

  unfoldable pub reuse_or_create :
      CreateUploadSessionConfig → CreateUploadSessionCommand → Option Session → Action UploadSession
  unfolding reuse create_new
  reuse_or_create config command none = create_new config command
  reuse_or_create config command (some s) = reuse config.presign_ttl command.auth s

  -- CreateUploadSessionHandler.Handle
  unfoldable pub create_upload_session :
      CreateUploadSessionConfig → CreateUploadSessionCommand → Action UploadSession
  unfolding check_command reuse_or_create
  create_upload_session config command = do
    check_command config.allowed_modes command
    policy ← read_upload_policy env command.auth.tenant_id
    lift (
        validate_upload_policy policy command.upload_mode (trim command.content_type)
          command.size_bytes)
    reusable ← find_reusable env (reusable_query command)
    reuse_or_create config command reusable
