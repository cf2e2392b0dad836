-- ===== src/Upload/Handlers.antt =====
-- The handlers of app/commands/abort_upload_session.go, upload_inline_content.go and
-- presign_multipart_parts.go, and of app/queries, of the upload service. The create handler is in the
-- child Create.
pub mod Create
pub mod Outcomes
use zhi_file_service_go.Common.{
  Bool, true, false, not, ◌&&◌, ◌||◌, Option, none, some, List, [], ◌∷◌, map, any, is_nil,
  if◌then◌else◌, Text, text, text_eq, is_empty, is_blank, trim, ℤ, pos, ltb_ℤ, Time, add,
}
use zhi_file_service_go.Xerrors.{
  Err, new, wrap, invalid_argument, service_unavailable, upload_mode_invalid, name, str, int,
}
use zhi_file_service_go.Result.{Result, ok, err, Check}
use zhi_file_service_go.Storage.{ObjectRef, UploadedPart}
use zhi_file_service_go.Upload.Status.{SessionStatus, initiated, uploading, state_conflict}
use zhi_file_service_go.Upload.Mode.{SessionMode, inline, direct, mode_text}
use zhi_file_service_go.Upload.Session.{Session}
use zhi_file_service_go.Upload.Lifecycle.{mark_uploading, abort}
use zhi_file_service_go.Upload.Auth.{AuthContext, require_file_write, ensure_session_access}
use zhi_file_service_go.Upload.Policy.{equal_fold, normalize_presign_ttl}
use zhi_file_service_go.Upload.Parts.{SessionPartRecord, validate_presign_part_numbers}
use zhi_file_service_go.Upload.World.{
  Env, Action, World, aborted_upload, put_object, pure, lift, raise, attempt, ◌>>=◌, ◌>>◌, raise_if,
  ticked, tell, clock,
}
use zhi_file_service_go.Upload.View.{
  UploadSession, PresignedPart, UploadedPartView, Headers, from_session,
}
use zhi_file_service_go.Upload.Repositories.{
  get_by_id, save_session, list_by_session_id, replace_parts,
}
use zhi_file_service_go.Upload.Materialize.{count, id_required, or_else_wrap, unavailable, call}

-- session.Mode == mode
abbrev pub is_mode : SessionMode → SessionMode → Bool
is_mode a b = text_eq (mode_text a) (mode_text b)

-- newUploadModeMismatch
abbrev pub mode_mismatch : SessionMode → SessionMode → Err
mode_mismatch current required =
    new upload_mode_invalid "upload mode does not support current operation"
      (("currentMode", str (mode_text current)) ∷ ("requiredMode", str (mode_text required)) ∷ [])

pub record PresignMultipartPartsCommand : Type 0 where
  pub upload_session_id : Text
  pub parts : List ℤ
  pub expires_in : ℤ
  pub auth : AuthContext

-- `body_given` is command.Body != nil.
pub record UploadInlineContentCommand : Type 0 where
  pub upload_session_id : Text
  pub content_type : Text
  pub body_given : Bool
  pub auth : AuthContext

abbrev pub takes_parts : SessionStatus → Bool
takes_parts initiated = true
takes_parts uploading = true
takes_parts status = false

-- The first part number that the session has no part for.
unfoldable pub first_beyond : ℤ → List ℤ → Option ℤ
first_beyond total [] = none
first_beyond total (n ∷ ns) =
    if ltb_ℤ (pos 0) total && ltb_ℤ total n then some n else first_beyond total ns

abbrev pub refuse_beyond : ℤ → Option ℤ → Check
refuse_beyond total none = ok tt
refuse_beyond total (some n) = err (
    new invalid_argument "part number exceeds upload session total parts"
      (("field", name "parts.partNumber") ∷ ("partNumber", int n) ∷ ("totalParts", int total) ∷ []))

abbrev presigned : ℤ → Time → Text × List (Text × Text) → PresignedPart
presigned n expires_at (url, headers) = record {
  part_number = n;
  url = url;
  headers = headers;
  expires_at = expires_at;
}

abbrev pub part_view : UploadedPart → UploadedPartView
part_view p = record { part_number = p.part_number; etag = p.etag; size_bytes = p.size_bytes }

abbrev pub record_view : SessionPartRecord → UploadedPartView
record_view p = record { part_number = p.part_number; etag = p.etag; size_bytes = p.part_size }

-- The record that ListUploadedParts makes of a part of the provider.
abbrev pub listed_record : Text → Time → UploadedPart → SessionPartRecord
listed_record id now p = record {
  upload_session_id = id;
  part_number = p.part_number;
  etag = p.etag;
  part_size = p.size_bytes;
  checksum = p.checksum;
  uploaded_at = now;
}

module _ (env : Env) where
  -- GetByID and EnsureSessionAccess, as every handler of one session begins
  unfoldable pub session_for : AuthContext → Text → Action Session
  session_for auth id = do
    s ← get_by_id env auth.tenant_id id
    lift (ensure_session_access auth s)
    pure s

  -- GetUploadSessionHandler.Handle
  unfoldable pub get_upload_session : AuthContext → Text → Action UploadSession
  unfolding session_for
  get_upload_session auth id = do
    lift (require_file_write auth)
    s ← session_for auth id
    pure (from_session s (text "") [])

  -- The call of AbortMultipartUpload, of which the handler drops the error.
  unfoldable pub abort_provider : Session → Action (Unit {0})
  abort_provider s w =
      if is_mode s.mode direct && not (is_empty s.provider_upload_id)
      then (ok tt, tell (aborted_upload s.object s.provider_upload_id) (ticked w))
      else (ok tt, w)

  -- AbortUploadSessionHandler.Handle, with a multipart manager
  unfoldable pub abort_upload_session : AuthContext → Text → Action UploadSession
  unfolding session_for abort_provider
  abort_upload_session auth id = do
    lift (require_file_write auth)
    raise_if (is_blank id) id_required
    s ← session_for auth id
    now ← clock env
    let after = abort now s
    lift after.0
    save_session env after.1
    abort_provider after.1
    pure (from_session after.1 (text "") [])

  -- InlineObjectWriter.PutObject
  unfoldable pub put_content : Session → Action (Unit {0})
  put_content s w = (
    or_else_wrap (unavailable "upload inline content") (env.put_body w.tick s.object),
    tell (put_object s.object s.content_type) (ticked w),
  )

  -- UploadInlineContentHandler.Handle
  unfoldable pub upload_inline_content : UploadInlineContentCommand → Action UploadSession
  unfolding session_for put_content
  upload_inline_content command = do
    lift (require_file_write command.auth)
    raise_if (is_blank command.upload_session_id) id_required
    raise_if (not command.body_given)
        (new invalid_argument "request body is required" (("field", name "body") ∷ []))
    s ← session_for command.auth command.upload_session_id
    raise_if (not (is_mode s.mode inline)) (mode_mismatch s.mode inline)
    let content_type = trim command.content_type
    raise_if (not (is_empty content_type) && not (equal_fold content_type s.content_type)) (
        new invalid_argument "content type does not match upload session" (
          ("field", name "contentType")
          ∷ ("declaredContentType", str s.content_type)
          ∷ ("contentType", str content_type)
          ∷ []))
    put_content s
    let after = mark_uploading (pos 1) s
    lift after.0
    now ← clock env
    let saved = record after.1 { updated_at = now }
    save_session env saved
    pure (from_session saved (text "") [])

  -- The second loop of the presign handler.
  unfoldable pub presign_parts : Session → ℤ → Time → List ℤ → Action (List PresignedPart)
  presign_parts s ttl expires_at [] = pure []
  presign_parts s ttl expires_at (n ∷ ns) = do
    signed ← call env (λ tick.
        or_else_wrap
          (λ e. wrap service_unavailable "presign multipart part" e (("partNumber", int n) ∷ []))
          (env.presign_part tick s.object s.provider_upload_id n ttl))
    rest ← presign_parts s ttl expires_at ns
    pure (presigned n expires_at signed ∷ rest)

  -- PresignMultipartPartsHandler.Handle, of the configured lifetimes
  unfoldable pub presign_multipart_parts :
      ℤ → ℤ → PresignMultipartPartsCommand → Action (List PresignedPart)
  unfolding session_for first_beyond presign_parts
  presign_multipart_parts default_ttl max_ttl command = do
    lift (require_file_write command.auth)
    raise_if (is_blank command.upload_session_id) id_required
    numbers ← lift (validate_presign_part_numbers command.parts)
    let ttl = normalize_presign_ttl command.expires_in default_ttl max_ttl
    s ← session_for command.auth command.upload_session_id
    raise_if (not (is_mode s.mode direct)) (mode_mismatch s.mode direct)
    raise_if (not (takes_parts s.status)) (state_conflict s.status (initiated ∷ uploading ∷ []))
    lift (refuse_beyond s.total_parts (first_beyond s.total_parts numbers))
    now ← clock env
    presign_parts s ttl (add now ttl) numbers

  -- The parts of a session whose mode is not DIRECT.
  unfoldable pub stored_parts : Session → Action (List UploadedPartView)
  stored_parts s = do
    records ← list_by_session_id env s.tenant_id s.id
    pure (map record_view records)

  saved_when_marked : Time → Check × Session → Action (Unit {0})
  saved_when_marked now (ok u, s) = save_session env (record s { updated_at = now })
  saved_when_marked now (err e, s) = pure tt

  -- The session is marked where there are parts; that it cannot be is dropped.
  unfoldable pub mark_listed : Session → Time → List UploadedPart → Action (Unit {0})
  unfolding saved_when_marked
  mark_listed s now [] = pure tt
  mark_listed s now (p ∷ ps) = saved_when_marked now (mark_uploading (count (p ∷ ps)) s)

  -- The parts of a multipart upload, which also replace those that are stored.
  unfoldable pub provider_parts : Session → Action (List UploadedPartView)
  unfolding mark_listed
  provider_parts s = do
    parts ← call env (λ n. env.list_uploaded_parts n s.object s.provider_upload_id)
    now ← clock env
    replace_parts env s.tenant_id s.id (map (listed_record s.id now) parts)
    mark_listed s now parts
    pure (map part_view parts)

  -- ListUploadedPartsHandler.Handle
  unfoldable pub list_uploaded_parts : AuthContext → Text → Action (List UploadedPartView)
  unfolding session_for stored_parts provider_parts
  list_uploaded_parts auth id = do
    lift (require_file_write auth)
    s ← session_for auth id
    if is_mode s.mode direct then provider_parts s else stored_parts s
