-- ===== src/Upload/Materialize.antt =====
-- completionToken and materialize of CompleteUploadSessionHandler in
-- internal/services/upload/app/commands/complete_upload_session.go, with all of its ports: what it
-- asks of the storage provider and reads there. The metrics are left out.
use zhi_file_service_go.Common.{
  ℕ, pos, String, ◌&&◌, ◌||◌, Option, none, some, List, [], ◌∷◌, length, is_nil, if◌then◌else◌,
  Text, is_empty, is_blank, ℤ, ltb_ℤ,
}
use zhi_file_service_go.Xerrors.{
  Err, new, wrap, invalid_argument, internal_error, service_unavailable, upload_parts_missing, name,
  int,
}
use zhi_file_service_go.Result.{Result, ok, err, Check}
use zhi_file_service_go.Storage.{ObjectRef, UploadedPart, ObjectMetadata}
use zhi_file_service_go.Upload.Mode.{SessionMode, direct}
use zhi_file_service_go.Upload.Hash.{ContentHash, hash_invalid}
use zhi_file_service_go.Upload.Session.{Session}
use zhi_file_service_go.Upload.Parts.{normalize_uploaded_parts, to_session_part_records}
use zhi_file_service_go.Upload.Auth.{AuthContext}
use zhi_file_service_go.Upload.Complete.{
  resolve_expected_content_hash, resolve_canonical_hash, wrap_multipart_operation_error,
}
use zhi_file_service_go.Upload.Statements.{DedupHit}
use zhi_file_service_go.Upload.World.{
  Env, Action, completed_upload, pure, lift, ◌>>=◌, ◌>>◌, raise_if, ticked, tell, clock, generate,
}
use zhi_file_service_go.Upload.Repositories.{replace_parts, lookup_by_hash}

pub record CompleteUploadSessionCommand : Type 0 where
  pub upload_session_id : Text
  pub uploaded_parts : List UploadedPart
  pub content_hash : Option ContentHash
  pub idempotency_key : Text
  pub request_id : Text
  pub auth : AuthContext

-- materializedUpload
pub record MaterializedUpload : Type 0 where
  pub metadata : ObjectMetadata
  pub provider_parts : List UploadedPart
  pub canonical_hash : Option ContentHash
  pub dedup_decision : Option DedupHit

abbrev pub count {ℓ} : {A : Type ℓ} → List A → ℤ
count xs = pos (length xs)

abbrev pub parts_missing : ℤ → ℤ → Err
parts_missing expected actual =
    new upload_parts_missing "uploaded parts are incomplete"
      (("expectedParts", int expected) ∷ ("actualParts", int actual) ∷ [])

abbrev pub id_required : Err
id_required =
    new invalid_argument "upload session id is required" (("field", name "uploadSessionId") ∷ [])

-- An error of a call is wrapped.
abbrev pub or_else_wrap {ℓ} : {A : Type ℓ} → (Err → Err) → Result A → Result A
or_else_wrap f (ok a) = ok a
or_else_wrap f (err e) = err (f e)

abbrev pub unavailable : String → Err → Err
unavailable message e = wrap service_unavailable message e []

abbrev pub internal : String → Err → Err
internal message e = wrap internal_error message e []

-- DedupDecision.Validate of domain/dedup.go
unfoldable pub validate_hit : Option DedupHit → Check
validate_hit none = ok tt
validate_hit (some d) =
    if is_empty d.blob_id || is_empty d.file_id
    then err (hash_invalid "dedup hit must carry blob and file identifiers")
    else ok tt

module _ (env : Env) where
  -- completionToken
  unfoldable pub completion_token_for : Text → Action Text
  completion_token_for [] = generate env (internal "generate completion token")
  completion_token_for (c ∷ key) = pure (c ∷ key)

  -- A call of the storage provider.
  abbrev pub call {ℓ} : {A : Type ℓ} → (ℕ → Result A) → Action A
  call f w = (f w.tick, ticked w)

  -- MultipartManager.CompleteMultipartUpload
  abbrev pub complete_multipart_upload : Session → List UploadedPart → Action (Unit {0})
  complete_multipart_upload s parts w = (
    or_else_wrap (wrap_multipart_operation_error s "complete multipart upload")
        (env.complete_multipart w.tick s.object s.provider_upload_id parts),
    tell (completed_upload s.object s.provider_upload_id parts) (ticked w),
  )

  -- The multipart part of materialize.
  unfoldable pub materialize_parts : Session → List UploadedPart → Action (List UploadedPart)
  materialize_parts s uploaded = do
    client ← lift (normalize_uploaded_parts uploaded)
    raise_if (is_nil client) (parts_missing s.total_parts (pos 0))
    listed ← call (λ n.
        or_else_wrap (wrap_multipart_operation_error s "list uploaded parts")
          (env.list_uploaded_parts n s.object s.provider_upload_id))
    provider ←
        lift
          (or_else_wrap (unavailable "normalize uploaded parts") (normalize_uploaded_parts listed))
    raise_if (ltb_ℤ (pos 0) s.total_parts && ltb_ℤ (count provider) s.total_parts)
        (parts_missing s.total_parts (count provider))
    now ← clock env
    replace_parts env s.tenant_id s.id (to_session_part_records s.id provider now)
    complete_multipart_upload s provider
    pure provider

  abbrev if_direct : SessionMode → Action (List UploadedPart) → Action (List UploadedPart)
  if_direct direct m = m
  if_direct mode m = pure []

  abbrev with_checksum : ObjectMetadata → Text → ObjectMetadata
  with_checksum metadata checksum = record metadata { checksum = checksum }

  abbrev computed :
      Session → ObjectMetadata → Option (ℕ → ObjectRef → Result Text) → Action ObjectMetadata
  computed s metadata none = pure metadata
  computed s metadata (some compute) = do
    checksum ←
        call (λ n. or_else_wrap (unavailable "compute uploaded object hash") (compute n s.object))
    pure (with_checksum metadata checksum)

  -- The checksum is computed where the provider has none and a hash is expected.
  unfoldable pub ensure_checksum :
      Session → Option ContentHash → ObjectMetadata → Action ObjectMetadata
  ensure_checksum s none metadata = pure metadata
  ensure_checksum s (some expected) metadata =
      if is_blank metadata.checksum then computed s metadata env.compute_sha256 else pure metadata

  -- The lookup of materialize, with the validation of what it finds.
  unfoldable pub decide_dedup : Session → Option ContentHash → Action (Option DedupHit)
  decide_dedup s none = pure none
  decide_dedup s (some h) = do
    decision ←
        lookup_by_hash env
          (record { tenant_id = s.tenant_id; bucket_name = s.object.bucket_name; hash = h })
    lift (validate_hit decision)
    pure decision

  -- CompleteUploadSessionHandler.materialize
  unfoldable pub materialize : Session → CompleteUploadSessionCommand → Action MaterializedUpload
  materialize s command = do
    expected ← lift (resolve_expected_content_hash s.hash command.content_hash)
    parts ← if_direct s.mode (materialize_parts s command.uploaded_parts)
    head ←
        call (λ n. or_else_wrap (unavailable "head uploaded object") (env.head_object n s.object))
    metadata ← ensure_checksum s expected head
    canonical ← lift (resolve_canonical_hash expected metadata.checksum)
    decision ← decide_dedup s canonical
    pure (record {
      metadata = metadata;
      provider_parts = parts;
      canonical_hash = canonical;
      dedup_decision = decision;
    })
