-- ===== src/Upload/Repositories.antt =====
-- The repositories of internal/services/upload/infra/postgres/repositories.go, each method a sequence
-- of statements.
use zhi_file_service_go.Common.{
  String, true, not, ◌&&◌, Option, none, some, List, [], ◌∷◌, map, any, Text, text_eq, ℤ, Time,
}
use zhi_file_service_go.Common.Sorting.{sort}
use zhi_file_service_go.Xerrors.{
  Err, new, wrap, upload_session_not_found, forbidden, internal_error, name, str,
}
use zhi_file_service_go.Result.{Result, ok, err}
use zhi_file_service_go.Upload.Status.{CompletionOwnership, acquired}
use zhi_file_service_go.Upload.Session.{Session}
use zhi_file_service_go.Upload.Lifecycle.{acquire_completion}
use zhi_file_service_go.Upload.Parts.{SessionPartRecord}
use zhi_file_service_go.Upload.Policy.{TenantUploadPolicy}
use zhi_file_service_go.Upload.Rows.{SessionRow, to_row, from_row}
use zhi_file_service_go.Upload.Tables.{
  PolicyRow, PartRow, ReusableSessionQuery, find_row, keep_where, is_session, has_token, save_row,
  insert_row, find_reusable_row,
}
use zhi_file_service_go.Upload.Statements.{
  BlobRecord, FileAssetRecord, DedupHit, DedupLookupKey, OutboxMessage, upsert_part, delete_parts,
  part_of, part_record, upsert_blob_row, adjust_count, insert_file, apply_usage, insert_event,
  find_by_hash,
}
use zhi_file_service_go.Upload.World.{
  Env, Action, pure, lift, ◌>>=◌, ◌>>◌, raise_if, wrap_db_error, clock, generate, exec, query,
  statement, transaction,
}

-- ErrUploadSessionNotFound of domain/errors.go
abbrev pub session_not_found : Text → Err
session_not_found id =
    new upload_session_not_found "upload session not found"
      (("resourceType", name "uploadSession") ∷ ("resourceId", str id) ∷ [])

abbrev wrapped_read : String → Result Session → Result Session
wrapped_read message (ok s) = ok s
wrapped_read message (err e) = err (wrap_db_error message e)

-- What a query for one session returns: sql.ErrNoRows is the session not found, any other error,
-- also that the row is no valid session, is wrapped.
abbrev pub read_session : String → Text → Option SessionRow → Result Session
read_session message id none = err (session_not_found id)
read_session message id (some row) = wrapped_read message (from_row row)

-- The same for FindReusable, where no row is no session.
abbrev pub read_reusable : Option SessionRow → Result (Option Session)
read_reusable none = ok none
read_reusable (some row) = elim (wrapped_read "find reusable upload session" (from_row row)) [
  | ok s ↦ ok (some s)
  | err e ↦ err e
]

abbrev saved_if_acquired :
    (Session → Action (Unit {0})) → CompletionOwnership → Session → Action (Unit {0})
saved_if_acquired save acquired s = save s
saved_if_acquired save ownership s = pure tt

abbrev part_records : List PartRow → List SessionPartRecord
part_records rows = map part_record rows

-- The policy that ReadUploadPolicy makes of the row.
abbrev pub policy_of : Text → Option PolicyRow → Result TenantUploadPolicy
policy_of tenant_id none =
    err (new forbidden "tenant policy is not configured" (("tenantId", str tenant_id) ∷ []))
policy_of tenant_id (some r) = ok (record {
  allow_inline_upload = true;
  allow_multipart = true;
  max_inline_size = r.max_single_file_size;
  max_file_size = r.max_single_file_size;
  allowed_mime_types = r.allowed_mime_types;
})

module _ (env : Env) where
  -- SessionRepository.Create
  unfoldable pub create_session : Session → Action (Unit {0})
  create_session s = exec env "create upload session" (insert_row (to_row s))

  -- SessionRepository.Save
  unfoldable pub save_session : Session → Action (Unit {0})
  save_session s = do
    found ←
        statement env "save upload session"
          (λ t. (any (is_session s.tenant_id s.id) t.sessions, save_row (to_row s) t))
    raise_if (not found) (session_not_found s.id)

  -- SessionRepository.GetByID
  unfoldable pub get_by_id : Text → Text → Action Session
  get_by_id tenant_id id = do
    row ← query env "get upload session" (λ t. find_row (is_session tenant_id id) t.sessions)
    lift (read_session "get upload session" id row)

  -- SessionRepository.FindReusable
  unfoldable pub find_reusable : ReusableSessionQuery → Action (Option Session)
  find_reusable q = do
    row ← query env "find reusable upload session" (find_reusable_row q)
    lift (read_reusable row)

  -- What acquireCompletion does with the session that it has locked.
  unfoldable pub acquire_locked : Text → Time → Session → Action (Session × CompletionOwnership)
  unfolding save_session
  acquire_locked token started_at s = do
    let after = acquire_completion token started_at s
    ownership ← lift after.0
    saved_if_acquired save_session ownership after.1
    pure (after.1, ownership)

  -- SessionRepository.AcquireCompletion
  unfoldable pub acquire_completion_of :
      Text → Text → Text → Time → Action (Session × CompletionOwnership)
  unfolding acquire_locked
  acquire_completion_of tenant_id id token started_at =
      transaction env "begin acquire completion transaction" "commit acquire completion transaction"
        (do
          row ← query env "acquire completion" (λ t. find_row (is_session tenant_id id) t.sessions)
          s ← lift (read_session "acquire completion" id row)
          acquire_locked token started_at s)

  -- SessionRepository.ConfirmCompletionOwner
  unfoldable pub confirm_completion_owner : Text → Text → Text → Action Session
  confirm_completion_owner tenant_id id token = do
    row ← query env "confirm completion owner" (λ t.
        find_row (λ r. is_session tenant_id id r && has_token token r.completion_token) t.sessions)
    lift (read_session "confirm completion owner" id row)

  -- The loop of Replace.
  upsert_parts : List SessionPartRecord → Action (Unit {0})
  upsert_parts [] = pure tt
  upsert_parts (p ∷ ps) = do exec env "upsert upload session part" (upsert_part p); upsert_parts ps

  -- SessionPartRepository.Replace
  unfoldable pub replace_parts : Text → Text → List SessionPartRecord → Action (Unit {0})
  unfolding upsert_parts
  replace_parts tenant_id id parts = do
    exec env "delete upload session parts" (delete_parts tenant_id id)
    upsert_parts parts

  -- SessionPartRepository.ListBySessionID
  unfoldable pub list_by_session_id : Text → Text → Action (List SessionPartRecord)
  list_by_session_id tenant_id id = query env "list upload session parts" (λ t.
      part_records
        (sort (λ (r : PartRow). r.part_number) (keep_where (part_of t tenant_id id) t.parts)))

  -- BlobRepository.Upsert
  unfoldable pub upsert_blob : BlobRecord → Action (Unit {0})
  upsert_blob b = do now ← clock env; exec env "upsert blob object" (upsert_blob_row now b)

  -- BlobRepository.AdjustReferenceCount
  unfoldable pub adjust_reference_count : Text → ℤ → Action (Unit {0})
  adjust_reference_count id delta = do
    now ← clock env
    exec env "adjust blob reference count" (adjust_count now id delta)

  -- FileRepository.CreateFileAsset
  unfoldable pub create_file_asset : FileAssetRecord → Action (Unit {0})
  create_file_asset f = do now ← clock env; exec env "create file asset" (insert_file now f)

  -- DedupRepository.LookupByHash
  unfoldable pub lookup_by_hash : DedupLookupKey → Action (Option DedupHit)
  lookup_by_hash k = query env "lookup dedup hash" (find_by_hash k)

  -- TenantPolicyReader.ReadUploadPolicy
  unfoldable pub read_upload_policy : Text → Action TenantUploadPolicy
  read_upload_policy tenant_id = do
    row ←
        query env "read tenant upload policy"
          (λ t. find_row (λ (r : PolicyRow). text_eq r.tenant_id tenant_id) t.policies)
    lift (policy_of tenant_id row)

  -- TenantUsageRepository.ApplyDelta
  unfoldable pub apply_delta : Text → ℤ → Action (Unit {0})
  apply_delta tenant_id delta = do
    now ← clock env
    exec env "apply tenant usage delta" (apply_usage now tenant_id delta)

  -- OutboxPublisher.Enqueue
  unfoldable pub enqueue : OutboxMessage → Action (Unit {0})
  enqueue m = do
    event_id ← generate env (λ e. wrap internal_error "generate outbox event id" e [])
    now ← clock env
    exec env "enqueue outbox event" (insert_event now event_id m)
