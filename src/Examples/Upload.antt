-- ===== src/Examples/Upload.antt =====
-- The life of one multipart upload, domain/session.go.
use zhi_file_service_go.Common.{
  ◌≡◌, ◌≤◌, ◌↔◌, ◌⊎◌, refl, none, some, [], ◌∷◌, text, trim, to_upper, to_lower, text_eq, pos,
}
use zhi_file_service_go.Result.{ok, accepted}
use zhi_file_service_go.Storage.{AccessLevel}
use zhi_file_service_go.Upload.Status.{SessionStatus, acquired, is_terminal}
use zhi_file_service_go.Upload.Mode.{SessionMode}
use zhi_file_service_go.Upload.Hash.{validate_hash}
use zhi_file_service_go.Upload.Session.{Session}
use zhi_file_service_go.Upload.Validation.{validate, fill_total_parts}
use zhi_file_service_go.Upload.Validation.Facts.{IsValid}
use zhi_file_service_go.Upload.Validation.Exact.{validate-accepts_iff}
use zhi_file_service_go.Upload.Lifecycle.{acquire_completion}
use zhi_file_service_go.Upload.Lifecycle.Runs.{
  observe, acquire, succeed, stop, after_call, after_calls, ◌⟶◌, after_call-⟶, terminal_absorbs,
}
use zhi_file_service_go.Upload.Lifecycle.Ownership.{acquisitions, acquired_at_most_once}
use zhi_file_service_go.Upload.Lifecycle.Validity.{as_completed}

abbrev pub draft : Session
draft = record {
  id = text "u1";
  tenant_id = text "acme";
  owner_id = text "ann";
  file_name = text "a.bin";
  content_type = text "video/mp4";
  size_bytes = pos 4096;
  access_level = AccessLevel.private;
  mode = SessionMode.direct;
  status = SessionStatus.initiated;
  chunk_size_bytes = pos 1024;
  total_parts = pos 4;
  completed_parts = pos 0;
  object = record { provider = text "S3"; bucket_name = text "b"; object_key = text "k" };
  provider_upload_id = text "p1";
  file_id = text "";
  hash = some (record {
    algorithm = text "SHA256";
    value = text "e3b0c44298fc1c149afbf4c8996fb92427ae41e4649b934ca495991b7852b855";
  });
  completion_token = text "";
  completion_started_at = none;
  created_at = 10;
  updated_at = 10;
  completed_at = none;
  aborted_at = none;
  failure_code = text "";
  failure_message = text "";
  failed_at = none;
  resumed_from_session_id = text "";
  idempotency_key = text "";
  expires_at = 100;
}

pub draft-IsValid : IsValid draft
unfolding validate fill_total_parts trim validate_hash to_upper to_lower text_eq
draft-IsValid = (validate-accepts_iff draft).0 refl

validate-accepts_iff_example : ((validate draft).0 ≡ accepted) ↔ IsValid (fill_total_parts draft)
validate-accepts_iff_example = validate-accepts_iff draft

-- A request takes the completion.
abbrev pub taken : Session
taken = record draft {
  status = SessionStatus.completing;
  completion_token = text "t1";
  completion_started_at = some 20;
  updated_at = 20;
}

takes : acquire_completion (text " t1 ") 20 draft ≡ (ok acquired, taken)
unfolding acquire_completion trim
takes = refl

pub taken-IsValid : IsValid taken
unfolding validate fill_total_parts trim validate_hash to_upper to_lower text_eq
taken-IsValid = (validate-accepts_iff taken).0 refl

abbrev pub done : Session
done = as_completed (text "f1") 30 taken

terminal_absorbs_example :
    after_calls (observe (pos 9) ∷ acquire (text "t2") 40 ∷ stop 50 ∷ []) done ≡ done
unfolding is_terminal
terminal_absorbs_example =
    terminal_absorbs (observe (pos 9) ∷ acquire (text "t2") 40 ∷ stop 50 ∷ []) done refl

after_call-⟶_example :
    ((after_call (acquire (text "t1") 20) draft).status ≡ draft.status)
    ⊎ (draft.status ⟶ (after_call (acquire (text "t1") 20) draft).status)
after_call-⟶_example = after_call-⟶ (acquire (text "t1") 20) draft

acquired_at_most_once_example :
    acquisitions
      (acquire (text "t1") 20 ∷ acquire (text "t2") 21 ∷ succeed (text "f1") 30 ∷ [])
      draft
    ≤ 1
acquired_at_most_once_example =
    acquired_at_most_once
      (acquire (text "t1") 20 ∷ acquire (text "t2") 21 ∷ succeed (text "f1") 30 ∷ []) draft
