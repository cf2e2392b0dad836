-- ===== src/Upload/Validation/Facts.antt =====
-- A valid session, and what each group of the checks of Session.Validate asks for.
use zhi_file_service_go.Common.{
  ◌<◌, ◌≤◌, ◌≡◌, ◌↔◌, ◌⊎◌, true, false, ◌&&◌, Option, none, some, is_empty, is_blank, pos, leb_ℤ,
  ltb_ℤ, arith,
}
use zhi_file_service_go.Result.{accepted, >>-eq-ok}
use zhi_file_service_go.Storage.{AccessLevel}
use zhi_file_service_go.Upload.Status.{SessionStatus, completing, completed, aborted, failed}
use zhi_file_service_go.Upload.Mode.{SessionMode, direct, inline}
use zhi_file_service_go.Upload.Hash.{ContentHash, validate_hash}
use zhi_file_service_go.Upload.Session.{Session}
use zhi_file_service_go.Upload.Validation.{
  is_unset, validate_identity, validate_times, validate_content_hash, validate_provider,
  validate_parts, validate_status_fields, validate_head, validate_tail,
}

abbrev pub IsKnownMode : SessionMode → Type 0
IsKnownMode (SessionMode.other s) = ⊥
IsKnownMode _ = Unit

abbrev pub IsKnownStatus : SessionStatus → Type 0
IsKnownStatus (SessionStatus.other s) = ⊥
IsKnownStatus _ = Unit

abbrev pub IsKnownLevel : AccessLevel → Type 0
IsKnownLevel (AccessLevel.other s) = ⊥
IsKnownLevel _ = Unit

-- Who and what: every name is given, the kinds are known, and the object can be addressed.
pub record HasIdentity (s : Session) : Type 0 where
  pub id_given : is_blank s.id ≡ false
  pub tenant_given : is_blank s.tenant_id ≡ false
  pub owner_given : is_blank s.owner_id ≡ false
  pub file_named : is_blank s.file_name ≡ false
  pub type_given : is_blank s.content_type ≡ false
  pub size_positive : ltb_ℤ (pos 0) s.size_bytes ≡ true
  pub mode_known : IsKnownMode s.mode
  pub status_known : IsKnownStatus s.status
  pub level_known : IsKnownLevel s.access_level
  pub provider_given : is_empty s.object.provider ≡ false
  pub bucket_given : is_empty s.object.bucket_name ≡ false
  pub key_given : is_empty s.object.object_key ≡ false

pub record HasTimes (s : Session) : Type 0 where
  pub created : 0 < s.created_at
  pub updated_later : s.created_at ≤ s.updated_at
  pub expires_later : s.created_at < s.expires_at
  pub chunk_nonneg : leb_ℤ (pos 0) s.chunk_size_bytes ≡ true

abbrev pub HashFacts : SessionMode → Option ContentHash → Type 0
HashFacts inline none = Unit
HashFacts _ none = ⊥
HashFacts _ (some h) = validate_hash h ≡ accepted

-- Only a multipart upload has an upload id and a number of parts of its own.
abbrev pub PartFacts : SessionMode → Session → Type 0
PartFacts direct s = (is_empty s.provider_upload_id ≡ false) × (leb_ℤ (pos 1) s.total_parts ≡ true)
PartFacts _ s = (is_empty s.provider_upload_id ≡ true) × (s.total_parts ≡ pos 1)

abbrev pub StatusFacts : SessionStatus → Session → Type 0
StatusFacts completing s =
    (is_blank s.completion_token ≡ false) × (is_unset s.completion_started_at ≡ false)
StatusFacts completed s = (is_empty s.file_id ≡ false) × (is_unset s.completed_at ≡ false)
StatusFacts aborted s = is_unset s.aborted_at ≡ false
StatusFacts failed s =
    (is_unset s.failed_at ≡ false)
    × (is_empty s.failure_code ≡ false)
    × (is_empty s.failure_message ≡ false)
StatusFacts _ s = Unit

pub record IsValid (s : Session) : Type 0 where
  pub identity : HasIdentity s
  pub times : HasTimes s
  pub hash : HashFacts s.mode s.hash
  pub parts : PartFacts s.mode s
  pub counted : leb_ℤ (pos 0) s.completed_parts ≡ true
  pub within_total : leb_ℤ s.completed_parts s.total_parts ≡ true
  pub by_status : StatusFacts s.status s

validate_identity_iff : (s : Session) → (validate_identity s ≡ accepted) ↔ HasIdentity s
unfolding validate_identity
validate_identity_iff s = ground arith

validate_times_iff : (s : Session) → (validate_times s ≡ accepted) ↔ HasTimes s
unfolding validate_times
validate_times_iff s = ground arith

validate_content_hash_iff :
    (s : Session)
    → IsKnownMode s.mode
    → (validate_content_hash s ≡ accepted) ↔ HashFacts s.mode s.hash
unfolding validate_content_hash
validate_content_hash_iff s k = ground arith

-- What the multipart modes and the others are asked for before TotalParts is filled.
abbrev pub ProviderFacts : SessionMode → Session → Type 0
ProviderFacts direct s =
    (is_empty s.provider_upload_id ≡ false) × (leb_ℤ (pos 1) s.total_parts ≡ true)
ProviderFacts _ s = is_empty s.provider_upload_id ≡ true

validate_provider_iff :
    (s : Session) → IsKnownMode s.mode → (validate_provider s ≡ accepted) ↔ ProviderFacts s.mode s
unfolding validate_provider
validate_provider_iff s k = ground arith

pub record HeadFacts (s : Session) : Type 0 where
  pub identity : HasIdentity s
  pub times : HasTimes s
  pub hash : HashFacts s.mode s.hash
  pub provider : ProviderFacts s.mode s

pub validate_head_facts : (s : Session) → validate_head s ≡ accepted → HeadFacts s
unfolding validate_head
validate_head_facts s h =
    let (a, h₁) = (>>-eq-ok (validate_identity s) _).0 h in
    let (b, h₂) = (>>-eq-ok (validate_times s) _).0 h₁ in
    let (c, d) = (>>-eq-ok (validate_content_hash s) (validate_provider s)).0 h₂ in
    let identity = (validate_identity_iff s).0 a in
    record {
      identity = identity;
      times = (validate_times_iff s).0 b;
      hash = (validate_content_hash_iff s identity.mode_known).0 c;
      provider = (validate_provider_iff s identity.mode_known).0 d;
    }

pub validate_head_accepts : (s : Session) → HeadFacts s → validate_head s ≡ accepted
unfolding validate_head
validate_head_accepts s f = rw (
  (validate_identity_iff s).1 f.identity,
  (validate_times_iff s).1 f.times,
  (validate_content_hash_iff s f.identity.mode_known).1 f.hash,
  (validate_provider_iff s f.identity.mode_known).1 f.provider,
)

-- The part of the facts that is read after TotalParts is filled.
pub record TailFacts (s : Session) : Type 0 where
  pub total : s.mode ≡ direct ⊎ s.total_parts ≡ pos 1
  pub counted : leb_ℤ (pos 0) s.completed_parts ≡ true
  pub within_total : (ltb_ℤ (pos 0) s.total_parts && ltb_ℤ s.total_parts s.completed_parts) ≡ false
  pub by_status : StatusFacts s.status s

validate_parts_iff :
    (s : Session)
    → IsKnownMode s.mode
    → (validate_parts s ≡ accepted) ↔ (
        (s.mode ≡ direct ⊎ s.total_parts ≡ pos 1)
        × (leb_ℤ (pos 0) s.completed_parts ≡ true)
        × ((ltb_ℤ (pos 0) s.total_parts && ltb_ℤ s.total_parts s.completed_parts) ≡ false))
unfolding validate_parts
validate_parts_iff s k = ground arith

validate_status_fields_iff :
    (s : Session)
    → IsKnownStatus s.status
    → (validate_status_fields s ≡ accepted) ↔ StatusFacts s.status s
unfolding validate_status_fields
validate_status_fields_iff s k = ground arith

pub validate_tail_facts :
    (s : Session)
    → IsKnownMode s.mode
    → IsKnownStatus s.status
    → (validate_tail s ≡ accepted) ↔ TailFacts s
unfolding validate_tail
validate_tail_facts s k l = ground (
  arith,
  validate_parts_iff s k,
  validate_status_fields_iff s l,
  >>-eq-ok (validate_parts s) (validate_status_fields s),
)
