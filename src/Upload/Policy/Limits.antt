-- ===== src/Upload/Policy/Limits.antt =====
-- What the policy of a tenant lets through, and the bounds of what a request may ask for.
use zhi_file_service_go.Common.{
  ◌≡◌, refl, ◌↔◌, ◌⊎◌, true, false, ◌&&◌, [], ◌∷◌, map, All, if◌then◌else◌, Text, is_empty,
  All-strip, All-trim, strip-solid, StartsSolid, ℤ, pos, ltb_ℤ, leb_ℤ, arith,
}
use zhi_file_service_go.Result.{accepted}
use zhi_file_service_go.Upload.Mode.{SessionMode, inline, direct}
use zhi_file_service_go.Upload.Policy.{
  TenantUploadPolicy, contains_fold, validate_upload_policy, normalize_presign_ttl, is_separator,
  is_dot_or_underscore, or_file, sanitize_file_name,
}

-- Within the limit, or there is no limit: it is not positive.
abbrev pub Within : ℤ → ℤ → Type 0
Within limit size = (leb_ℤ limit (pos 0) ≡ true) ⊎ (leb_ℤ size limit ≡ true)

abbrev pub ModeAllowed : TenantUploadPolicy → SessionMode → ℤ → Type 0
ModeAllowed policy inline size =
    (policy.allow_inline_upload ≡ true) × Within policy.max_inline_size size
ModeAllowed policy direct size = policy.allow_multipart ≡ true
ModeAllowed policy _ size = Unit

-- validateUploadPolicy accepts an upload exactly when its size is within the tenant's limit, its type
-- is among the allowed types if any are named, and its mode is allowed: inline uploads within a limit
-- of their own.
pub validate_upload_policy-accepts_iff :
    (policy : TenantUploadPolicy) (mode : SessionMode) (content_type : Text) (size : ℤ)
    → (validate_upload_policy policy mode content_type size ≡ accepted) ↔ (
        Within policy.max_file_size size
        × ((policy.allowed_mime_types ≡ [])
            ⊎ (contains_fold policy.allowed_mime_types content_type ≡ true))
        × ModeAllowed policy mode size)
unfolding validate_upload_policy
validate_upload_policy-accepts_iff policy mode content_type size = ground arith

-- With a positive default that is within the maximum, the lifetime of a presigned URL is positive and
-- within the maximum, and is the one that was asked for wherever that is so itself.
pub normalize_presign_ttl_bounds :
    (value default_ttl max_ttl : ℤ)
    → ltb_ℤ (pos 0) default_ttl ≡ true
    → leb_ℤ default_ttl max_ttl ≡ true
    → let ttl = normalize_presign_ttl value default_ttl max_ttl in
      (ltb_ℤ (pos 0) ttl ≡ true)
      × (leb_ℤ ttl max_ttl ≡ true)
      × ((ltb_ℤ (pos 0) value && leb_ℤ value max_ttl) ≡ true
          ↔ (ttl ≡ value) × (ltb_ℤ (pos 0) value ≡ true))
unfolding normalize_presign_ttl
normalize_presign_ttl_bounds value default_ttl max_ttl d m = ground arith

All-replaced :
    (s : Text) → All (λ c. is_separator c ≡ false) (map (λ c. if is_separator c then b'_' else c) s)
All-replaced [] = tt
All-replaced (c ∷ s) = (ground arith, All-replaced s)

-- A text that may stand as one segment of an object key.
pub record IsSegment (s : Text) : Type 0 where
  pub given : is_empty s ≡ false
  pub no_separators : All (λ c. is_separator c ≡ false) s
  pub not_hidden : StartsSolid is_dot_or_underscore s

IsSegment-or_file :
    (s : Text)
    → All (λ c. is_separator c ≡ false) s
    → StartsSolid is_dot_or_underscore s
    → IsSegment (or_file s)
IsSegment-or_file [] h f = record { given = refl; no_separators = ground arith; not_hidden = refl }
IsSegment-or_file (c ∷ s) h f = record { given = refl; no_separators = h; not_hidden = f }

-- Whatever the file name, sanitizeFileName returns a text that is not empty, holds no slash, no
-- backslash and no space, and begins with neither a dot nor an underscore.
pub sanitize_file_name-IsSegment : (file_name : Text) → IsSegment (sanitize_file_name file_name)
unfolding sanitize_file_name
sanitize_file_name-IsSegment file_name =
    IsSegment-or_file _ (All-strip is_dot_or_underscore _ _ (All-trim _ _ (All-replaced file_name)))
      (strip-solid is_dot_or_underscore _)
