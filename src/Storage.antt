-- ===== src/Storage.antt =====
-- pkg/storage/types.go: references to objects, and what a storage provider reports of them.
use zhi_file_service_go.Common.{Text, text, is_empty, ℤ}
use zhi_file_service_go.Xerrors.{annotated, sentinel, invalid_bucket_config}
use zhi_file_service_go.Result.{◌>>◌, refuse, Check, accepted}

-- A string type of which the source reads only whether it is empty.
abbrev pub Provider : Type 0
Provider = Text

-- A string type: the two constants, and any other string.
pub data AccessLevel : Type 0 where
  public private : AccessLevel
  other : Text → AccessLevel

abbrev pub access_level_text : AccessLevel → Text
access_level_text public = text "PUBLIC"
access_level_text private = text "PRIVATE"
access_level_text (other s) = s

pub record BucketRef : Type 0 where
  pub provider : Provider
  pub bucket_name : Text
  pub public_base : Text

pub record ObjectRef : Type 0 where
  pub provider : Provider
  pub bucket_name : Text
  pub object_key : Text

-- ObjectRef.Validate
unfoldable pub validate_ref : ObjectRef → Check
validate_ref r = do
  refuse (is_empty r.provider) (annotated "provider is required" (sentinel invalid_bucket_config))
  refuse (is_empty r.bucket_name)
      (annotated "bucket name is required" (sentinel invalid_bucket_config))
  refuse (is_empty r.object_key)
      (annotated "object key is required" (sentinel invalid_bucket_config))
  accepted

pub record UploadedPart : Type 0 where
  pub part_number : ℤ
  pub etag : Text
  pub size_bytes : ℤ
  pub checksum : Text

pub record ObjectMetadata : Type 0 where
  pub size_bytes : ℤ
  pub content_type : Text
  pub etag : Text
  pub checksum : Text
  pub version_id : Text
