-- ===== src/Upload/Parts.antt =====
-- The lists of parts that requests and storage providers hand over: normalizeUploadedParts and
-- toSessionPartRecords of app/commands/complete_upload_session.go, and validatePresignPartNumbers
-- of app/commands/presign_multipart_parts.go. The map `seen` is the list of its keys. The loops
-- append to a slice that they drop on an error; here the rest of the list is checked first.
pub mod Checked
pub mod Normalized
use zhi_file_service_go.Common.{
  Bool, List, [], ◌∷◌, map, any, if◌then◌else◌, ℤ, pos, ltb_ℤ, eq_ℤ, String, Text, trim, Time, utc,
}
use zhi_file_service_go.Common.Sorting.{sort}
use zhi_file_service_go.Xerrors.{Err, new, invalid_argument, name, int}
use zhi_file_service_go.Result.{Result, ok, err, ◌>>=◌}
use zhi_file_service_go.Storage.{UploadedPart}

-- _, ok := seen[n]
abbrev pub was_seen : ℤ → List ℤ → Bool
was_seen n seen = any (eq_ℤ n) seen

abbrev pub part_number_error : String → String → ℤ → Err
part_number_error message field n =
    new invalid_argument message (("field", name field) ∷ ("partNumber", int n) ∷ [])

abbrev pub trimmed : UploadedPart → UploadedPart
trimmed p = record {
  part_number = p.part_number;
  etag = trim p.etag;
  size_bytes = p.size_bytes;
  checksum = trim p.checksum;
}

abbrev pub part_key : UploadedPart → ℤ
part_key p = p.part_number

-- The first loop of normalizeUploadedParts.
unfoldable pub check_parts : List ℤ → List UploadedPart → Result (List UploadedPart)
check_parts seen [] = ok []
check_parts seen (p ∷ ps) =
    let rest = check_parts (p.part_number ∷ seen) ps >>= λ checked. ok (trimmed p ∷ checked) in
    if ltb_ℤ p.part_number (pos 1)
    then err (part_number_error "part number must be >= 1" "uploadedParts.partNumber" p.part_number)
    else if was_seen p.part_number seen
    then err (part_number_error "duplicate part number" "uploadedParts.partNumber" p.part_number)
    else rest

-- normalizeUploadedParts, its second loop an insertion sort
unfoldable pub normalize_uploaded_parts : List UploadedPart → Result (List UploadedPart)
unfolding check_parts
normalize_uploaded_parts parts = do checked ← check_parts [] parts; ok (sort part_key checked)

-- The loop of validatePresignPartNumbers; a PresignMultipartPart is its number.
unfoldable pub check_numbers : List ℤ → List ℤ → Result (List ℤ)
check_numbers seen [] = ok []
check_numbers seen (n ∷ ns) =
    let rest = check_numbers (n ∷ seen) ns >>= λ checked. ok (n ∷ checked) in
    if ltb_ℤ n (pos 1)
    then err (part_number_error "part number must be >= 1" "parts.partNumber" n)
    else if was_seen n seen
    then err (part_number_error "part number must be unique" "parts.partNumber" n)
    else rest

abbrev pub number_key : ℤ → ℤ
number_key n = n

sorted_numbers : List ℤ → Result (List ℤ)
unfolding check_numbers
sorted_numbers ns = do checked ← check_numbers [] ns; ok (sort number_key checked)

-- validatePresignPartNumbers
unfoldable pub validate_presign_part_numbers : List ℤ → Result (List ℤ)
unfolding sorted_numbers
validate_presign_part_numbers [] =
    err (new invalid_argument "at least one part is required" (("field", name "parts") ∷ []))
validate_presign_part_numbers (n ∷ ns) = sorted_numbers (n ∷ ns)

-- SessionPartRecord of ports/session_part_repository.go
pub record SessionPartRecord : Type 0 where
  pub upload_session_id : Text
  pub part_number : ℤ
  pub etag : Text
  pub part_size : ℤ
  pub checksum : Text
  pub uploaded_at : Time

-- toSessionPartRecords
unfoldable pub to_session_part_records : Text → List UploadedPart → Time → List SessionPartRecord
to_session_part_records id [] uploaded_at = []
to_session_part_records id (p ∷ ps) uploaded_at =
    record {
      upload_session_id = id;
      part_number = p.part_number;
      etag = trim p.etag;
      part_size = p.size_bytes;
      checksum = trim p.checksum;
      uploaded_at = utc uploaded_at;
    }
    ∷ to_session_part_records id ps uploaded_at
