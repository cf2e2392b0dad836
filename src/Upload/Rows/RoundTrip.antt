-- ===== src/Upload/Rows/RoundTrip.antt =====
-- What is written of a session is read back.
use zhi_file_service_go.Common.{
  ◌≡◌, refl, ap, sym, ◌∙◌, false, Option, none, some, [], ◌∷◌, Text, Time, is_zero, ◌%◌, arith,
}
use zhi_file_service_go.Result.{ok}
use zhi_file_service_go.Upload.Session.{Session}
use zhi_file_service_go.Upload.Hash.{ContentHash}
use zhi_file_service_go.Upload.Validation.{normalize_params, fill_total_parts, new_session}
use zhi_file_service_go.Upload.Validation.Facts.{IsValid}
use zhi_file_service_go.Upload.Validation.Exact.{new_session-ok_iff, fill_of_IsValid}
use zhi_file_service_go.Upload.Rows.{
  null_string, null_time, string_of, time_ptr, hash_value, hash_algorithm_column, hash_of, to_row,
  row_params, from_row,
}

string_of-null_string : (s : Text) → string_of (null_string s) ≡ s
unfolding null_string
string_of-null_string [] = refl
string_of-null_string (c ∷ s) = refl

-- A pointer to the zero time is written as NULL, as no pointer is.
abbrev pub IsNonzero : Option Time → Type 0
IsNonzero none = Unit
IsNonzero (some t) = is_zero t ≡ false

time_ptr-null_time : (t : Option Time) → IsNonzero t → time_ptr (null_time t) ≡ t
unfolding time_ptr null_time
time_ptr-null_time none h = refl
time_ptr-null_time (some t) h = ground arith

hash_of-columns : (h : Option ContentHash) → hash_of (hash_value h) (hash_algorithm_column h) ≡ h
unfolding hash_value hash_algorithm_column
hash_of-columns none = refl
hash_of-columns (some h) = refl

pub record TimesGiven (s : Session) : Type 0 where
  pub started : IsNonzero s.completion_started_at
  pub completed : IsNonzero s.completed_at
  pub aborted : IsNonzero s.aborted_at
  pub failed : IsNonzero s.failed_at

pub row_params-to_row : (s : Session) → TimesGiven s → row_params (to_row s) ≡ s
unfolding row_params to_row
row_params-to_row s g =
    rw
      (
        string_of-null_string s.content_type,
        string_of-null_string s.provider_upload_id,
        string_of-null_string s.file_id,
        string_of-null_string s.completion_token,
        string_of-null_string s.failure_code,
        string_of-null_string s.failure_message,
        string_of-null_string s.resumed_from_session_id,
        string_of-null_string s.idempotency_key,
        hash_of-columns s.hash,
        time_ptr-null_time s.completion_started_at g.started,
        time_ptr-null_time s.completed_at g.completed,
        time_ptr-null_time s.aborted_at g.aborted,
        time_ptr-null_time s.failed_at g.failed,
      )
      refl

-- The instant has no digits below the microsecond, which is as much as a column TIMESTAMPTZ keeps.
abbrev pub IsWhole : Time → Type 0
IsWhole t = t % 1000 ≡ 0

abbrev pub IsWholeIfAny : Option Time → Type 0
IsWholeIfAny none = Unit
IsWholeIfAny (some t) = IsWhole t

-- Of each time of the session the columns keep every digit.
pub record FitsColumns (s : Session) : Type 0 where
  pub created : IsWhole s.created_at
  pub updated : IsWhole s.updated_at
  pub expires : IsWhole s.expires_at
  pub started : IsWholeIfAny s.completion_started_at
  pub completed : IsWholeIfAny s.completed_at
  pub aborted : IsWholeIfAny s.aborted_at
  pub failed : IsWholeIfAny s.failed_at

-- A valid session whose fields are normalised as NewSession does it, none of whose times is the zero
-- time, and all of whose times are whole microseconds, is read back from its row as it was written.
pub from_row-to_row :
    (s : Session)
    → IsValid s
    → normalize_params s ≡ s
    → TimesGiven s
    → FitsColumns s
    → from_row (to_row s) ≡ ok s
unfolding from_row
from_row-to_row s v n g fits =
    ap new_session (row_params-to_row s g)
    ∙ (new_session-ok_iff s s).1 (sym (ap fill_total_parts n ∙ fill_of_IsValid s v), v)
