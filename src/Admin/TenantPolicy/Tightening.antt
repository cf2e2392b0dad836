-- ===== src/Admin/TenantPolicy/Tightening.antt =====
-- What a change of a policy that is not counted as tightening leaves possible.
use zhi_file_service_go.Common.{
  text_eq, text_eq_iff, Bool-cases, ◌≡◌, ◌≢◌, inl, inr, true, false, Option, none, some, List, [],
  ◌∷◌, Text, ℤ, leb_ℤ, arith,
}
use zhi_file_service_go.Admin.Context.{contains}
use zhi_file_service_go.Admin.TenantPolicy.{
  TenantPolicy, TenantPolicyPatch, is_empty_policy_patch, apply_to, limit_tightens, items, all_in,
  string_set_tightens, tightens_compared_to,
}

-- An amount is within a limit that may be absent.
abbrev pub Permits : Option ℤ → ℤ → Type 0
Permits none amount = Unit
Permits (some limit) amount = leb_ℤ amount limit ≡ true

limit_keeps :
    (current next : Option ℤ) (amount : ℤ)
    → limit_tightens current next ≡ false
    → Permits current amount
    → Permits next amount
unfolding limit_tightens
limit_keeps current next amount t h = ground arith

record LimitsKept (current next : TenantPolicy) : Type 0 where
  storage : limit_tightens current.max_storage_bytes next.max_storage_bytes ≡ false
  count : limit_tightens current.max_file_count next.max_file_count ≡ false
  single : limit_tightens current.max_single_file_size next.max_single_file_size ≡ false

kept_of_tightens :
    (current next : TenantPolicy)
    → tightens_compared_to next current ≡ false
    → LimitsKept current next
unfolding tightens_compared_to
kept_of_tightens current next t = ground arith

-- If a policy is not counted as tightening another, every storage size, file count and file size that
-- the other permits it permits too.
pub Permits-of_not_tightening :
    (current next : TenantPolicy) (storage count single : ℤ)
    → tightens_compared_to next current ≡ false
    → Permits current.max_storage_bytes storage
    → Permits current.max_file_count count
    → Permits current.max_single_file_size single
    → Permits next.max_storage_bytes storage
      × Permits next.max_file_count count
      × Permits next.max_single_file_size single
Permits-of_not_tightening current next storage count single t s c f =
    let kept = kept_of_tightens current next t in
    (
      limit_keeps current.max_storage_bytes next.max_storage_bytes storage kept.storage s,
      limit_keeps current.max_file_count next.max_file_count count kept.count c,
      limit_keeps current.max_single_file_size next.max_single_file_size single kept.single f,
    )

string_set_self : (values : List Text) → string_set_tightens values values ≡ false
unfolding string_set_tightens
string_set_self values = ground arith

tightens_self : (p : TenantPolicy) → tightens_compared_to p p ≡ false
unfolding tightens_compared_to
tightens_self p = ground (
  arith,
  string_set_self (items p.allowed_mime_types),
  string_set_self (items p.allowed_extensions),
)

apply_empty :
    (p : TenantPolicyPatch) (current : TenantPolicy)
    → is_empty_policy_patch p ≡ true
    → apply_to p current ≡ current
unfolding is_empty_policy_patch apply_to
apply_empty p current h = ground arith

-- A patch that IsEmpty calls empty changes nothing, and so tightens nothing.
pub empty_patch_is_neutral :
    (p : TenantPolicyPatch) (current : TenantPolicy)
    → is_empty_policy_patch p ≡ true
    → (apply_to p current ≡ current) × (tightens_compared_to (apply_to p current) current ≡ false)
empty_patch_is_neutral p current h =
    let same = apply_empty p current h in (same, rw same (tightens_self current))

all_in_misses :
    (current next : List Text) (w : Text)
    → contains next w ≡ true
    → contains current w ≡ false
    → all_in current next ≡ false
unfolding all_in
all_in_misses current [] w h m = ground arith
all_in_misses current (v ∷ vs) w h m = elim (Bool-cases (text_eq v w)) [
  | inl e ↦ rw ((text_eq_iff v w).0 e) (rw m)
  | inr e ↦ ground (arith, all_in_misses current vs w)
]

-- A list of allowed values that names one new value is not counted as tightening a list that is not
-- empty, whatever values of that list it drops.
pub swap_is_not_tightening :
    (current next : List Text) (added : Text)
    → current ≢ []
    → contains next added ≡ true
    → contains current added ≡ false
    → string_set_tightens current next ≡ false
unfolding string_set_tightens
swap_is_not_tightening current next added n h m = ground (arith, all_in_misses current next added)
