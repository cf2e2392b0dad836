-- ===== src/Admin/TenantPolicy/Tightens.antt =====
-- What counts as tightening, by the fields that a patch gives.
use zhi_file_service_go.Common.{
  ◌≡◌, ◌↔◌, ◌⊎◌, ◌||◌, refl, inl, inr, Bool, true, false, Option, none, some, List, [], ◌∷◌, All,
  is_nil, length, ltb, Text, ℤ, ltb_ℤ, arith,
}
use zhi_file_service_go.Admin.Context.{contains}
use zhi_file_service_go.Admin.TenantPolicy.{
  TenantPolicy, TenantPolicyPatch, patched, apply_to, limit_tightens, items, all_in,
  string_set_tightens, bool_tightens, tightens_compared_to,
}

-- The patch gives a limit where there was none, or a lower one.
abbrev pub IsLowered : Option ℤ → Option ℤ → Type 0
IsLowered none current = ⊥
IsLowered (some given) none = Unit
IsLowered (some given) (some current) = ltb_ℤ given current ≡ true

-- The patch gives a list of allowed values that is not empty, where all were allowed or where it has
-- values of the current list only and is shorter.
abbrev pub IsNarrowed : Option (List Text) → Option (List Text) → Type 0
IsNarrowed none current = ⊥
IsNarrowed (some given) current =
    (is_nil given ≡ false)
    × (is_nil (items current) ≡ true
        ⊎ (All (λ value. contains (items current) value ≡ true) given
            × (ltb (length given) (length (items current)) ≡ true)))

-- The patch turns off what was on.
abbrev pub IsTurnedOff : Option Bool → Option Bool → Type 0
IsTurnedOff (some false) (some true) = Unit
IsTurnedOff given current = ⊥

-- One of the limits is lowered.
abbrev LowersLimit : TenantPolicyPatch → TenantPolicy → Type 0
LowersLimit patch current =
    (IsLowered patch.max_storage_bytes current.max_storage_bytes
      ⊎ IsLowered patch.max_file_count current.max_file_count)
    ⊎ IsLowered patch.max_single_file_size current.max_single_file_size

abbrev pub Tightens : TenantPolicyPatch → TenantPolicy → Type 0
Tightens patch current =
    ((LowersLimit patch current ⊎ IsNarrowed patch.allowed_mime_types current.allowed_mime_types)
      ⊎ IsNarrowed patch.allowed_extensions current.allowed_extensions)
    ⊎ IsTurnedOff patch.auto_create_enabled current.auto_create_enabled

limit_iff :
    (given current : Option ℤ)
    → (limit_tightens current (patched given current) ≡ true) ↔ IsLowered given current
unfolding limit_tightens
limit_iff none none = ground arith
limit_iff none (some c) = ground arith
limit_iff (some g) none = ground arith
limit_iff (some g) (some c) = ground arith

all_in_iff :
    (current given : List Text)
    → (all_in current given ≡ true) ↔ All (λ value. contains current value ≡ true) given
unfolding all_in
all_in_iff current [] = ground arith
all_in_iff current (v ∷ vs) = ground (arith, all_in_iff current vs)

set_iff :
    (given current : Option (List Text))
    → (string_set_tightens (items current) (items (patched given current)) ≡ true)
      ↔ IsNarrowed given current
unfolding string_set_tightens
set_iff none current = ground arith
set_iff (some []) current = ground arith
set_iff (some (v ∷ vs)) current = ground (arith, all_in_iff (items current) (v ∷ vs))

bool_iff :
    (given current : Option Bool)
    → (bool_tightens current (patched given current) ≡ true) ↔ IsTurnedOff given current
unfolding bool_tightens
bool_iff none none = ground arith
bool_iff none (some true) = ground arith
bool_iff none (some false) = ground arith
bool_iff (some true) none = ground arith
bool_iff (some false) none = ground arith
bool_iff (some true) (some true) = ground arith
bool_iff (some true) (some false) = ground arith
bool_iff (some false) (some true) = ground arith
bool_iff (some false) (some false) = ground arith

or_iff : {P Q : Type 0} (a b : Bool) → (a ≡ true) ↔ P → (b ≡ true) ↔ Q → ((a || b) ≡ true) ↔ (P ⊎ Q)
or_iff true b h k = (λ e. inl (h.0 refl), λ x. refl)
or_iff false true h k = (λ e. inr (k.0 refl), λ x. refl)
or_iff false false h k = (
  λ e. absurd (ground (arith, e)),
  λ x. elim x [ inl p ↦ absurd (ground (arith, h.1 p)) | inr q ↦ k.1 q ],
)

pub tightens_compared_to_iff :
    (patch : TenantPolicyPatch) (current : TenantPolicy)
    → (tightens_compared_to (apply_to patch current) current ≡ true) ↔ Tightens patch current
unfolding tightens_compared_to apply_to
tightens_compared_to_iff patch current =
    let storage = limit_iff patch.max_storage_bytes current.max_storage_bytes in
    let count = limit_iff patch.max_file_count current.max_file_count in
    let single = limit_iff patch.max_single_file_size current.max_single_file_size in
    let mime = set_iff patch.allowed_mime_types current.allowed_mime_types in
    let extension = set_iff patch.allowed_extensions current.allowed_extensions in
    let auto = bool_iff patch.auto_create_enabled current.auto_create_enabled in
    let limits = or_iff _ _ (or_iff _ _ storage count) single in
    or_iff _ _ (or_iff _ _ (or_iff _ _ limits mime) extension) auto
