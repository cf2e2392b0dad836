-- ===== src/Result.antt =====
-- What a Go function that returns (value, error) gives: a value, or an error that is not nil.
use zhi_file_service_go.Common.{◌≡◌, refl, ◌⊎◌, inl, inr, ◌↔◌, Bool, true, false, arith}
use zhi_file_service_go.Xerrors.{Err}

pub data Result {ℓ} (V : Type ℓ) : Type ℓ where
  err : Err → Result V
  ok : V → Result V

-- if b { return e }
abbrev pub refuse : Bool → Err → Result (Unit {0})
refuse false e = ok tt
refuse true e = err e

infixl 5 ◌>>=◌
-- if err != nil { return err }
abbrev pub ◌>>=◌ {ℓ κ} : {V : Type ℓ} {W : Type κ} → Result V → (V → Result W) → Result W
err e >>= next = err e
ok v >>= next = next v

infixl 5 ◌>>◌
abbrev pub ◌>>◌ {κ} : {W : Type κ} → Result (Unit {0}) → Result W → Result W
err e >> after = err e
ok u >> after = after

-- A check: nil, or the error.
abbrev pub Check : Type 0
Check = Result (Unit {0})

abbrev pub accepted : Check
accepted = ok tt

-- A sequence of checks passes exactly when each does.
pub >>-eq-ok : (m k : Check) → ((m >> k) ≡ accepted) ↔ ((m ≡ accepted) × (k ≡ accepted))
>>-eq-ok (ok tt) k = ground arith
>>-eq-ok (err e) k = ground arith

pub refuse-eq-ok : (b : Bool) (e : Err) → (refuse b e ≡ accepted) ↔ (b ≡ false)
refuse-eq-ok b e = ground arith

-- To split on a computed result and keep the equation.
pub Result-cases {ℓ} :
    {A : Type ℓ} (r : Result A) → ((a : A) × (r ≡ ok a)) ⊎ ((e : Err) × (r ≡ err e))
Result-cases (ok a) = inl (a, refl)
Result-cases (err e) = inr (e, refl)
