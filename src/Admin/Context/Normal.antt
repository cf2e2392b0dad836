-- ===== src/Admin/Context/Normal.antt =====
-- What the normalisation of an administrator's claims keeps.
use zhi_file_service_go.Common.{
  ◌≡◌, refl, ap, sym, ◌∙◌, ◌⊎◌, inl, inr, Bool, true, false, ◌||◌, is_some, List, [], ◌∷◌, All, any,
  Text, text_eq, trim, arith,
}
use zhi_file_service_go.Common.Sorting.{sort}
use zhi_file_service_go.Common.Sorting.Laws.{All-sort}
use zhi_file_service_go.Common.Sorting.Distinct.{Differs, IsDistinct, IsStrict, sort-IsStrict}
use zhi_file_service_go.Result.{Result, ok, err, ◌>>=◌, Result-cases}
use zhi_file_service_go.Admin.Context.{
  Role, role_of_text, role_rank, same_role, rank_key, collect_roles, sort_roles, normalize_roles,
}

abbrev pub IsKnown : Role → Type 0
IsKnown (Role.other s) = ⊥
IsKnown _ = Unit

-- The role is none of those that were seen.
abbrev IsNew : List Role → Role → Type 0
IsNew seen role = any (same_role role) seen ≡ false

-- Of the roles that the loop collects each is known, none was seen, and no two are the same.
record AreCollected (seen roles : List Role) : Type 0 where
  known : All IsKnown roles
  fresh : All (IsNew seen) roles
  distinct : IsDistinct rank_key roles

Differs-of_other :
    (a b : Role) → IsKnown a → IsKnown b → same_role b a ≡ false → Differs rank_key a b
unfolding text_eq
Differs-of_other a b ka kb h = ground arith

or_false : (a b : Bool) → (a || b) ≡ false → (a ≡ false) × (b ≡ false)
or_false a b h = ground arith

Differs-of_new :
    (role : Role) (seen roles : List Role)
    → IsKnown role
    → All IsKnown roles
    → All (IsNew (role ∷ seen)) roles
    → All (Differs rank_key role) roles
Differs-of_new role seen [] k ks f = tt
Differs-of_new role seen (r ∷ roles) k ks f =
    (Differs-of_other role r k ks.0 (or_false _ _ f.0).0, Differs-of_new role seen roles k ks.1 f.1)

fresh_tail :
    (role : Role) (seen roles : List Role)
    → All (IsNew (role ∷ seen)) roles
    → All (IsNew seen) roles
fresh_tail role seen [] f = tt
fresh_tail role seen (r ∷ roles) f = ((or_false _ _ f.0).1, fresh_tail role seen roles f.1)

IsKnown-of_rank : (role : Role) → is_some (role_rank role) ≡ true → IsKnown role
unfolding role_rank
IsKnown-of_rank role h = ground arith

-- The steps of the loop, with the role of the first value named.
module _ (seen : List Role) (value : Text) (values : List Text) where
  collect_step :
      (roles : List Role)
      → collect_roles seen (value ∷ values) ≡ ok roles
      → (collect_roles seen values ≡ ok roles)
        ⊎ ((is_some (role_rank (role_of_text (trim value))) ≡ true)
            × IsNew seen (role_of_text (trim value))
            × ((collect_roles (role_of_text (trim value) ∷ seen) values >>= λ rest.
                  ok (role_of_text (trim value) ∷ rest))
                ≡ ok roles))
  unfolding collect_roles
  collect_step roles h = ground arith

-- What the first role adds to those that the loop collects after it.
module _ (seen : List Role) (role : Role) (k : is_some (role_rank role) ≡ true)
    (f : IsNew seen role) where
  first-AreCollected :
      (rest : List Role) → AreCollected (role ∷ seen) rest → AreCollected seen (role ∷ rest)
  first-AreCollected rest c = record {
    known = (IsKnown-of_rank role k, c.known);
    fresh = (f, fresh_tail role seen rest c.fresh);
    distinct = (Differs-of_new role seen rest (IsKnown-of_rank role k) c.known c.fresh, c.distinct);
  }

  more-AreCollected :
      (result : Result (List Role)) (roles : List Role)
      → ((rest : List Role) → result ≡ ok rest → AreCollected (role ∷ seen) rest)
      → (result >>= λ rest. ok (role ∷ rest)) ≡ ok roles
      → AreCollected seen roles
  more-AreCollected (err e) roles c h = absurd (ground arith)
  more-AreCollected (ok rest) roles c h = rw (← same h) (first-AreCollected rest (c rest refl))
    where
      same : ok (role ∷ rest) ≡ ok roles → role ∷ rest ≡ roles
      same h = ground arith

collected :
    (seen : List Role) (values : List Text) (roles : List Role)
    → collect_roles seen values ≡ ok roles
    → AreCollected seen roles
unfolding collect_roles
collected seen [] roles h = rw (← none_left h) (record { known = tt; fresh = tt; distinct = tt })
  where
    none_left : ok [] ≡ ok roles → [] ≡ roles
    none_left e = ground arith
collected seen (value ∷ values) roles h = elim (collect_step seen value values roles h) [
  | inl same ↦ collected seen values roles same
  | inr (k, f, e) ↦
      more-AreCollected seen (role_of_text (trim value)) k f
        (collect_roles (role_of_text (trim value) ∷ seen) values) roles
        (collected (role_of_text (trim value) ∷ seen) values) e
]

sorted_result :
    (found roles : List Role) → sort_roles found ≡ ok roles → roles ≡ sort rank_key found
unfolding sort_roles
sorted_result [] roles h = absurd (ground arith)
sorted_result (r ∷ found) roles h = ground arith

-- If normalizeRoles accepts the claimed roles, the result holds known roles only, in strictly
-- ascending order of their rank, so each at most once.
pub normalize_roles-IsStrict :
    (values : List Text) (roles : List Role)
    → normalize_roles values ≡ ok roles
    → IsStrict rank_key roles × All IsKnown roles
unfolding normalize_roles sort_roles
normalize_roles-IsStrict values roles h = elim (Result-cases (collect_roles [] values)) [
  | inl (found, e) ↦
      let c = collected [] values found e in
      rw (sorted_result found roles (sym (ap (λ r. r >>= sort_roles) e) ∙ h))
        (sort-IsStrict rank_key found c.distinct, All-sort rank_key IsKnown found c.known)
  | inr (x, e) ↦ absurd (ground arith)
]
