-- ===== src/Job/Maintenance/Batches.antt =====
-- What holds of every row of a batch, and what a batch leaves of the tables.
use zhi_file_service_go.Common.{
  ◌≡◌, refl, inl, inr, ℕ, zero, suc, ◌+◌, Bool, true, false, Bool-cases, Option, none, some, List,
  [], ◌∷◌, All, any, is_nil, negsuc, take, length, Text, text_eq, text_eq_refl, text_eq_iff, ℤ, pos,
  Time, arith,
}
use mathlib.Core.Path.{subst}
use zhi_file_service_go.Common.Sorting.{sort}
use zhi_file_service_go.Common.Sorting.Laws.{All-sort, sort-nonempty}
use zhi_file_service_go.Xerrors.{Err}
use zhi_file_service_go.Result.{Result, ok, err, Check}
use zhi_file_service_go.Upload.Tables.{Tables, keep_where, update_where}
use zhi_file_service_go.Job.Maintenance.{
  Database, Batch, oldest, is_among, normalize_limit, round_of, in_turn, committed, selected, begun,
  maintained,
}

module _ {ℓ} {A : Type ℓ} where
  pub All-take : (P : A → Type 0) (n : ℕ) (xs : List A) → All P xs → All P (take n xs)
  All-take P zero xs h = tt
  All-take P (suc n) [] h = tt
  All-take P (suc n) (x ∷ xs) h = (h.0, All-take P n xs h.1)

  -- Every row that is kept passes the test and has what every row had.
  pub All-keep_where :
      (P : A → Type 0) (p : A → Bool) (xs : List A)
      → All P xs
      → All (λ x. (p x ≡ true) × P x) (keep_where p xs)
  All-keep_where P p [] h = tt
  All-keep_where P p (x ∷ xs) h = elim (Bool-cases (p x)) [
    | inl e ↦ rw e ((e, h.0), All-keep_where P p xs h.1)
    | inr e ↦ rw e (All-keep_where P p xs h.1)
  ]

  pub All-oldest :
      (P : A → Type 0) (is_due : A → Bool) (time : A → Time) (limit : ℤ) (xs : List A)
      → All P xs
      → All (λ x. (is_due x ≡ true) × P x) (oldest is_due time limit xs)
  unfolding oldest
  All-oldest P is_due time limit xs h =
      All-take _ (normalize_limit limit) _
        (All-sort (λ r. pos (time r)) _ (keep_where is_due xs) (All-keep_where P is_due xs h))

  pub All-update_where :
      (P : A → Type 0) (p : A → Bool) (f : A → A) (xs : List A)
      → ((x : A) → p x ≡ true → P x → P (f x))
      → All P xs
      → All P (update_where p f xs)
  All-update_where P p f [] k h = tt
  All-update_where P p f (x ∷ xs) k h = elim (Bool-cases (p x)) [
    | inl e ↦ rw e (k x e h.0, All-update_where P p f xs k h.1)
    | inr e ↦ rw e (h.0, All-update_where P p f xs k h.1)
  ]

  pub All-zip : (P Q : A → Type 0) (xs : List A) → All P xs → All Q xs → All (λ x. P x × Q x) xs
  All-zip P Q [] h k = tt
  All-zip P Q (x ∷ xs) h k = ((h.0, k.0), All-zip P Q xs h.1 k.1)

  pub All-map : (P Q : A → Type 0) (xs : List A) → ((x : A) → P x → Q x) → All P xs → All Q xs
  All-map P Q [] k h = tt
  All-map P Q (x ∷ xs) k h = (k x h.0, All-map P Q xs k h.1)

module _ {A : Type 0} (db : Database) (ask : ℕ → A → Check) (write : A → Tables → Tables)
    (P : A → Type 0) (Holds : Tables → Type 0)
    (kept : (r : A) (t : Tables) → P r → Holds t → Holds (write r t)) where
  -- What is known of the tables and the rows asked about, while the loop runs.
  abbrev Running : Result Tables × List A → Type 0
  Running (err e, asked) = All P asked
  Running (ok t, asked) = All P asked × Holds t

  Running-round_of :
      (c : Check) (r : A) (rest : Result Tables × List A)
      → P r
      → Running rest
      → Running (round_of db ask write c r rest)
  Running-round_of (err e) r rest p h = (p, tt)
  Running-round_of (ok u) r (err e, asked) p h = (p, h)
  Running-round_of (ok u) r (ok t, asked) p h = ((p, h.0), h.1)

  in_turn-Running :
      (n : ℕ) (rows : List A) (t : Tables)
      → All P rows
      → Holds t
      → Running (in_turn db ask write n rows t)
  unfolding in_turn
  in_turn-Running n [] t p h = (tt, h)
  in_turn-Running n (r ∷ rs) t p h =
      Running-round_of _ r (in_turn db ask write (n + 1) rs (write r t)) p.0
        (in_turn-Running (n + 1) rs (write r t) p.1 (kept r t p.0 h))

  abbrev Ended : Batch A → Type 0
  Ended b = All P b.asked × Holds b.tables

  committed-Ended :
      (fault : Option Err) (count : ℕ) (t : Tables) (r : Result Tables × List A)
      → Holds t
      → Running r
      → Ended (committed db ask write fault count t r)
  committed-Ended fault count t (err e, asked) h r = (r, h)
  committed-Ended none count t (ok u, asked) h r = r
  committed-Ended (some e) count t (ok u, asked) h r = (r.0, h)

  selected-Ended :
      (fault : Option Err) (rows : List A) (t : Tables)
      → All P rows
      → Holds t
      → Ended (selected db ask write fault rows t)
  unfolding selected
  selected-Ended (some e) rows t p h = (tt, h)
  selected-Ended none rows t p h =
      committed-Ended (db.fault 2) (length rows) t (in_turn db ask write 0 rows t) h
        (in_turn-Running 0 rows t p h)

  begun-Ended :
      (fault : Option Err) (rows : List A) (t : Tables)
      → All P rows
      → Holds t
      → Ended (begun db ask write fault rows t)
  unfolding begun
  begun-Ended (some e) rows t p h = (tt, h)
  begun-Ended none rows t p h = selected-Ended (db.fault 1) rows t p h

  -- Whatever fails, a property of the tables that each write keeps is kept by the batch, and the
  -- storage is asked about rows of the batch only.
  pub maintained-Ended :
      (rows : List A) (t : Tables)
      → All P rows
      → Holds t
      → All P (maintained db ask write rows t).asked × Holds (maintained db ask write rows t).tables
  unfolding maintained
  maintained-Ended rows t p h = elim (Bool-cases db.has_storage) [
    | inl e ↦ rw e (begun-Ended (db.fault 0) rows t p h)
    | inr e ↦ rw e (tt, h)
  ]

-- A row of the batch is among it.
pub is_among-head {ℓ} :
    {A : Type ℓ} (key : A → Text) (r : A) (rows : List A) → is_among key (r ∷ rows) r ≡ true
unfolding is_among
is_among-head key r rows = rw (text_eq_refl (key r)) refl

normalize_limit_positive : (limit : ℤ) → (n : ℕ) × (normalize_limit limit ≡ suc n)
unfolding normalize_limit
normalize_limit_positive (pos zero) = (99, refl)
normalize_limit_positive (pos (suc n)) = (n, refl)
normalize_limit_positive (negsuc n) = (99, refl)

module _ {ℓ} {A : Type ℓ} where
  take-nonempty : (n : ℕ) (xs : List A) → is_nil xs ≡ false → is_nil (take (suc n) xs) ≡ false
  take-nonempty n [] h = h
  take-nonempty n (x ∷ xs) h = refl

  sort_of_nonempty : (key : A → ℤ) (xs : List A) → is_nil xs ≡ false → is_nil (sort key xs) ≡ false
  sort_of_nonempty key [] h = absurd (ground arith)
  sort_of_nonempty key (x ∷ xs) h = sort-nonempty key x xs

  -- A batch takes something while anything is due.
  pub oldest-nonempty :
      (is_due : A → Bool) (time : A → Time) (limit : ℤ) (rows : List A)
      → is_nil (keep_where is_due rows) ≡ false
      → is_nil (oldest is_due time limit rows) ≡ false
  unfolding oldest
  oldest-nonempty is_due time limit rows h =
      let (n, e) = normalize_limit_positive limit in
      rw e (
        take-nonempty n (sort (λ r. pos (time r)) (keep_where is_due rows))
          (sort_of_nonempty (λ r. pos (time r)) (keep_where is_due rows) h))

module _ {ℓ} {A : Type ℓ} (key : A → Text) where
  -- What holds of every key of the rows holds of the key of what is among them.
  pub is_among-key :
      (P : Text → Type 0) (rows : List A) (e : A)
      → All (λ c. P (key c)) rows
      → is_among key rows e ≡ true
      → P (key e)
  unfolding is_among
  is_among-key P [] e h k = absurd (ground arith)
  is_among-key P (c ∷ cs) e h k = elim (Bool-cases (text_eq (key c) (key e))) [
    | inl here ↦ subst P ((text_eq_iff (key c) (key e)).0 here) h.0
    | inr past ↦ is_among-key P cs e h.1 (ground arith)
  ]

  pub is_among-along :
      (chosen : List A) (b : Bool) (rows : List A) (e : A)
      → All (λ c. is_among key chosen c ≡ b) rows
      → is_among key rows e ≡ true
      → is_among key chosen e ≡ b
  unfolding is_among
  is_among-along chosen b = is_among-key λ v. any (λ x. text_eq (key x) v) chosen ≡ b
