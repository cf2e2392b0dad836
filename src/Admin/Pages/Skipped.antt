-- ===== src/Admin/Pages/Skipped.antt =====
-- The cursor of a page names the first row that the page left out, and the next page begins behind it.
use zhi_file_service_go.Common.{
  ◌≡◌, refl, ap, sym, ◌∙◌, inl, inr, ◌+◌, ℕ, zero, suc, Bool, true, false, Bool-cases, ◌&&◌, ◌||◌,
  Option, none, some, List, [], ◌∷◌, ◌++◌, take, All, if◌then◌else◌, Text, trim, is_empty, is_blank,
  ℤ, Time, is_zero, arith,
}
use mathlib.Core.Path.{subst}
use zhi_file_service_go.Result.{Result, ok, err, ◌>>=◌, Result-cases}
use zhi_file_service_go.Job.Outbox.{positive_or}
use zhi_file_service_go.Job.Maintenance.Batches.{All-take, All-keep_where, All-map}
use zhi_file_service_go.Admin.Pages.Keyed.{
  take-drop, AreApart, before-Apart, newest_first-All, page_rows-AreApart,
}
use zhi_file_service_go.Admin.Pages.{
  CursorValue, PageEnv, drop, encode_cursor, decode_cursor, is_before, cursor_of, trimmed,
  trim_page, after_cursor, read_cursor, page_rows, list_page, wrapped_cursor, cursor_checked,
}

-- What is relied on: the order of the database is strict, and a cursor that was encoded is decoded.
pub record IsFaithful (env : PageEnv) : Type 0 where
  pub strict : (id : Text) → env.id_before id id ≡ false
  pub decodes : (c : CursorValue) (s : Text) → env.encode c ≡ ok s → env.decode (trim s) ≡ some c

All-drop : {A : Type 0} (P : A → Type 0) (n : ℕ) (xs : List A) → All P xs → All P (drop n xs)
All-drop P zero xs h = h
All-drop P (suc n) [] h = tt
All-drop P (suc n) (x ∷ xs) h = All-drop P n xs h.1

module _ (env : PageEnv) {A : Type 0} (created : A → Time) (key : A → Text) where
  -- Every row of a page matches, stands behind the cursor, and was in the table.
  All-page_rows :
      (P : A → Type 0) (matches : A → Bool) (c : Option CursorValue) (limit : ℕ) (rows : List A)
      → All P rows
      → All
          (λ x. ((matches x && after_cursor env created key c x) ≡ true) × P x)
          (page_rows env created key matches c limit rows)
  unfolding page_rows
  All-page_rows P matches c limit rows h = All-take _ (limit + 1) _ (
      newest_first-All key env created _ _
        (All-keep_where P (λ x. matches x && after_cursor env created key c x) rows h))

  -- What a page that is answered was made of.
  record Paged (matches : A → Bool) (cursor : Text) (limit : ℤ) (rows items : List A) (next : Text)
      : Type 0 where
    start : Option CursorValue
    read : read_cursor env created key cursor ≡ ok start
    trims :
        trim_page env created key
          (page_rows env created key matches start (positive_or limit 50) rows)
          (positive_or limit 50)
        ≡ ok (items, next)

  Paged-of_read :
      (matches : A → Bool) (cursor : Text) (limit : ℤ) (rows items : List A) (next : Text)
      (r : Result (Option CursorValue))
      → read_cursor env created key cursor ≡ r
      → (r >>= λ c.
          trim_page env created key
            (page_rows env created key matches c (positive_or limit 50) rows)
            (positive_or limit 50))
        ≡ ok (items, next)
      → Paged matches cursor limit rows items next
  Paged-of_read matches cursor limit rows items next (err e) same h = absurd (ground arith)
  Paged-of_read matches cursor limit rows items next (ok c) same h = record {
    start = c;
    read = same;
    trims = h;
  }

  list_page-Paged :
      (matches : A → Bool) (cursor : Text) (limit : ℤ) (rows items : List A) (next : Text)
      → list_page env created key matches cursor limit rows ≡ ok (items, next)
      → Paged matches cursor limit rows items next
  unfolding list_page
  list_page-Paged matches cursor limit rows items next h =
      Paged-of_read matches cursor limit rows items next (read_cursor env created key cursor) refl h

  -- The row that a page left out first, and the cursor to it.
  record LeftOut (limit : ℕ) (found items : List A) (next : Text) : Type 0 where
    row : A
    rest : List A
    at_place : drop limit found ≡ row ∷ rest
    shown : take limit found ≡ items
    names : encode_cursor env (created row) (key row) ≡ ok next

  LeftOut-of_drop :
      (limit : ℕ) (found dropped items : List A) (next : Text)
      → is_empty next ≡ false
      → drop limit found ≡ dropped
      → trimmed env created key limit found dropped ≡ ok (items, next)
      → LeftOut limit found items next
  LeftOut-of_drop limit found [] items next more e h = absurd (ground arith)
  LeftOut-of_drop limit found (x ∷ rest) items next more e h = record {
    row = x;
    rest = rest;
    at_place = e;
    shown = elim (Result-cases (encode_cursor env (created x) (key x))) [
      | inl (s, k) ↦ ground (arith, k, h)
      | inr (bad, k) ↦ absurd (ground (arith, k, h))
    ];
    names = elim (Result-cases (encode_cursor env (created x) (key x))) [
      | inl (s, k) ↦ k ∙ ground (arith, k, h)
      | inr (bad, k) ↦ absurd (ground (arith, k, h))
    ];
  }

  trim_page-LeftOut :
      (limit : ℕ) (found items : List A) (next : Text)
      → is_empty next ≡ false
      → trim_page env created key found limit ≡ ok (items, next)
      → LeftOut limit found items next
  unfolding trim_page
  trim_page-LeftOut limit found items next more h =
      LeftOut-of_drop limit found (drop limit found) items next more refl h

  encoded : (r : Result Text) (next : Text) → wrapped_cursor r ≡ ok next → r ≡ ok next
  encoded (ok s) next h = h
  encoded (err e) next h = absurd (ground arith)

  checked_back :
      (x : A) (c : Option CursorValue)
      → trim (key x) ≡ key x
      → (cursor_checked (some (cursor_of env created key x)) >>= λ v. ok (some v)) ≡ ok c
      → c ≡ some (cursor_of env created key x)
  checked_back x c t h = ground (arith, t, Bool-cases (is_zero (created x) || is_blank (key x)))

  -- The cursor to a row is read as that row's place.
  read_back :
      (faithful : IsFaithful env) (x : A) (next : Text) (c : Option CursorValue)
      → trim (key x) ≡ key x
      → is_empty next ≡ false
      → encode_cursor env (created x) (key x) ≡ ok next
      → read_cursor env created key next ≡ ok c
      → c ≡ some (cursor_of env created key x)
  unfolding encode_cursor decode_cursor read_cursor
  read_back faithful x next c t more e h =
      let here = cursor_of env created key x in
      let enc : env.encode here ≡ ok next =
        ap (λ k. env.encode (record { created_at = created x; id = k })) (sym t)
        ∙ encoded _ next e in
      checked_back x c t (
        ap (λ d. cursor_checked d >>= λ v. ok (some v)) (sym (faithful.decodes here next enc))
        ∙ sym (
            ap
              (λ b.
                if b
                then ok none
                else (cursor_checked (env.decode (trim next)) >>= λ v. ok (some v)))
              more)
        ∙ h)

  -- Behind the place of a row stands no row of that place.
  behind :
      (faithful : IsFaithful env) (x y : A)
      → is_before env (created y) (key y) (cursor_of env created key x) ≡ true
      → ¬ (cursor_of env created key y ≡ cursor_of env created key x)
  unfolding is_before
  behind faithful x y h e =
      let strict = faithful.strict (key x) in
      let k = ap (λ (c : CursorValue). c.id) e in
      let at = ap (λ (c : CursorValue). c.created_at) e in ground (arith, strict, k, at, h)

  All-trimmed :
      (P : A → Type 0) (limit : ℕ) (found dropped items : List A) (next : Text)
      → All P found
      → trimmed env created key limit found dropped ≡ ok (items, next)
      → All P items
  All-trimmed P limit found [] items next p h = subst (All P) (ground arith) p
  All-trimmed P limit found (x ∷ rest) items next p h =
      elim (Result-cases (encode_cursor env (created x) (key x))) [
        | inl (s, k) ↦ subst (All P) (ground (arith, k, h)) (All-take P limit found p)
        | inr (bad, k) ↦ absurd (ground (arith, k, h))
      ]

  All-shown :
      (P : A → Type 0) (limit : ℕ) (found items : List A) (next : Text)
      → All P found
      → trim_page env created key found limit ≡ ok (items, next)
      → All P items
  unfolding trim_page
  All-shown P limit found items next p h =
      All-trimmed P limit found (drop limit found) items next p h

  any_row : (xs : List A) → All (λ x. Unit {0}) xs
  any_row [] = tt
  any_row (x ∷ xs) = (tt, any_row xs)

  -- The rows of a page that begins at a row's place.
  none_there :
      (faithful : IsFaithful env) (x : A) (matches : A → Bool) (start : Option CursorValue)
      (limit : ℕ) (rows : List A)
      → start ≡ some (cursor_of env created key x)
      → All
          (λ y. ¬ (cursor_of env created key y ≡ cursor_of env created key x))
          (page_rows env created key matches start limit rows)
  none_there faithful x matches start limit rows e =
      All-map _ _ (page_rows env created key matches start limit rows)
        (λ y k. behind faithful x y (after y k.0))
        (All-page_rows (λ y. Unit {0}) matches start limit rows (any_row rows))
    where
      after :
          (y : A)
          → (matches y && after_cursor env created key start y) ≡ true
          → is_before env (created y) (key y) (cursor_of env created key x) ≡ true
      after y k = ground (arith, e, k)

  -- Of two pages that are answered in a row, the second asked for by the cursor that the first gave,
  -- a row is on neither: the query of the first page, from its own cursor on, gave the rows of that
  -- page and then this row, the first page has no row of its key, and the second page, whatever the
  -- rows then are, has none of its place, the time of its creation and its identifier. The
  -- identifiers of the rows are different and have no spaces around them.
  pub pages_skip :
      (faithful : IsFaithful env) (matches : A → Bool) (cursor next : Text) (limit limit' : ℤ)
      (rows rows' items items' : List A) (next' : Text)
      → All (λ x. trim (key x) ≡ key x) rows
      → AreApart key rows
      → list_page env created key matches cursor limit rows ≡ ok (items, next)
      → is_empty next ≡ false
      → list_page env created key matches next limit' rows' ≡ ok (items', next')
      → (start : Option CursorValue) × (x : A) × (rest : List A) × (read_cursor env created key
            cursor
          ≡ ok start)
        × (page_rows env created key matches start (positive_or limit 50) rows
            ≡ items ++ (x ∷ rest))
        × All (λ y. ¬ (key y ≡ key x)) items
        × All (λ y. ¬ (cursor_of env created key y ≡ cursor_of env created key x)) items'
  pages_skip faithful matches cursor next limit limit' rows rows' items items' next' t apart h more
        h' =
      let first = list_page-Paged matches cursor limit rows items next h in
      let n = positive_or limit 50 in
      let found = page_rows env created key matches first.start n rows in
      let out = trim_page-LeftOut n found items next more first.trims in
      let second = list_page-Paged matches next limit' rows' items' next' h' in
      let trims = All-drop _ n found (All-page_rows _ matches first.start n rows t) in
      let here = (subst (All _) out.at_place trims).0.1 in
      let start = read_back faithful out.row next second.start here more out.names second.read in
      let in_order : found ≡ items ++ (out.row ∷ out.rest) =
        take-drop n found
        ∙ ap (λ xs. xs ++ drop n found) out.shown
        ∙ ap (λ xs. items ++ xs) out.at_place in
      let unequal = page_rows-AreApart key env created matches first.start n rows apart in
      (
        first.start,
        out.row,
        out.rest,
        first.read,
        in_order,
        before-Apart key items out.row out.rest (subst (AreApart key) in_order unequal),
        All-shown _ (positive_or limit' 50)
            (page_rows env created key matches second.start (positive_or limit' 50) rows') items'
            next'
            (none_there faithful out.row matches second.start (positive_or limit' 50) rows' start)
            second.trims,
      )

  -- Every row of a page matches.
  pub list_page-matches :
      (matches : A → Bool) (cursor : Text) (limit : ℤ) (rows items : List A) (next : Text)
      → list_page env created key matches cursor limit rows ≡ ok (items, next)
      → All (λ x. matches x ≡ true) items
  list_page-matches matches cursor limit rows items next h =
      let page = list_page-Paged matches cursor limit rows items next h in
      let n = positive_or limit 50 in
      let found = page_rows env created key matches page.start n rows in
      All-shown _ n found items next
        (All-map _ _ found
          (λ x k. first_of (matches x) (after_cursor env created key page.start x) k.0)
          (All-page_rows (λ x. Unit {0}) matches page.start n rows (any_row rows)))
        page.trims
    where
      first_of : (b c : Bool) → (b && c) ≡ true → b ≡ true
      first_of b c k = ground arith
