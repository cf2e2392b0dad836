-- ===== src/Upload/World/Laws.antt =====
-- How the steps of a handler compose, what a statement does within a transaction, and what a
-- transaction leaves.
use zhi_file_service_go.Common.{
  ◌≡◌, refl, ap, sym, ◌∙◌, Bool, true, false, Option, none, some, String, if◌then◌else◌, Text, Time,
  arith,
}
use zhi_file_service_go.Xerrors.{Err}
use zhi_file_service_go.Result.{Result, ok, err}
use zhi_file_service_go.Upload.Tables.{Tables}
use zhi_file_service_go.Upload.World.{
  World, Env, Action, next_step, ◌>>=◌, pure, lift, raise, raise_if, settled, statement, clock,
  generate, transaction, open_transaction, close_transaction,
}

-- The step returns a value, and this is the world after it.
abbrev pub Returns {ℓ} : {A : Type ℓ} → Action A → World → A → World → Type ℓ
Returns m w a v = m w ≡ (ok a, v)

-- A sequence returns when both of its steps do.
pub record Steps {ℓ κ} {A : Type ℓ} {B : Type κ} (m : Action A) (k : A → Action B) (w : World)
    (b : B) (v : World) : Type (ℓ ⊔ κ) where
  pub value : A
  pub between : World
  pub first : Returns m w value between
  pub rest : Returns (k value) between b v

Steps-of_result {ℓ κ} :
    {A : Type ℓ} {B : Type κ} (m : Action A) (k : A → Action B) (w : World) (b : B) (v : World)
    (r : Result A × World)
    → m w ≡ r
    → next_step k r ≡ (ok b, v)
    → Steps m k w b v
Steps-of_result m k w b v (err e, u) same h = absurd (ground arith)
Steps-of_result m k w b v (ok a, u) same h = record {
  value = a;
  between = u;
  first = same;
  rest = h;
}

pub steps {ℓ κ} :
    {A : Type ℓ} {B : Type κ} (m : Action A) (k : A → Action B) (w : World) (b : B) (v : World)
    → Returns (m >>= k) w b v
    → Steps m k w b v
unfolding ◌>>=◌
steps m k w b v h = Steps-of_result m k w b v (m w) refl h

pub lifted {ℓ} :
    {A : Type ℓ} (r : Result A) (w : World) (a : A) (v : World)
    → Returns (lift r) w a v
    → (r ≡ ok a) × (v ≡ w)
unfolding lift
lifted r w a v h = (ap (λ p. p.0) h, sym (ap (λ p. p.1) h))

pub raise_if_returns :
    (b : Bool) (e : Err) (w : World) (u : Unit {0}) (v : World)
    → Returns (raise_if b e) w u v
    → (b ≡ false) × (v ≡ w)
unfolding raise_if raise pure
raise_if_returns true e w u v h = absurd (ground arith)
raise_if_returns false e w u v h = (refl, sym (ap (λ p. p.1) h))

pub returned {ℓ} :
    {A : Type ℓ} (x : A) (w : World) (a : A) (v : World)
    → Returns (pure x) w a v
    → (x ≡ a) × (v ≡ w)
unfolding pure
returned x w a v h = (ground (arith, ap (λ p. p.0) h), sym (ap (λ p. p.1) h))

-- A world in a transaction, on these tables.
pub record Inside (t : Tables) (w : World) : Type 0 where
  pub on : w.tables ≡ t
  pub within : w.in_transaction ≡ true

pub moved : (t : Tables) (w v : World) → Inside t w → v ≡ w → Inside t v
moved t w v i same = record {
  on = ap (λ u. u.tables) same ∙ i.on;
  within = ap (λ u. u.in_transaction) same ∙ i.within;
}

module _ (env : Env) where
  pub statement-Inside {ℓ} :
      {A : Type ℓ} (message : String) (run : Tables → A × Tables) (t : Tables) (w : World) (a : A)
      (v : World)
      → Inside t w
      → Returns (statement env message run) w a v
      → (a ≡ (run t).0) × Inside (run t).1 v
  unfolding statement settled
  statement-Inside message run t w a v i h = ground arith

  -- A statement anywhere: it works on the tables as other requests have left them.
  pub statement_returns {ℓ} :
      {A : Type ℓ} (message : String) (run : Tables → A × Tables) (w : World) (a : A) (v : World)
      → Returns (statement env message run) w a v
      → (a ≡ (run (settled env w).tables).0) × (v.tables ≡ (run (settled env w).tables).1)
  unfolding statement
  statement_returns message run w a v h = ground arith

  pub clock-Inside :
      (t : Tables) (w : World) (now : Time) (v : World)
      → Inside t w
      → Returns (clock env) w now v
      → Inside t v
  unfolding clock
  clock-Inside t w now v i h = ground arith

  pub generate-Inside :
      (wrapped : Err → Err) (t : Tables) (w : World) (id : Text) (v : World)
      → Inside t w
      → Returns (generate env wrapped) w id v
      → Inside t v
  unfolding generate
  generate-Inside wrapped t w id v i h = ground arith

  -- The world that the body of a transaction begins in.
  abbrev pub opened : World → World
  opened w = record (settled env w) { in_transaction = true }

  -- Of a transaction that returns, the body returned, and its tables stay.
  pub record Transacted {ℓ} {A : Type ℓ} (body : Action A) (w : World) (a : A) (v : World)
      : Type ℓ where
    pub ending : World
    pub ran : Returns body (opened w) a ending
    pub kept : v.tables ≡ ending.tables

  closed_returns {ℓ} :
      {A : Type ℓ} (body : Action A) (message : String) (w : World) (a : A) (v : World)
      (r : Result A × World) (fault : Option Err)
      → body (opened w) ≡ r
      → close_transaction env message (settled env w).tables fault r ≡ (ok a, v)
      → Transacted body w a v
  unfolding close_transaction
  closed_returns body message w a v (err e, u) fault same h = absurd (ground arith)
  closed_returns body message w a v (ok x, u) (some e) same h = absurd (ground arith)
  closed_returns body message w a v (ok x, u) none same h = record {
    ending = u;
    ran = same ∙ ground arith;
    kept = ground arith;
  }

  open_returns {ℓ} :
      {A : Type ℓ} (begin commit : String) (body : Action A) (w : World) (a : A) (v : World)
      (fault : Option Err)
      → open_transaction env begin commit fault body (settled env w) ≡ (ok a, v)
      → Transacted body w a v
  unfolding open_transaction
  open_returns begin commit body w a v (some e) h = absurd (ground arith)
  open_returns begin commit body w a v none h = closed_returns body commit w a v _ _ refl h

  -- What a transaction is outside of any other.
  pub outermost {ℓ} :
      {A : Type ℓ} (begin commit : String) (body : Action A) (w : World)
      → w.in_transaction ≡ false
      → transaction env begin commit body w
        ≡ open_transaction env begin commit (env.fault w.tick) body (settled env w)
  unfolding transaction
  outermost begin commit body w n =
      ap
        (λ b.
          if b
          then body w
          else open_transaction env begin commit (env.fault w.tick) body (settled env w))
        n

  pub transaction_returns {ℓ} :
      {A : Type ℓ} (begin commit : String) (body : Action A) (w : World) (a : A) (v : World)
      → w.in_transaction ≡ false
      → Returns (transaction env begin commit body) w a v
      → Transacted body w a v
  transaction_returns begin commit body w a v n h =
      open_returns begin commit body w a v (env.fault w.tick)
        (sym (outermost begin commit body w n) ∙ h)

  closed_fails {ℓ} :
      {A : Type ℓ} (message : String) (before : Tables) (e : Err) (v : World) (r : Result A × World)
      (fault : Option Err)
      → close_transaction env message before fault r ≡ (err e, v)
      → v.tables ≡ before
  unfolding close_transaction
  closed_fails message before e v (err x, u) fault h = ground arith
  closed_fails message before e v (ok x, u) (some f) h = ground arith
  closed_fails message before e v (ok x, u) none h = absurd (ground arith)

  open_fails {ℓ} :
      {A : Type ℓ} (begin commit : String) (body : Action A) (e : Err) (v w : World)
      (fault : Option Err)
      → open_transaction env begin commit fault body w ≡ (err e, v)
      → v.tables ≡ w.tables
  unfolding open_transaction
  open_fails begin commit body e v w (some f) h = ground arith
  open_fails begin commit body e v w none h = closed_fails commit w.tables e v _ _ h

  -- A transaction that fails, in its body, at its begin or at its commit, leaves the tables as other
  -- requests had left them when it began.
  pub transaction_fails {ℓ} :
      {A : Type ℓ} (begin commit : String) (body : Action A) (w : World) (e : Err) (v : World)
      → w.in_transaction ≡ false
      → transaction env begin commit body w ≡ (err e, v)
      → v.tables ≡ (settled env w).tables
  transaction_fails begin commit body w e v n h =
      open_fails begin commit body e v (settled env w) (env.fault w.tick)
        (sym (outermost begin commit body w n) ∙ h)
