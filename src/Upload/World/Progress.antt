-- ===== src/Upload/World/Progress.antt =====
-- Steps that return where the database answers, and what they leave of the sessions.
use zhi_file_service_go.Common.{
  ◌≡◌, ◌≤◌, refl, ap, ◌∙◌, true, false, none, String, List, ℕ, Text, is_blank, Time, arith,
}
use zhi_file_service_go.Xerrors.{Err}
use zhi_file_service_go.Result.{Result, ok}
use zhi_file_service_go.Upload.Rows.{SessionRow}
use zhi_file_service_go.Upload.Tables.{Tables}
use zhi_file_service_go.Upload.World.{
  World, Env, Action, next_step, ◌>>=◌, pure, lift, CompletedPayload, ticked, settled, statement,
  clock, generate, transaction, open_transaction, close_transaction, closing,
}
use zhi_file_service_go.Upload.World.Laws.{Returns, opened, outermost}

-- No statement fails, an identifier is made each time and is not blank, the clock is past `since`,
-- and the event can be encoded.
pub record Reliable (since : Time) (env : Env) : Type 0 where
  pub no_fault : (n : ℕ) → env.fault n ≡ none
  pub ids : (n : ℕ) → (id : Text) × (env.new_id n ≡ ok id) × (is_blank id ≡ false)
  pub later : (n : ℕ) → since ≤ env.now n
  pub encodes : (p : CompletedPayload) → (t : Text) × (env.marshal_completed p ≡ ok t)

-- In a transaction with these rows of sessions.
pub record Still (rows : List SessionRow) (w : World) : Type 0 where
  pub on : w.tables.sessions ≡ rows
  pub within : w.in_transaction ≡ true

-- The step returns a value that holds, and the transaction goes on.
pub record Goes {ℓ κ} {A : Type ℓ} (Holds_of : A → Type κ) (rows : List SessionRow) (m : Action A)
    (w : World) : Type (ℓ ⊔ κ) where
  pub value : A
  pub after : World
  pub returns : Returns m w value after
  pub holds : Holds_of value
  pub still : Still rows after

abbrev pub Any {ℓ} : {A : Type ℓ} → A → Type 0
Any a = Unit {0}

pub bind-Goes {ℓ κ ℓ' κ'} :
    {A : Type ℓ} {B : Type ℓ'} (Holds_of : A → Type κ) (HoldsAfter : B → Type κ')
    (rows next_rows : List SessionRow) (m : Action A) (k : A → Action B) (w : World)
    → Goes Holds_of rows m w
    → ((a : A) (v : World) → Holds_of a → Still rows v → Goes HoldsAfter next_rows (k a) v)
    → Goes HoldsAfter next_rows (m >>= k) w
unfolding ◌>>=◌
bind-Goes Holds_of HoldsAfter rows next_rows m k w g h =
    let next = h g.value g.after g.holds g.still in
    record {
      value = next.value;
      after = next.after;
      returns = ap (next_step k) g.returns ∙ next.returns;
      holds = next.holds;
      still = next.still;
    }

-- The step returns.
pub record Ends {ℓ} {A : Type ℓ} (m : Action A) (w : World) : Type ℓ where
  pub value : A
  pub after : World
  pub returns : Returns m w value after

abbrev pub ends_of {ℓ κ} :
    {A : Type ℓ} {Holds_of : A → Type κ} {rows : List SessionRow} {m : Action A} {w : World}
    → Goes Holds_of rows m w
    → Ends m w
ends_of g = record { value = g.value; after = g.after; returns = g.returns }

pub bind-Ends {ℓ κ ℓ'} :
    {A : Type ℓ} {B : Type ℓ'} (Holds_of : A → Type κ) (rows : List SessionRow) (m : Action A)
    (k : A → Action B) (w : World)
    → Goes Holds_of rows m w
    → ((a : A) (v : World) → Holds_of a → Still rows v → Ends (k a) v)
    → Ends (m >>= k) w
unfolding ◌>>=◌
bind-Ends Holds_of rows m k w g h =
    let next = h g.value g.after g.holds g.still in
    record {
      value = next.value;
      after = next.after;
      returns = ap (next_step k) g.returns ∙ next.returns;
    }

pub pure-Goes {ℓ} :
    {A : Type ℓ} (a : A) (rows : List SessionRow) (w : World)
    → Still rows w
    → Goes Any rows (pure a) w
unfolding pure
pure-Goes a rows w s = record { value = a; after = w; returns = refl; holds = tt; still = s }

pub lift-Goes {ℓ} :
    {A : Type ℓ} (r : Result A) (a : A) (rows : List SessionRow) (w : World)
    → r ≡ ok a
    → Still rows w
    → Goes (λ x. x ≡ a) rows (lift r) w
unfolding lift
lift-Goes r a rows w same s = record {
  value = a;
  after = w;
  returns = ap (λ x. (x, w)) same;
  holds = refl;
  still = s;
}

module _ (since : Time) (env : Env) (reliable : Reliable since env) where
  pub statement-Goes {ℓ} :
      {A : Type ℓ} (message : String) (run : Tables → A × Tables) (rows next_rows : List SessionRow)
      (w : World)
      → ((t : Tables) → t.sessions ≡ rows → (run t).1.sessions ≡ next_rows)
      → Still rows w
      → Goes (λ a. a ≡ (run w.tables).0) next_rows (statement env message run) w
  unfolding statement settled
  statement-Goes message run rows next_rows w keeps s = record {
    value = (run w.tables).0;
    after = record (ticked w) { tables = (run w.tables).1 };
    returns = ground (arith, reliable.no_fault w.tick, s.within);
    holds = refl;
    still = record { on = keeps w.tables s.on; within = s.within };
  }

  pub clock-Goes :
      (rows : List SessionRow) (w : World)
      → Still rows w
      → Goes (λ now. since ≤ now) rows (clock env) w
  unfolding clock
  clock-Goes rows w s = record {
    value = env.now w.tick;
    after = ticked w;
    returns = refl;
    holds = reliable.later w.tick;
    still = record { on = s.on; within = s.within };
  }

  pub generate-Goes :
      (wrapped : Err → Err) (rows : List SessionRow) (w : World)
      → Still rows w
      → Goes (λ id. is_blank id ≡ false) rows (generate env wrapped) w
  unfolding generate
  generate-Goes wrapped rows w s =
      let made = reliable.ids w.tick in
      record {
        value = made.0;
        after = ticked w;
        returns = rw made.1 refl;
        holds = made.2;
        still = record { on = s.on; within = s.within };
      }

  -- A transaction whose body returns does return, its commit being no fault.
  pub transaction-Ends {ℓ} :
      {A : Type ℓ} (begin commit : String) (body : Action A) (w : World)
      → w.in_transaction ≡ false
      → Ends body (opened env w)
      → Ends (transaction env begin commit body) w
  unfolding open_transaction close_transaction
  transaction-Ends begin commit body w n g = record {
    value = g.value;
    after = record (ticked g.after) { in_transaction = false };
    returns =
        outermost env begin commit body w n
        ∙ ap (λ f. open_transaction env begin commit f body (settled env w))
            (reliable.no_fault w.tick)
        ∙ ap (closing env commit (settled env w).tables) g.returns
        ∙ ap (λ f. close_transaction env commit (settled env w).tables f (ok g.value, g.after))
            (reliable.no_fault g.after.tick);
  }
