-- ===== src/Admin/Commands/Atomic.antt =====
-- A command that fails leaves the tables as they were.
use zhi_file_service_go.Common.{◌≡◌, ℕ, refl, ap, sym, ◌∙◌, false, Text, Time, arith}
use zhi_file_service_go.Xerrors.{Err}
use zhi_file_service_go.Result.{Result, ok, err}
use zhi_file_service_go.Upload.Tables.{Tables}
use zhi_file_service_go.Upload.World.{
  World, Action, next_step, ◌>>=◌, pure, lift, settled, clock, within_transaction,
}
use zhi_file_service_go.Upload.World.Laws.{Returns, transaction_fails}
use zhi_file_service_go.Admin.Repositories.{AdminEnv, checked_statement, get_file_row}
use zhi_file_service_go.Admin.Commands.{
  CreateTenantCommand, PatchTenantCommand, PatchTenantPolicyCommand, DeleteFileCommand,
  DeleteFileResult,
}
use zhi_file_service_go.Admin.Tenant.{Tenant}
use zhi_file_service_go.Admin.Repositories.Statements.{TenantPolicyView}
use zhi_file_service_go.Admin.Commands.Handlers.{
  handle_create_tenant, handle_patch_tenant, handle_patch_policy, handle_delete_file,
}

-- The commands, and what they answer.
pub data AdminCommand : Type 0 where
  create : CreateTenantCommand → AdminCommand
  patch : PatchTenantCommand → AdminCommand
  patch_policy : PatchTenantPolicyCommand → AdminCommand
  delete : DeleteFileCommand → AdminCommand

pub data AdminReply : Type 0 where
  tenant : Tenant → AdminReply
  policy : TenantPolicyView → AdminReply
  deletion : DeleteFileResult → AdminReply

unfoldable pub perform : AdminEnv → (Time → Text) → AdminCommand → Action AdminReply
unfolding handle_create_tenant handle_patch_tenant handle_patch_policy handle_delete_file pure
perform env formatted (create command) = do t ← handle_create_tenant env command; pure (tenant t)
perform env formatted (patch command) = do t ← handle_patch_tenant env command; pure (tenant t)
perform env formatted (patch_policy command) = do
  v ← handle_patch_policy env command
  pure (policy v)
perform env formatted (delete command) = do
  r ← handle_delete_file env formatted command
  pure (deletion r)

-- Outside of a transaction the step changes nothing where it fails.
abbrev pub Keeps {ℓ} : {A : Type ℓ} → Action A → Type ℓ
Keeps {A} m =
    (w : World) (e : Err) (v : World)
    → w.in_transaction ≡ false
    → m w ≡ (err e, v)
    → v.tables ≡ w.tables

-- Where it returns, the step has changed nothing and opened no transaction.
abbrev pub Reads {ℓ} : {A : Type ℓ} → Action A → Type ℓ
Reads {A} m =
    (w : World) (a : A) (v : World)
    → Returns m w a v
    → (v.tables ≡ w.tables) × (v.in_transaction ≡ w.in_transaction)

module _ {ℓ κ} {A : Type ℓ} {B : Type κ} (m : Action A) (k : A → Action B) where
  Keeps-next :
      (w : World) (r : Result A × World) (e : Err) (v : World)
      → Keeps m
      → Reads m
      → ((a : A) → Keeps (k a))
      → w.in_transaction ≡ false
      → m w ≡ r
      → next_step k r ≡ (err e, v)
      → v.tables ≡ w.tables
  Keeps-next w (err x, u) e v keeps reads later n h g =
      sym (ap (λ (r : Result B × World). r.1.tables) g) ∙ keeps w x u n h
  Keeps-next w (ok a, u) e v keeps reads later n h g =
      let (same, out) = reads w a u h in later a u e v (out ∙ n) g ∙ same

  pub Keeps-bind : Keeps m → Reads m → ((a : A) → Keeps (k a)) → Keeps (m >>= k)
  unfolding ◌>>=◌
  Keeps-bind keeps reads later w e v n h = Keeps-next w (m w) e v keeps reads later n refl h

  Keeps-last :
      (w : World) (r : Result A × World) (e : Err) (v : World)
      → Keeps m
      → ((a : A) (u : World) → (b : B) × (k a u ≡ (ok b, u)))
      → w.in_transaction ≡ false
      → m w ≡ r
      → next_step k r ≡ (err e, v)
      → v.tables ≡ w.tables
  Keeps-last w (err x, u) e v keeps answers n h g =
      sym (ap (λ (r : Result B × World). r.1.tables) g) ∙ keeps w x u n h
  Keeps-last w (ok a, u) e v keeps answers n h g =
      let (b, done) = answers a u in absurd (ground (arith, sym done ∙ g))

  -- The last step only makes the answer.
  pub Keeps-answer :
      Keeps m → ((a : A) (u : World) → (b : B) × (k a u ≡ (ok b, u))) → Keeps (m >>= k)
  unfolding ◌>>=◌
  Keeps-answer keeps answers w e v n h = Keeps-last w (m w) e v keeps answers n refl h

pub Keeps-lift {ℓ} : {A : Type ℓ} (r : Result A) → Keeps (lift r)
unfolding lift
Keeps-lift r w e v n h = sym (ap (λ p. p.1.tables) h)

pub Reads-lift {ℓ} : {A : Type ℓ} (r : Result A) → Reads (lift r)
unfolding lift
Reads-lift r w a v h = (sym (ap (λ p. p.1.tables) h), sym (ap (λ p. p.1.in_transaction) h))

module _ (env : AdminEnv) (quiet : (n : ℕ) (t : Tables) → env.base.meanwhile n t ≡ t) where
  pub settled-tables : (w : World) → (settled env.base w).tables ≡ w.tables
  unfolding settled
  settled-tables w = ground (arith, quiet w.tick w.tables)

  Keeps-clock : Keeps (clock env.base)
  unfolding clock
  Keeps-clock w e v n h = ground arith

  Reads-clock : Reads (clock env.base)
  unfolding clock
  Reads-clock w a v h = ground arith

  get-Keeps : (id : Text) → Keeps (get_file_row env id)
  unfolding get_file_row checked_statement settled
  get-Keeps id w e v n h = ground (arith, quiet w.tick w.tables)

  pub get-Reads : (id : Text) → Reads (get_file_row env id)
  unfolding get_file_row checked_statement settled
  get-Reads id w a v h = ground (arith, quiet w.tick w.tables)

  Keeps-transaction {ℓ} : {A : Type ℓ} (body : Action A) → Keeps (within_transaction env.base body)
  Keeps-transaction body w e v n h =
      transaction_fails env.base _ _ body w e v n h ∙ settled-tables w

  create-Keeps : (command : CreateTenantCommand) → Keeps (handle_create_tenant env command)
  unfolding handle_create_tenant
  create-Keeps command = Keeps-bind _ _ (Keeps-lift _) (Reads-lift _) λ id.
      Keeps-bind _ _ (Keeps-lift _) (Reads-lift _) λ name.
        Keeps-bind _ _ (Keeps-lift _) (Reads-lift _) λ u.
          Keeps-bind _ _ (Keeps-lift _) (Reads-lift _)
            λ u'. Keeps-bind _ _ Keeps-clock Reads-clock λ now. Keeps-transaction _

  patch-Keeps : (command : PatchTenantCommand) → Keeps (handle_patch_tenant env command)
  unfolding handle_patch_tenant
  patch-Keeps command = Keeps-bind _ _ (Keeps-lift _) (Reads-lift _) λ id.
      Keeps-bind _ _ (Keeps-lift _) (Reads-lift _) λ u1.
        Keeps-bind _ _ (Keeps-lift _) (Reads-lift _) λ u2.
          Keeps-bind _ _ (Keeps-lift _) (Reads-lift _)
            λ u3. Keeps-bind _ _ (Keeps-lift _) (Reads-lift _) λ u4. Keeps-transaction _

  patch_policy-Keeps :
      (command : PatchTenantPolicyCommand) → Keeps (handle_patch_policy env command)
  unfolding handle_patch_policy pure
  patch_policy-Keeps command = Keeps-bind _ _ (Keeps-lift _) (Reads-lift _) λ id.
      Keeps-bind _ _ (Keeps-lift _) (Reads-lift _) λ u1.
        Keeps-bind _ _ (Keeps-lift _) (Reads-lift _)
          λ u2. Keeps-answer _ _ (Keeps-transaction _) λ view u. (_, refl)

  delete-Keeps :
      (formatted : Time → Text) (command : DeleteFileCommand)
      → Keeps (handle_delete_file env formatted command)
  unfolding handle_delete_file pure
  delete-Keeps formatted command = Keeps-bind _ _ (Keeps-lift _) (Reads-lift _) λ id.
      Keeps-bind _ _ (get-Keeps id) (get-Reads id) λ found.
        Keeps-bind _ _ (Keeps-lift _) (Reads-lift _) λ current.
          Keeps-bind _ _ (Keeps-lift _) (Reads-lift _)
            λ u. Keeps-answer _ _ (Keeps-transaction _) λ deleted u. (_, refl)

  perform-Keeps :
      (formatted : Time → Text) (command : AdminCommand) → Keeps (perform env formatted command)
  unfolding perform pure
  perform-Keeps formatted (create command) =
      Keeps-answer _ _ (create-Keeps command) λ t u. (_, refl)
  perform-Keeps formatted (patch command) = Keeps-answer _ _ (patch-Keeps command) λ t u. (_, refl)
  perform-Keeps formatted (patch_policy command) =
      Keeps-answer _ _ (patch_policy-Keeps command) λ t u. (_, refl)
  perform-Keeps formatted (delete command) =
      Keeps-answer _ _ (delete-Keeps formatted command) λ t u. (_, refl)

  -- Where no other request writes meanwhile, a command of an administrator that fails, whichever it
  -- is and wherever it does, in a check, a statement, an identifier, encoding/json or the commit,
  -- leaves every table as it was: there is no change without its audit record.
  pub failed_command_keeps :
      (formatted : Time → Text) (command : AdminCommand) (w : World) (e : Err) (v : World)
      → w.in_transaction ≡ false
      → perform env formatted command w ≡ (err e, v)
      → v.tables ≡ w.tables
  failed_command_keeps formatted command w e v n h = perform-Keeps formatted command w e v n h
