-- ===== src/Job/Usage/Balanced.antt =====
-- The usage of a tenant is what its active files take up, before and after it is counted again.
use zhi_file_service_go.Common.{
  ◌≡◌, refl, ap, sym, ◌∙◌, inl, inr, ◌+ℤ◌, ◌+◌, ℕ, Bool, true, false, Bool-cases, if◌then◌else◌,
  Option, none, some, List, [], ◌∷◌, All, any, length, Text, text_eq, text_eq_iff, ℤ, pos, leb_ℤ,
  Time, arith,
}
use mathlib.Core.Path.{subst}
use zhi_file_service_go.Xerrors.{Err}
use zhi_file_service_go.Result.{Result}
use zhi_file_service_go.Upload.Tables.{FileRow, UsageRow, Tables, find_row, update_where}
use zhi_file_service_go.Upload.Statements.{
  BlobRecord, FileAssetRecord, upsert_blob_row, adjust_count, insert_file, apply_usage,
}
use zhi_file_service_go.Admin.Repositories.Statements.{
  is_file, delete_file_rows, release_blob, release_usage, at_least_zero, negated,
}
use zhi_file_service_go.Job.Maintenance.{Database}
use zhi_file_service_go.Job.Blobs.Counted.{AreKeyed}
use zhi_file_service_go.Job.Blobs.Referenced.{same_text}
use zhi_file_service_go.Job.Blobs.Released.{deleted_rows, deleted-AreKeyed}
use zhi_file_service_go.Job.Blobs.Writes.{commit_tables, deletion_tables}
use zhi_file_service_go.Job.Usage.{
  sum_sizes, active_files, reconcile_tenant, reconciled_row, unless_failed, reconcile_read,
  tenants_to_reconcile, reconcile_all, reconcile_tenant_usage,
}
use zhi_file_service_go.Job.Usage.Sums.{
  AreSized, stored, stored_nonneg, taken_off, stored-deleted, deleted-AreSized, find-sized,
  add_comm,
}

-- The bytes of the usage are those that the tenant's active files take up.
abbrev pub IsBalanced : List FileRow → UsageRow → Type 0
IsBalanced files u = u.used_storage_bytes ≡ stored u.tenant_id files

abbrev pub AreBalanced : Tables → Type 0
AreBalanced t = All (IsBalanced t.files) t.usage × AreKeyed t.files × AreSized t.files

stored-cons :
    (x : Text) (f : FileRow) (files : List FileRow)
    → f.is_active ≡ true
    → stored x (f ∷ files)
      ≡ (if text_eq f.tenant_id x then f.file_size +ℤ stored x files else stored x files)
unfolding sum_sizes
stored-cons x f files a = ground (arith, a, Bool-cases (text_eq f.tenant_id x))

-- The usage rows that a commit writes, `change` being the statement's on a row of its tenant.
module _ (f : FileRow) (files : List FileRow) (a : f.is_active ≡ true)
    (change : UsageRow → UsageRow) (tenant : (u : UsageRow) → (change u).tenant_id ≡ u.tenant_id)
    (bytes : (u : UsageRow)
      → (change u).used_storage_bytes ≡ u.used_storage_bytes +ℤ f.file_size) where
  grown :
      (usage : List UsageRow)
      → All (IsBalanced files) usage
      → All
          (IsBalanced (f ∷ files))
          (update_where (λ u. text_eq u.tenant_id f.tenant_id) change usage)
  grown [] h = tt
  grown (u ∷ usage) h =
      let rest = grown usage h.1 in
      elim (Bool-cases (text_eq u.tenant_id f.tenant_id)) [
        | inl e ↦ (subst written (sym e) (hit e), rest)
        | inr e ↦ (subst written (sym e) (miss e), rest)
      ]
    where
      written : Bool → Type 0
      written b = IsBalanced (f ∷ files) (if b then change u else u)

      counted :
          (b : Bool)
          → text_eq u.tenant_id f.tenant_id ≡ b
          → stored u.tenant_id (f ∷ files)
            ≡ (if b then f.file_size +ℤ stored u.tenant_id files else stored u.tenant_id files)
      counted b e =
          stored-cons u.tenant_id f files a
          ∙ ap
              (λ x. if x then f.file_size +ℤ stored u.tenant_id files else stored u.tenant_id files)
              (same_text f.tenant_id u.tenant_id ∙ e)

      hit : text_eq u.tenant_id f.tenant_id ≡ true → IsBalanced (f ∷ files) (change u)
      hit e =
          bytes u
          ∙ ap (λ x. x +ℤ f.file_size) h.0
          ∙ add_comm (stored u.tenant_id files) f.file_size
          ∙ sym (counted true e)
          ∙ ap (λ x. stored x (f ∷ files)) (sym (tenant u))

      miss : text_eq u.tenant_id f.tenant_id ≡ false → IsBalanced (f ∷ files) u
      miss e = h.0 ∙ sym (counted false e)

-- The usage rows that a deletion writes.
module _ (id : Text) (at : Time) (files : List FileRow) (r : FileRow) (k : AreKeyed files)
    (z : AreSized files) (found : find_row (is_file id) files ≡ some r) (a : r.is_active ≡ true)
    (change : UsageRow → UsageRow) (tenant : (u : UsageRow) → (change u).tenant_id ≡ u.tenant_id)
    (bytes : (u : UsageRow)
      → (change u).used_storage_bytes
        ≡ at_least_zero (u.used_storage_bytes +ℤ negated r.file_size)) where
  shrunk :
      (usage : List UsageRow)
      → All (IsBalanced files) usage
      → All
          (IsBalanced (deleted_rows id at files))
          (update_where (λ u. text_eq u.tenant_id r.tenant_id) change usage)
  shrunk [] h = tt
  shrunk (u ∷ usage) h =
      let rest = shrunk usage h.1 in
      elim (Bool-cases (text_eq u.tenant_id r.tenant_id)) [
        | inl e ↦ rw e (hit e, rest)
        | inr e ↦ rw e (miss e, rest)
      ]
    where
      left : ℤ
      left = stored u.tenant_id (deleted_rows id at files)

      counted :
          (b : Bool)
          → text_eq u.tenant_id r.tenant_id ≡ b
          → stored u.tenant_id files ≡ (if b then r.file_size +ℤ left else left)
      counted b e =
          stored-deleted id at files r u.tenant_id k z found a
          ∙ ap (λ x. if x then r.file_size +ℤ left else left)
              (same_text r.tenant_id u.tenant_id ∙ e)

      hit :
          text_eq u.tenant_id r.tenant_id ≡ true → IsBalanced (deleted_rows id at files) (change u)
      hit e =
          bytes u
          ∙ ap (λ x. at_least_zero (x +ℤ negated r.file_size)) (h.0 ∙ counted true e)
          ∙ taken_off r.file_size left (find-sized id files r z found) (
              stored_nonneg u.tenant_id (deleted_rows id at files) (deleted-AreSized id at files z))
          ∙ ap (λ x. stored x (deleted_rows id at files)) (sym (tenant u))

      miss : text_eq u.tenant_id r.tenant_id ≡ false → IsBalanced (deleted_rows id at files) u
      miss e = h.0 ∙ counted false e

-- What a commit relies on: the usage is that of the file, whose identifier is new.
pub record IsCharged (tenant_id : Text) (size : ℤ) (f : FileAssetRecord) (t : Tables) : Type 0 where
  pub of_tenant : tenant_id ≡ f.tenant_id
  pub of_file : size ≡ f.size_bytes
  pub sized : leb_ℤ (pos 0) f.size_bytes ≡ true
  pub fresh : any (is_file f.file_id) t.files ≡ false

pub commit-AreBalanced :
    (blob_at count_at file_at usage_at : Time) (tenant_id : Text) (size : ℤ) (b : BlobRecord)
    (f : FileAssetRecord) (t : Tables)
    → IsCharged tenant_id size f t
    → AreBalanced t
    → AreBalanced (commit_tables blob_at count_at file_at usage_at tenant_id size b f t)
unfolding apply_usage insert_file adjust_count upsert_blob_row
commit-AreBalanced blob_at count_at file_at usage_at tenant_id size b f t c h =
    rw (c.of_tenant, c.of_file)
      (grown _ t.files refl _ (λ u. refl) (λ u. refl) t.usage h.0, (c.fresh, h.1), (c.sized, h.2))

pub deletion-AreBalanced :
    (at : Time) (id : Text) (r : FileRow) (t : Tables)
    → find_row (is_file id) t.files ≡ some r
    → r.is_active ≡ true
    → AreBalanced t
    → AreBalanced (deletion_tables at id r t)
unfolding release_usage release_blob delete_file_rows
deletion-AreBalanced at id r t found a h = (
  shrunk id at t.files r h.1 h.2 found a _ (λ u. refl) (λ u. refl) t.usage h.0,
  deleted-AreKeyed id at t.files h.1,
  deleted-AreSized id at t.files h.2,
)

reconciled :
    (now : Time) (id : Text) (t : Tables) → AreBalanced t → AreBalanced (reconcile_tenant now id t)
unfolding reconcile_tenant sum_sizes
reconciled now id t h = (go t.usage h.0, h.1, h.2)
  where
    go :
        (usage : List UsageRow)
        → All (IsBalanced t.files) usage
        → All (IsBalanced t.files) (
            update_where
              (λ r. text_eq r.tenant_id id)
              (reconciled_row now (active_files id t))
              usage)
    go [] k = tt
    go (u ∷ usage) k = elim (Bool-cases (text_eq u.tenant_id id)) [
      | inl e ↦
          rw e (ap (λ v. stored v t.files) (sym ((text_eq_iff u.tenant_id id).0 e)), go usage k.1)
      | inr e ↦ rw e (k.0, go usage k.1)
    ]

module _ (db : Database) where
  unless_failed-keeps :
      (fault : Option Err) (rest : Result ℕ × Tables) (t : Tables)
      → AreBalanced rest.1
      → AreBalanced t
      → AreBalanced (unless_failed db fault rest t).1
  unless_failed-keeps none rest t h k = h
  unless_failed-keeps (some e) rest t h k = k

  reconcile_all-AreBalanced :
      (n count : ℕ) (ids : List Text) (t : Tables)
      → AreBalanced t
      → AreBalanced (reconcile_all db n count ids t).1
  unfolding reconcile_all
  reconcile_all-AreBalanced n count [] t h = h
  reconcile_all-AreBalanced n count (id ∷ ids) t h =
      unless_failed-keeps (db.fault n) _ t
        (reconcile_all-AreBalanced (n + 1) count ids (reconcile_tenant db.clock id t)
          (reconciled db.clock id t h))
        h

  reconcile_read-AreBalanced :
      (fault : Option Err) (ids : List Text) (t : Tables)
      → AreBalanced t
      → AreBalanced (reconcile_read db fault ids t).1
  reconcile_read-AreBalanced (some e) ids t h = h
  reconcile_read-AreBalanced none ids t h = reconcile_all-AreBalanced 1 (length ids) ids t h

  pub reconcile-AreBalanced :
      (limit : ℤ) (t : Tables) → AreBalanced t → AreBalanced (reconcile_tenant_usage db limit t).1
  unfolding reconcile_tenant_usage
  reconcile-AreBalanced limit t h =
      reconcile_read-AreBalanced (db.fault 0) (tenants_to_reconcile db limit t) t h

-- Commits, administrators' deletions of active files, and runs of the reconciliation.
pub data Charges (t : Tables) : Tables → Type 0 where
  here : Charges t t
  committed :
      (blob_at count_at file_at usage_at : Time) (tenant_id : Text) (size : ℤ) (b : BlobRecord)
      (f : FileAssetRecord) {u : Tables}
      → IsCharged tenant_id size f u
      → Charges t u
      → Charges t (commit_tables blob_at count_at file_at usage_at tenant_id size b f u)
  deleted :
      (at : Time) (id : Text) (r : FileRow) {u : Tables}
      → find_row (is_file id) u.files ≡ some r
      → r.is_active ≡ true
      → Charges t u
      → Charges t (deletion_tables at id r u)
  recounted :
      (db : Database) (limit : ℤ) {u : Tables}
      → Charges t u
      → Charges t (reconcile_tenant_usage db limit u).1

-- The bytes that commits and deletions add and take off are those that ReconcileTenantUsage counts:
-- from tables in which the used bytes of each usage row are the sum of the sizes of its tenant's
-- active files, with no two files of one identifier and no negative size, any sequence of commits,
-- of deletions of active files and of reconciliations, failed ones too, leaves such tables. Each
-- commit charges the file's size to the file's tenant and makes a new file.
pub Charges-AreBalanced : {t u : Tables} → Charges t u → AreBalanced t → AreBalanced u
Charges-AreBalanced here h = h
Charges-AreBalanced (committed a b c d tenant size blob f w r) h =
    commit-AreBalanced a b c d tenant size blob f _ w (Charges-AreBalanced r h)
Charges-AreBalanced (deleted at id row found active r) h =
    deletion-AreBalanced at id row _ found active (Charges-AreBalanced r h)
Charges-AreBalanced (recounted db limit r) h =
    reconcile-AreBalanced db limit _ (Charges-AreBalanced r h)
