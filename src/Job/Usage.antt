-- ===== src/Job/Usage.antt =====
-- TenantUsageRepository of internal/services/job/infra/postgres/repositories.go: the usage of a tenant
-- counted again from its files.
pub mod Sums
pub mod Balanced
use zhi_file_service_go.Common.{
  ◌+◌, ◌+ℤ◌, ℕ, Bool, true, ◌&&◌, Option, none, some, List, [], ◌∷◌, map, length, if◌then◌else◌,
  ltb, Text, text_eq, ℤ, pos, Time,
}
use zhi_file_service_go.Xerrors.{Err}
use zhi_file_service_go.Result.{Result, ok, err}
use zhi_file_service_go.Upload.Tables.{FileRow, UsageRow, Tables, update_where, keep_where}
use zhi_file_service_go.Job.Maintenance.{Database, oldest}

-- tenant_id = $1 AND status = 'ACTIVE'
abbrev pub is_active_file : Text → FileRow → Bool
is_active_file tenant_id f = text_eq f.tenant_id tenant_id && f.is_active

-- COALESCE(SUM(file_size), 0)
unfoldable pub sum_sizes : List FileRow → ℤ
sum_sizes [] = pos 0
sum_sizes (f ∷ fs) = f.file_size +ℤ sum_sizes fs

abbrev pub later_of : Time → Option Time → Option Time
later_of t none = some t
later_of t (some u) = some (if ltb u t then t else u)

-- MAX(created_at)
unfoldable pub max_created : List FileRow → Option Time
max_created [] = none
max_created (f ∷ fs) = later_of f.created_at (max_created fs)

-- The files that the subqueries of the UPDATE read.
abbrev pub active_files : Text → Tables → List FileRow
active_files tenant_id t = keep_where (is_active_file tenant_id) t.files

-- SET of ReconcileTenantUsage, of the files of the row's tenant
abbrev pub reconciled_row : Time → List FileRow → UsageRow → UsageRow
reconciled_row now files r = record r {
  used_storage_bytes = sum_sizes files;
  used_file_count = pos (length files);
  last_upload_at = max_created files;
  version = r.version +ℤ pos 1;
  updated_at = now;
}

-- The UPDATE of ReconcileTenantUsage
unfoldable pub reconcile_tenant : Time → Text → Tables → Tables
unfolding sum_sizes max_created
reconcile_tenant now tenant_id t = record t {
  usage =
      update_where (λ r. text_eq r.tenant_id tenant_id)
        (reconciled_row now (active_files tenant_id t)) t.usage;
}

module _ (db : Database) where
  abbrev pub unless_failed : Option Err → Result ℕ × Tables → Tables → Result ℕ × Tables
  unless_failed none rest t = rest
  unless_failed (some e) rest t = (err e, t)

  -- The loop, in no transaction: what was written before an error stays.
  unfoldable pub reconcile_all : ℕ → ℕ → List Text → Tables → Result ℕ × Tables
  unfolding reconcile_tenant
  reconcile_all n count [] t = (ok count, t)
  reconcile_all n count (id ∷ ids) t =
      let rest = reconcile_all (n + 1) count ids (reconcile_tenant db.clock id t) in
      unless_failed (db.fault n) rest t

  abbrev pub reconcile_read : Option Err → List Text → Tables → Result ℕ × Tables
  reconcile_read (some e) ids t = (err e, t)
  reconcile_read none ids t = reconcile_all 1 (length ids) ids t

  abbrev pub tenants_to_reconcile : ℤ → Tables → List Text
  tenants_to_reconcile limit t =
      map (λ r. r.tenant_id) (oldest (λ r. true) (λ r. r.updated_at) limit t.usage)

  -- ReconcileTenantUsage
  unfoldable pub reconcile_tenant_usage : ℤ → Tables → Result ℕ × Tables
  unfolding oldest reconcile_all
  reconcile_tenant_usage limit t = reconcile_read (db.fault 0) (tenants_to_reconcile limit t) t
