-- ===== src/Access/Repositories/Deleted.antt =====
-- Downloads of a file that an administrator deleted.
use zhi_file_service_go.Common.{
  ◌≡◌, ℕ, refl, inl, inr, Bool-cases, false, Option, none, some, List, [], ◌∷◌, Text, trim, Time,
  sym, arith,
}
use mathlib.Core.Path.{subst}
use zhi_file_service_go.Xerrors.{Err}
use zhi_file_service_go.Result.{ok}
use zhi_file_service_go.Upload.Tables.{FileRow, Tables, find_row, update_where}
use zhi_file_service_go.Upload.World.{World}
use zhi_file_service_go.Upload.World.Laws.{Returns}
use zhi_file_service_go.Admin.Repositories.{AdminEnv}
use zhi_file_service_go.Admin.Repositories.Statements.{
  is_file, delete_file_row, delete_file_rows, release_blob, release_usage,
}
use zhi_file_service_go.Admin.Commands.{DeleteFileCommand, DeleteFileResult}
use zhi_file_service_go.Admin.Commands.Handlers.{handle_delete_file}
use zhi_file_service_go.Admin.Commands.Deleting.{Unchanged}
use zhi_file_service_go.Admin.Commands.Audited.{Deleted, handle_delete_file-Deleted}
use zhi_file_service_go.Access.File.{AuthContext}
use zhi_file_service_go.Access.Ticket.{DownloadDisposition}
use zhi_file_service_go.Access.Queries.{Ports, ResolveDownloadResult, resolve_download}
use zhi_file_service_go.Access.Queries.Granted.{resolve_download-granted}
use zhi_file_service_go.Access.Repositories.{read_file, reading, scanned_file}

-- The row that a read by the identifier finds is not ACTIVE.
record IsGone (id : Text) (files : List FileRow) : Type 0 where
  row : FileRow
  found : find_row (is_file id) files ≡ some row
  inactive : row.is_active ≡ false

find_row-deleted :
    (at : Time) (id : Text) (files : List FileRow) (r : FileRow)
    → find_row (is_file id) files ≡ some r
    → find_row (is_file id) (update_where (is_file id) (delete_file_row at) files)
      ≡ some (delete_file_row at r)
unfolding delete_file_row
find_row-deleted at id [] r h = absurd (ground arith)
find_row-deleted at id (f ∷ fs) r h = elim (Bool-cases (is_file id f)) [
  | inl e ↦ ground arith
  | inr e ↦ let rest = find_row-deleted at id fs r (ground arith) in ground arith
]

Unchanged-IsGone :
    (env : AdminEnv) (id : Text) (t after : Tables)
    → Unchanged env id t after
    → IsGone id after.files
Unchanged-IsGone env id t after u =
    subst (λ (x : Tables). IsGone id x.files) (sym u.same)
      (record { row = u.row; found = u.found; inactive = u.inactive })

Deleted-IsGone :
    (env : AdminEnv) (command : DeleteFileCommand) (id : Text) (t after : Tables)
    → Deleted env command id t after
    → IsGone id after.files
unfolding delete_file_rows release_blob release_usage delete_file_row
Deleted-IsGone env command id t after d =
    subst (λ (x : Tables). IsGone id x.files) (sym d.after_is)
      (record {
        row = delete_file_row d.at d.row;
        found = find_row-deleted d.at id t.files d.row d.found;
        inactive = refl;
      })

gone_not_downloaded :
    (p : Ports) (fault fault' : Option Err) (id : Text) (t : Tables)
    (requested : DownloadDisposition) (auth : AuthContext) (r : ResolveDownloadResult)
    → IsGone id t.files
    → ¬ (resolve_download (reading p fault fault' t) id requested auth ≡ ok r)
unfolding read_file scanned_file
gone_not_downloaded p none fault' id t requested auth r g h =
    let granted = resolve_download-granted (reading p none fault' t) id requested auth r h in
    let read = granted.1 in
    let active = granted.2 in let same = g.found in let gone = g.inactive in ground arith
gone_not_downloaded p (some e) fault' id t requested auth r g h =
    let granted = resolve_download-granted (reading p (some e) fault' t) id requested auth r h in
    let read = granted.1 in absurd (ground arith)

-- Once DeleteFileHandler.Handle has answered, outside of any transaction and where no other request
-- writes meanwhile, no download of the trimmed identifier is answered on the tables that it left,
-- whoever asks for it and in whatever way, also where it found the file deleted already.
pub deleted_not_downloaded :
    (env : AdminEnv)
    → ((n : ℕ) (t : Tables) → env.base.meanwhile n t ≡ t)
    → (formatted : Time → Text) (command : DeleteFileCommand) (w : World) (d : DeleteFileResult)
      (v : World)
    → w.in_transaction ≡ false
    → Returns (handle_delete_file env formatted command) w d v
    → (p : Ports) (fault fault' : Option Err) (requested : DownloadDisposition) (auth : AuthContext)
      (r : ResolveDownloadResult)
    → ¬ (
        resolve_download (reading p fault fault' v.tables) (trim command.file_id) requested auth
        ≡ ok r)
deleted_not_downloaded env quiet formatted command w d v n h p fault fault' requested auth r =
    gone_not_downloaded p fault fault' (trim command.file_id) v.tables requested auth r
      (elim (handle_delete_file-Deleted env quiet formatted command w d v n h) [
        | inl u ↦ Unchanged-IsGone env (trim command.file_id) w.tables v.tables u
        | inr x ↦ Deleted-IsGone env command (trim command.file_id) w.tables v.tables x
      ])
