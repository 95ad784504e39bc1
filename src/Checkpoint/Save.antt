-- ===== src/Checkpoint/Save.antt =====
-- `Save`, with the marker of the checkpoint that is open, and `MarkClean`.
pub mod Outside
use go_certbot.Prelude.{
  ℕ, ◌+◌, Bool, true, false, ◌&&◌, List, [], ◌∷◌, ◌++◌, Option, none, some, Bytes, codes, length,
  if◌then◌else◌,
}
use go_certbot.Checkpoint.Disk.{
  Disk, join_path, base, write, clear, append_line, append_lines, read_lines,
}
use go_certbot.Cli.Domains.{contains}
use go_certbot.Golib.Strconv.{itoa}
use go_certbot.Golib.Strings.{has_prefix, trim_prefix}

-- The process: what is on disk, and `inFlightDir`.
pub record Process : Type 0 where
  pub disk : Disk
  pub in_flight : Option Bytes

abbrev pub in_progress_dir : Bytes → Bytes
in_progress_dir work = join_path work (codes "in-progress")

-- The name of the copy of a file.
unfoldable pub backup_name : Bytes → ℕ → Bytes
unfolding base itoa
backup_name path idx = base path ++ (b'_' ∷ itoa idx)

-- The variables of the loop of `Save`.
pub record Batch : Type 0 where
  pub on_disk : Disk
  pub idx : ℕ
  pub added_files : List Bytes
  pub added_new : List Bytes

abbrev pub snapshot_of : Option Bytes → Bytes → Bytes → Batch → Batch
snapshot_of none dir path b = record b { added_new = b.added_new ++ path ∷ [] }
snapshot_of (some content) dir path b = record b {
  on_disk = write (join_path dir (backup_name path b.idx)) (some content) b.on_disk;
  idx = b.idx + 1;
  added_files = b.added_files ++ path ∷ [];
}

-- One round: a path that an earlier call has recorded is left out.
unfoldable pub snapshot : List Bytes → Bytes → Bytes → Batch → Batch
unfolding contains write backup_name
snapshot existing dir path b =
    if contains existing path then b else snapshot_of (b.on_disk.files path) dir path b

unfoldable pub snapshot_all : List Bytes → Bytes → List Bytes → Batch → Batch
unfolding snapshot
snapshot_all existing dir [] b = b
snapshot_all existing dir (path ∷ paths) b =
    snapshot_all existing dir paths (snapshot existing dir path b)

abbrev is_nil : List Bytes → Bool
is_nil [] = true
is_nil (x ∷ xs) = false

abbrev pub append_label : Bytes → Bytes → Disk → Disk
append_label dir [] d = d
append_label dir (c ∷ label) d = append_line (join_path dir (codes "CHANGES_SINCE")) (c ∷ label) d

-- What is written behind the loop.
unfoldable pub record_batch : Bytes → Bytes → Batch → Disk
unfolding append_lines
record_batch dir label b = append_label dir label (
    append_lines (join_path dir (codes "NEW_FILES")) b.added_new
      (append_lines (join_path dir (codes "FILEPATHS")) b.added_files b.on_disk))

-- The result is the directory of the checkpoint, `none` if nothing was there to back up.
unfoldable pub save : Bytes → Bytes → List Bytes → Process → Option Bytes × Process
unfolding snapshot_all record_batch read_lines clear
save work label paths p =
    let dir = in_progress_dir work in
    let existing = read_lines (p.disk.files (join_path dir (codes "FILEPATHS"))) in
    let b = snapshot_all existing dir paths (record {
      on_disk = record (p.disk) { in_progress = true };
      idx = length existing;
      added_files = [];
      added_new = [];
    }) in
    if is_nil b.added_files && is_nil existing
    then (none, record p { disk = record (clear dir b.on_disk) { in_progress = false } })
    else (some dir, record { disk = record_batch dir label b; in_flight = some dir })

abbrev pub backup_dir : Bytes → Bytes → Bytes
backup_dir work stamp = join_path (join_path work (codes "backups")) stamp

-- `os.Rename` of the open checkpoint to <work_dir>/backups/<stamp>.
unfoldable pub promote : Bytes → Bytes → Disk → Disk
promote work stamp d =
    let from = join_path (in_progress_dir work) [] in
    let to = join_path (backup_dir work stamp) [] in
    record {
      files = λ q.
          if has_prefix q to
          then d.files (from ++ trim_prefix q to)
          else if has_prefix q from
          then none
          else d.files q;
      in_progress = false;
      backups = d.backups ++ stamp ∷ [];
    }

-- `MarkClean`; `stamp` is the name that `nextTimestamp` picks.
unfoldable pub mark_clean : Bytes → Bytes → Process → Process
unfolding promote
mark_clean work stamp p = elim (p.in_flight) [
  | none ↦ p
  | some dir ↦
      if p.disk.in_progress
      then record { disk = promote work stamp p.disk; in_flight = none }
      else record p { in_flight = none }
]
