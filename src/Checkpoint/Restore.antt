-- ===== src/Checkpoint/Restore.antt =====
-- `restoreDir` with its two callers, `List` and `Restore`.

pub mod Seen
pub mod Newest
use go_certbot.Prelude.{
  ℕ, zero, suc, ◌+◌, ◌-◌, Bool, true, false, not, List, [], ◌∷◌, ◌++◌, Option, none, some, Bytes,
  codes, length, drop, reverse, within, if◌then◌else◌, Result, ok, err,
}
use go_certbot.Checkpoint.Disk.{Disk, join_path, write, clear, read_lines}
use go_certbot.Checkpoint.Save.{Process, in_progress_dir, backup_name, backup_dir}
use go_certbot.Cli.Domains.{contains}
use go_certbot.Golib.Strings.Sort.{sort_strings}
use go_certbot.Golib.Strings.{equal}

pub data Error : Type 0 where
  missing_backup : Bytes → Error
  no_checkpoints : Error

abbrev copy_of : Option Bytes → Bytes → Bytes → Disk → Result Error (Unit {0}) × Disk
copy_of none src dst d = (err (missing_backup src), d)
copy_of (some content) src dst d = (ok tt, write dst (some content) d)

-- `restoreFile`.
unfoldable pub restore_file : Bytes → Bytes → Disk → Result Error (Unit {0}) × Disk
unfolding write
restore_file src dst d = copy_of (d.files src) src dst d

abbrev pub and_then :
    {S : Type 0}
    → Result Error (Unit {0}) × S
    → (S → Result Error (Unit {0}) × S)
    → Result Error (Unit {0}) × S
and_then (ok u, s) f = f s
and_then (err e, s) f = (err e, s)

-- The loop of `restoreDir` over the recorded paths, from index `idx`.
unfoldable pub restore_paths : Bytes → ℕ → List Bytes → Disk → Result Error (Unit {0}) × Disk
unfolding restore_file backup_name
restore_paths dir idx [] d = (ok tt, d)
restore_paths dir idx (path ∷ paths) d =
    and_then (restore_file (join_path dir (backup_name path idx)) path d)
      λ d'. restore_paths dir (idx + 1) paths d'

-- `os.Remove` of each path, whose errors are ignored.
unfoldable pub remove_paths : List Bytes → Disk → Disk
unfolding write
remove_paths [] d = d
remove_paths (path ∷ paths) d = remove_paths paths (write path none d)

-- `restoreDir` of the open checkpoint.
unfoldable pub restore_dir : Bytes → Disk → Result Error (Unit {0}) × Disk
unfolding restore_paths remove_paths clear read_lines
restore_dir dir d =
    and_then (restore_paths dir 0 (read_lines (d.files (join_path dir (codes "FILEPATHS")))) d)
      λ d'.
        let created = read_lines (d'.files (join_path dir (codes "NEW_FILES"))) in
        (ok tt, record (clear dir (remove_paths created d')) { in_progress = false })

-- `RestoreInFlight`: the marker is cleared first, whatever comes of the rest.
unfoldable pub restore_in_flight : Process → Result Error (Unit {0}) × Process
unfolding restore_dir
restore_in_flight p = elim (p.in_flight) [
  | none ↦ (ok tt, p)
  | some dir ↦ let (r, d) = restore_dir dir p.disk in (r, record { disk = d; in_flight = none })
]

-- `RecoverInterrupted`, at the start of a process.
unfoldable pub recover_interrupted : Bytes → Disk → Result Error (Unit {0}) × Disk
unfolding restore_dir
recover_interrupted work d =
    if d.in_progress then restore_dir (in_progress_dir work) d else (ok tt, d)

abbrev starts_with_digit : Bytes → Bool
starts_with_digit [] = false
starts_with_digit (c ∷ s) = within b'0' b'9' c

abbrev timestamps : List Bytes → List Bytes
timestamps [] = []
timestamps (n ∷ ns) = let rest = timestamps ns in if starts_with_digit n then n ∷ rest else rest

-- `List`: the names of the checkpoints, oldest first.
unfoldable pub list_checkpoints : Disk → List Bytes
unfolding sort_strings
list_checkpoints d = sort_strings (timestamps d.backups)

-- The variables of the loop of `Restore`.
pub record Rolled : Type 0 where
  pub on_disk : Disk
  pub seen : List Bytes
  pub changed : List Bytes

abbrev pub restored_path :
    Bytes → Rolled → Result Error (Unit {0}) × Disk → Result Error (Unit {0}) × Rolled
restored_path path r (ok u, d) =
    (ok tt, record { on_disk = d; seen = path ∷ r.seen; changed = r.changed ++ path ∷ [] })
restored_path path r (err e, d) = (err e, record r { on_disk = d; seen = path ∷ r.seen })

-- A path of one checkpoint; what a newer one has restored is left alone.
unfoldable pub roll_path : Bytes → ℕ → Bytes → Rolled → Result Error (Unit {0}) × Rolled
unfolding contains restore_file backup_name
roll_path dir idx path r =
    if contains r.seen path
    then (ok tt, r)
    else restored_path path r (restore_file (join_path dir (backup_name path idx)) path r.on_disk)

unfoldable pub roll_paths : Bytes → ℕ → List Bytes → Rolled → Result Error (Unit {0}) × Rolled
unfolding roll_path
roll_paths dir idx [] r = (ok tt, r)
roll_paths dir idx (path ∷ paths) r =
    and_then (roll_path dir idx path r) λ r'. roll_paths dir (idx + 1) paths r'

abbrev pub removed_path : Option Bytes → Bytes → Rolled → Rolled
removed_path none path r = r
removed_path (some s) path r = record r {
  on_disk = write path none r.on_disk;
  changed = r.changed ++ path ∷ [];
}

-- The paths that a checkpoint has created: only a file that is there counts as changed.
unfoldable pub roll_created : List Bytes → Rolled → Rolled
unfolding write
roll_created [] r = r
roll_created (path ∷ paths) r = roll_created paths (removed_path (r.on_disk.files path) path r)

abbrev without : Bytes → List Bytes → List Bytes
without s [] = []
without s (t ∷ ts) = let rest = without s ts in if equal t s then rest else t ∷ rest

abbrev pub drop_checkpoint : Bytes → Bytes → Rolled → Rolled
drop_checkpoint work stamp r = record r {
  on_disk = record (clear (backup_dir work stamp) (r.on_disk)) {
    backups = without stamp r.on_disk.backups;
  };
}

-- One round of the loop of `Restore`.
unfoldable pub roll_checkpoint : Bytes → Bytes → Rolled → Result Error (Unit {0}) × Rolled
unfolding roll_paths roll_created read_lines clear
roll_checkpoint work stamp r =
    let dir = backup_dir work stamp in
    and_then (roll_paths dir 0 (read_lines (r.on_disk.files (join_path dir (codes "FILEPATHS")))) r)
      λ r'.
        let created = read_lines (r'.on_disk.files (join_path dir (codes "NEW_FILES"))) in
        (ok tt, drop_checkpoint work stamp (roll_created created r'))

unfoldable pub roll_all : Bytes → List Bytes → Rolled → Result Error (Unit {0}) × Rolled
unfolding roll_checkpoint
roll_all work [] r = (ok tt, r)
roll_all work (stamp ∷ stamps) r =
    and_then (roll_checkpoint work stamp r) λ r'. roll_all work stamps r'

abbrev start_rolled : Disk → Rolled
start_rolled d = record { on_disk = d; seen = []; changed = [] }

abbrev paths_of : Result Error (Unit {0}) × Rolled → Result Error (List Bytes) × Disk
paths_of (ok u, r) = (ok r.changed, r.on_disk)
paths_of (err e, r) = (err e, r.on_disk)

abbrev restore_from : List Bytes → Bytes → ℕ → Disk → Result Error (List Bytes) × Disk
restore_from [] work n d = (err no_checkpoints, d)
restore_from (s ∷ ss) work n d =
    paths_of (roll_all work (reverse (drop (length (s ∷ ss) - n) (s ∷ ss))) (start_rolled d))

-- `Restore` of the newest `n` checkpoints, newest first: the paths that it changed.
unfoldable pub restore : Bytes → ℕ → Disk → Result Error (List Bytes) × Disk
unfolding roll_all list_checkpoints
restore work zero d = (ok [], d)
restore work (suc n) d = restore_from (list_checkpoints d) work (suc n) d
