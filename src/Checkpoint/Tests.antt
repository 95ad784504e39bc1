-- ===== src/Checkpoint/Tests.antt =====
-- The witnesses of the theorems on checkpoints.
use go_certbot.Prelude.{
  [], ◌∷◌, ◌≡◌, refl, Option, Bytes, String, false, if◌then◌else◌, none, some, codes,
}
use go_certbot.Golib.Strings.{has_prefix, equal}
use go_certbot.Checkpoint.Save.Outside.{Outside, files-save}
use go_certbot.Checkpoint.Save.{Process, in_progress_dir, save}
use go_certbot.Checkpoint.Restore.Newest.{Stays, roll_all_keeps_newer}
use go_certbot.Checkpoint.Restore.{
  Rolled, restore, roll_checkpoint, roll_all, roll_paths, roll_path, restore_file,
}
use go_certbot.Checkpoint.Disk.{Disk}
use go_certbot.Cli.Domains.{contains}

abbrev file : String → Option Bytes → (Bytes → Option Bytes) → Bytes → Option Bytes
file name content others q = if equal (codes name) q then content else others q

-- The file /f was `a` before the first checkpoint, `b` before the second, and is `c` now.
abbrev twice_changed : Bytes → Bytes → Bytes → Disk
twice_changed a b c = record {
  files = file "/f" (some c) (
      file "/w/backups/1/FILEPATHS" (some (codes "/f\n")) (
        file "/w/backups/1/f_0" (some a) (
          file "/w/backups/2/FILEPATHS" (some (codes "/f\n"))
            (file "/w/backups/2/f_0" (some b) (λ _. none)))));
  in_progress = false;
  backups = codes "1" ∷ codes "2" ∷ [];
}

abbrev at_f : Disk → Option Bytes
at_f d = d.files (codes "/f")

-- `Restore` of both checkpoints at once, and of one, twice.
restore_both :
    (at_f (restore (codes "/w") 2 (twice_changed (codes "x") (codes "y") (codes "z"))).1
      ≡ some (codes "y"))
    × (at_f
          (restore
            (codes "/w")
            1
            (restore (codes "/w") 1 (twice_changed (codes "x") (codes "y") (codes "z"))).1).1
        ≡ some (codes "x"))
unfolding restore equal has_prefix
restore_both = (refl, refl)

abbrev at_start : Rolled
at_start = record {
  on_disk = twice_changed (codes "x") (codes "y") (codes "z");
  seen = [];
  changed = [];
}

roll_all_keeps_newer_example :
    Stays (codes "/f") ((roll_checkpoint (codes "/w") (codes "2") at_start).1) (
      (roll_all
        (codes "/w")
        (codes "1" ∷ [])
        ((roll_checkpoint (codes "/w") (codes "2") at_start).1)).1)
unfolding roll_checkpoint roll_paths roll_path restore_file equal has_prefix contains
roll_all_keeps_newer_example =
    roll_all_keeps_newer (codes "/w") (codes "2") (codes "1" ∷ []) (codes "/f") at_start refl refl

abbrev process : Process
process = record { disk = twice_changed (codes "x") (codes "y") (codes "z"); in_flight = none }

outside : Outside (in_progress_dir (codes "/w")) (codes "/f")
unfolding has_prefix
outside = refl

files-save_example :
    (save (codes "/w") (codes "edit") (codes "/f" ∷ codes "/g" ∷ []) process).1.disk.files
      (codes "/f")
    ≡ process.disk.files (codes "/f")
files-save_example =
    files-save (codes "/w") (codes "edit") (codes "/f" ∷ codes "/g" ∷ []) process (codes "/f")
      outside
