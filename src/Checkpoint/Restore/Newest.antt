-- ===== src/Checkpoint/Restore/Newest.antt =====
-- A file that two checkpoints hold: what `Restore` of internal/checkpoint/checkpoint.go has taken
-- from the newer one stays.
use go_certbot.Prelude.{
  ◌≡◌, refl, codes, ◌∙◌, true, List, [], ◌∷◌, Option, none, some, Bytes, Bool-cases, inl, inr, ◌⊎◌,
  Result, ok, err,
}
use go_certbot.Checkpoint.Disk.{write, clear, join_path, read_lines}
use go_certbot.Checkpoint.Save.{backup_dir}
use go_certbot.Checkpoint.Restore.{
  Error, Rolled, and_then, roll_paths, roll_checkpoint, roll_all, roll_created, drop_checkpoint,
  removed_path,
}
use go_certbot.Cli.Domains.{contains}
use go_certbot.Golib.Strings.{equal, has_prefix}
use go_certbot.Checkpoint.Restore.Seen.{roll_paths-Kept, listed-seen}

-- A path that counts as restored has the same file, or none.
abbrev pub Stays : Bytes → Rolled → Rolled → Type 0
Stays q r s =
    ((s.on_disk.files q ≡ r.on_disk.files q) ⊎ (s.on_disk.files q ≡ none))
    × (contains (s.seen) q ≡ true)

Stays-trans : (q : Bytes) (r s t : Rolled) → Stays q r s → Stays q s t → Stays q r t
Stays-trans q r s t (inl a, _) (inl b, y) = (inl (b ∙ a), y)
Stays-trans q r s t (inr a, _) (inl b, y) = (inr (b ∙ a), y)
Stays-trans q r s t (_, _) (inr b, y) = (inr b, y)

removed_path-Stays :
    (o : Option Bytes) (path q : Bytes) (r : Rolled)
    → contains (r.seen) q ≡ true
    → Stays q r (removed_path o path r)
unfolding write
removed_path-Stays none path q r h = (inl refl, h)
removed_path-Stays (some c) path q r h = elim (Bool-cases (equal path q)) [
  | inl e ↦ (inr (rw e refl), h)
  | inr e ↦ (inl (rw e refl), h)
]

roll_created-Stays :
    (created : List Bytes) (q : Bytes) (r : Rolled)
    → contains (r.seen) q ≡ true
    → Stays q r (roll_created created r)
unfolding roll_created
roll_created-Stays [] q r h = (inl refl, h)
roll_created-Stays (path ∷ paths) q r h =
    let next = removed_path (r.on_disk.files path) path r in
    let first = removed_path-Stays (r.on_disk.files path) path q r h in
    Stays-trans q r next (roll_created paths next) first (roll_created-Stays paths q next (first.1))

drop_checkpoint-Stays :
    (work stamp q : Bytes) (r : Rolled)
    → contains (r.seen) q ≡ true
    → Stays q r (drop_checkpoint work stamp r)
unfolding clear
drop_checkpoint-Stays work stamp q r h =
    elim (Bool-cases (has_prefix q (join_path (backup_dir work stamp) []))) [
      | inl e ↦ (inr (rw e refl), h)
      | inr e ↦ (inl (rw e refl), h)
    ]

and_then-Stays :
    (q : Bytes) (r : Rolled) (x : Result Error (Unit {0}) × Rolled)
    (f : Rolled → Result Error (Unit {0}) × Rolled)
    → Stays q r (x.1)
    → ((s : Rolled) → contains (s.seen) q ≡ true → Stays q s ((f s).1))
    → Stays q r ((and_then x f).1)
and_then-Stays q r (ok u, s) f h g = Stays-trans q r s ((f s).1) h (g s (h.1))
and_then-Stays q r (err e, s) f h g = h

-- The paths that a checkpoint records.
abbrev pub recorded : Bytes → Bytes → Rolled → List Bytes
recorded work stamp r =
    read_lines (r.on_disk.files (join_path (backup_dir work stamp) (codes "FILEPATHS")))

-- The part of a round behind the loop over the paths.
abbrev created_paths : Bytes → Bytes → Rolled → List Bytes
created_paths work stamp r =
    read_lines (r.on_disk.files (join_path (backup_dir work stamp) (codes "NEW_FILES")))

abbrev finish : Bytes → Bytes → Rolled → Result Error (Unit {0}) × Rolled
finish work stamp r =
    (ok tt, drop_checkpoint work stamp (roll_created (created_paths work stamp r) r))

finish-Stays :
    (work stamp q : Bytes) (r : Rolled)
    → contains (r.seen) q ≡ true
    → Stays q r ((finish work stamp r).1)
finish-Stays work stamp q r h =
    let next = roll_created (created_paths work stamp r) r in
    let first = roll_created-Stays (created_paths work stamp r) q r h in
    Stays-trans q r next (drop_checkpoint work stamp next) first
      (drop_checkpoint-Stays work stamp q next (first.1))

abbrev rolled_paths : Bytes → Bytes → Rolled → Result Error (Unit {0}) × Rolled
rolled_paths work stamp r = roll_paths (backup_dir work stamp) 0 (recorded work stamp r) r

roll_checkpoint-Stays :
    (work stamp q : Bytes) (r : Rolled)
    → contains (r.seen) q ≡ true
    → Stays q r ((roll_checkpoint work stamp r).1)
unfolding roll_checkpoint
roll_checkpoint-Stays work stamp q r h =
    let kept = roll_paths-Kept (backup_dir work stamp) 0 (recorded work stamp r) q r h in
    and_then-Stays q r (rolled_paths work stamp r) (finish work stamp) (inl (kept.0), kept.1)
      (finish-Stays work stamp q)

roll_all-Stays :
    (work : Bytes) (stamps : List Bytes) (q : Bytes) (r : Rolled)
    → contains (r.seen) q ≡ true
    → Stays q r ((roll_all work stamps r).1)
unfolding roll_all
roll_all-Stays work [] q r h = (inl refl, h)
roll_all-Stays work (stamp ∷ stamps) q r h =
    and_then-Stays q r (roll_checkpoint work stamp r) (λ s. roll_all work stamps s)
      (roll_checkpoint-Stays work stamp q r h) (λ s y. roll_all-Stays work stamps q s y)

recorded-seen :
    (work stamp q : Bytes) (r : Rolled)
    → contains (recorded work stamp r) q ≡ true
    → (roll_checkpoint work stamp r).0 ≡ ok tt
    → contains ((roll_checkpoint work stamp r).1.seen) q ≡ true
unfolding roll_checkpoint
recorded-seen work stamp q r h e =
    go (rolled_paths work stamp r)
      (listed-seen (backup_dir work stamp) 0 (recorded work stamp r) q r h) e
  where
    go :
        (x : Result Error (Unit {0}) × Rolled)
        → (x.0 ≡ ok tt → contains (x.1.seen) q ≡ true)
        → (and_then x (finish work stamp)).0 ≡ ok tt
        → contains ((and_then x (finish work stamp)).1.seen) q ≡ true
    go (err b, s) f e = absurd (cc e)
    go (ok u, s) f e = (finish-Stays work stamp q s (f refl)).1

-- Let `Restore` have rolled back a checkpoint with success. Then each path that the checkpoint
-- records has, after any older checkpoints that are rolled back in the same call, with success or
-- not, the content that it had then, or no file is there; never an older copy.
pub roll_all_keeps_newer :
    (work newest : Bytes) (older : List Bytes) (q : Bytes) (r : Rolled)
    → contains (recorded work newest r) q ≡ true
    → (roll_checkpoint work newest r).0 ≡ ok tt
    → Stays q
        ((roll_checkpoint work newest r).1)
        ((roll_all work older ((roll_checkpoint work newest r).1)).1)
roll_all_keeps_newer work newest older q r h e =
    roll_all-Stays work older q _ (recorded-seen work newest q r h e)
