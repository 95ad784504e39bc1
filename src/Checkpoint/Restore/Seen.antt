-- ===== src/Checkpoint/Restore/Seen.antt =====
-- The loop of `Restore` of internal/checkpoint/checkpoint.go over the paths of one checkpoint: which
-- paths count as restored, and that it leaves alone those that do.
use go_certbot.Prelude.{
  ℕ, ◌+◌, ◌≡◌, refl, sym, ap, ◌∙◌, Bool, true, false, List, [], ◌∷◌, Option, none, some, Bytes,
  ◌||◌, Bool-cases, inl, inr, ◌⊎◌, Result, ok, err,
}
use go_certbot.Checkpoint.Disk.{Disk, write}
use go_certbot.Checkpoint.Restore.{
  Error, Rolled, and_then, restored_path, restore_file, roll_path, roll_paths,
}
use go_certbot.Cli.Domains.{contains}
use go_certbot.Golib.Strings.Laws.{equal_iff, equal_refl}
use go_certbot.Golib.Strings.{equal}

-- Between two states of the loop, a path keeps its file and counts as restored.
abbrev pub Kept : Bytes → Rolled → Rolled → Type 0
Kept q r s = (s.on_disk.files q ≡ r.on_disk.files q) × (contains (s.seen) q ≡ true)

and_then-Kept :
    (q : Bytes) (r : Rolled) (x : Result Error (Unit {0}) × Rolled)
    (f : Rolled → Result Error (Unit {0}) × Rolled)
    → Kept q r (x.1)
    → ((s : Rolled) → Kept q r s → Kept q r ((f s).1))
    → Kept q r ((and_then x f).1)
and_then-Kept q r (ok u, s) f h g = g s h
and_then-Kept q r (err e, s) f h g = h

-- A restored file is the only one that changes.
restore_file-files :
    (src dst q : Bytes) (d : Disk)
    → equal dst q ≡ false
    → (restore_file src dst d).1.files q ≡ d.files q
unfolding restore_file write
restore_file-files src dst q d n = on (d.files src) refl
  where
    on : (o : Option Bytes) → d.files src ≡ o → (restore_file src dst d).1.files q ≡ d.files q
    on none e = rw e refl
    on (some content) e = rw (e, n) refl

contains_same : {a b : Bytes} → a ≡ b → (l : List Bytes) → contains l a ≡ contains l b
contains_same e l = ap (contains l) e

or_true : (b : Bool) → (b || true) ≡ true
or_true true = refl
or_true false = refl

restored_path-Kept :
    (path q : Bytes) (r : Rolled) (x : Result Error (Unit {0}) × Disk)
    → x.1.files q ≡ r.on_disk.files q
    → contains (r.seen) q ≡ true
    → Kept q r ((restored_path path r x).1)
unfolding contains
restored_path-Kept path q r (ok u, d) e h = (e, rw h (or_true (equal path q)))
restored_path-Kept path q r (err b, d) e h = (e, rw h (or_true (equal path q)))

restored_path-seen :
    (path : Bytes) (r : Rolled) (x : Result Error (Unit {0}) × Disk)
    → contains ((restored_path path r x).1.seen) path ≡ true
unfolding contains
restored_path-seen path r (ok u, d) = rw (equal_refl path) refl
restored_path-seen path r (err b, d) = rw (equal_refl path) refl

roll_path-Kept :
    (dir : Bytes) (idx : ℕ) (path q : Bytes) (r : Rolled)
    → contains (r.seen) q ≡ true
    → Kept q r ((roll_path dir idx path r).1)
unfolding roll_path
roll_path-Kept dir idx path q r h = elim (Bool-cases (contains (r.seen) path)) [
  | inl e ↦ rw e (refl, h)
  | inr e ↦
      rw e (restored_path-Kept path q r _ (restore_file-files _ path q (r.on_disk) (other e)) h)
]
  where
    other : contains (r.seen) path ≡ false → equal path q ≡ false
    other e = elim (Bool-cases (equal path q)) [
      | inr d ↦ d
      | inl d ↦ absurd (cc (contains_same ((equal_iff path q).0 d) (r.seen), e, h))
    ]

roll_path-seen :
    (dir : Bytes) (idx : ℕ) (path : Bytes) (r : Rolled)
    → contains ((roll_path dir idx path r).1.seen) path ≡ true
unfolding roll_path
roll_path-seen dir idx path r = elim (Bool-cases (contains (r.seen) path)) [
  | inl e ↦ rw e e
  | inr e ↦ rw e (restored_path-seen path r _)
]

pub roll_paths-Kept :
    (dir : Bytes) (idx : ℕ) (paths : List Bytes) (q : Bytes) (r : Rolled)
    → contains (r.seen) q ≡ true
    → Kept q r ((roll_paths dir idx paths r).1)
unfolding roll_paths
roll_paths-Kept dir idx [] q r h = (refl, h)
roll_paths-Kept dir idx (path ∷ paths) q r h =
    and_then-Kept q r (roll_path dir idx path r) _ (roll_path-Kept dir idx path q r h)
      (λ s k. let rest = roll_paths-Kept dir (idx + 1) paths q s (k.1) in (rest.0 ∙ k.0, rest.1))

-- A round that succeeds has restored every path of its list.
pub listed-seen :
    (dir : Bytes) (idx : ℕ) (paths : List Bytes) (q : Bytes) (r : Rolled)
    → contains paths q ≡ true
    → (roll_paths dir idx paths r).0 ≡ ok tt
    → contains ((roll_paths dir idx paths r).1.seen) q ≡ true
unfolding contains roll_paths
listed-seen dir idx [] q r h e = absurd (cc h)
listed-seen dir idx (path ∷ paths) q r h e =
    go (λ s d. listed-seen dir (idx + 1) paths q s (rw d at h)) (roll_path dir idx path r)
      (roll_path-seen dir idx path r) (Bool-cases (equal path q)) e
  where
    go :
        ((s : Rolled)
          → equal path q ≡ false
          → (roll_paths dir (idx + 1) paths s).0 ≡ ok tt
          → contains ((roll_paths dir (idx + 1) paths s).1.seen) q ≡ true)
        → (x : Result Error (Unit {0}) × Rolled) → contains (x.1.seen) path ≡ true
        → (equal path q ≡ true) ⊎ (equal path q ≡ false)
        → (and_then x (λ s. roll_paths dir (idx + 1) paths s)).0 ≡ ok tt
        → contains ((and_then x (λ s. roll_paths dir (idx + 1) paths s)).1.seen) q ≡ true
    go later (err b, s) seen _ e = absurd (cc e)
    go later (ok u, s) seen (inl d) e =
        (roll_paths-Kept dir (idx + 1) paths q s
          (sym (contains_same ((equal_iff path q).0 d) (s.seen)) ∙ seen)).1
    go later (ok u, s) seen (inr d) e = later s d e
