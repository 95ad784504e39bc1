-- ===== src/Checkpoint/Save/Outside.antt =====
-- Which files `Save` of internal/checkpoint/checkpoint.go leaves alone.
use go_certbot.Prelude.{
  ◌≡◌, refl, sym, ◌∙◌, true, false, ◌&&◌, List, [], ◌∷◌, ◌++◌, Option, none, some, Bytes, codes,
  append_assoc, Bool-cases, inl, inr, if-property, length,
}
use go_certbot.Checkpoint.Disk.{
  Disk, join_path, write, clear, append_line, append_lines, read_lines,
}
use go_certbot.Checkpoint.Save.{
  Process, in_progress_dir, backup_name, Batch, snapshot, snapshot_all, snapshot_of, append_label,
  record_batch, save, is_nil,
}
use go_certbot.Cli.Domains.{contains}
use go_certbot.Golib.Strings.Laws.{equal_iff, has_prefix-append}
use go_certbot.Golib.Strings.{equal, has_prefix}

-- The path is not in the directory.
abbrev pub Outside : Bytes → Bytes → Type 0
Outside dir q = has_prefix q (join_path dir []) ≡ false

join_path-prefix : (dir name : Bytes) → has_prefix (join_path dir name) (join_path dir []) ≡ true
join_path-prefix dir name =
    rw (sym (append_assoc dir (b'/' ∷ []) name)) (has_prefix-append (dir ++ b'/' ∷ []) name)

module _ (dir q : Bytes) (outside : Outside dir q) where
  files-write :
      (name : Bytes) (content : Option Bytes) (d : Disk)
      → (write (join_path dir name) content d).files q ≡ d.files q
  unfolding write
  files-write name content d = elim (Bool-cases (equal (join_path dir name) q)) [
    | inl e ↦ cc (outside, join_path-prefix dir name, (equal_iff (join_path dir name) q).0 e)
    | inr e ↦ rw e refl
  ]

  files-append_lines :
      (name : Bytes) (lines : List Bytes) (d : Disk)
      → (append_lines (join_path dir name) lines d).files q ≡ d.files q
  unfolding append_lines append_line
  files-append_lines name [] d = refl
  files-append_lines name (line ∷ lines) d =
      files-append_lines name lines (append_line (join_path dir name) line d) ∙ files-write name _ d

  files-append_label : (label : Bytes) (d : Disk) → (append_label dir label d).files q ≡ d.files q
  unfolding append_line
  files-append_label [] d = refl
  files-append_label (c ∷ label) d = files-write (codes "CHANGES_SINCE") _ d

  files-clear : (d : Disk) → (clear dir d).files q ≡ d.files q
  unfolding clear
  files-clear d = rw outside refl

  files-snapshot_of :
      (found : Option Bytes) (path : Bytes) (b : Batch)
      → (snapshot_of found dir path b).on_disk.files q ≡ b.on_disk.files q
  files-snapshot_of none path b = refl
  files-snapshot_of (some content) path b =
      files-write (backup_name path b.idx) (some content) b.on_disk

  files-snapshot_all :
      (existing paths : List Bytes) (b : Batch)
      → (snapshot_all existing dir paths b).on_disk.files q ≡ b.on_disk.files q
  unfolding snapshot_all snapshot
  files-snapshot_all existing [] b = refl
  files-snapshot_all existing (path ∷ paths) b =
      files-snapshot_all existing paths (snapshot existing dir path b)
      ∙ if-property {A = Batch} (λ c. c.on_disk.files q ≡ b.on_disk.files q)
          (contains existing path) (λ e. refl)
          (λ e. files-snapshot_of (b.on_disk.files path) path b)

  files-record_batch :
      (label : Bytes) (b : Batch) → (record_batch dir label b).files q ≡ b.on_disk.files q
  unfolding record_batch
  files-record_batch label b =
      files-append_label label _
      ∙ files-append_lines (codes "NEW_FILES") b.added_new _
      ∙ files-append_lines (codes "FILEPATHS") b.added_files b.on_disk

-- Whatever is saved, and under whatever label, a file outside the directory of the open checkpoint
-- stays as it was, whether or not the checkpoint is kept.
pub files-save :
    (work label : Bytes) (paths : List Bytes) (p : Process) (q : Bytes)
    → Outside (in_progress_dir work) q
    → (save work label paths p).1.disk.files q ≡ p.disk.files q
unfolding save
files-save work label paths p q outside =
    let dir = in_progress_dir work in
    let existing = read_lines (p.disk.files (join_path dir (codes "FILEPATHS"))) in
    let first : Batch = record {
      on_disk = record (p.disk) { in_progress = true };
      idx = length existing;
      added_files = [];
      added_new = [];
    } in
    let b = snapshot_all existing dir paths first in
    let kept = files-snapshot_all dir q outside existing paths first in
    if-property {A = Option Bytes × Process} (λ r. r.1.disk.files q ≡ p.disk.files q)
      (is_nil b.added_files && is_nil existing) (λ e. files-clear dir q outside b.on_disk ∙ kept)
      (λ e. files-record_batch dir q outside label b ∙ kept)
