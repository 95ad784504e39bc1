-- ===== src/Checkpoint/Disk.antt =====
-- The files that the checkpoints read and write. Paths are absolute and clean, so that
-- `filepath.Abs` changes none; contents are bytes; modes and times are left out. A call of the
-- operating system fails only where a file is missing.
use go_certbot.Prelude.{Bool, List, [], ◌∷◌, ◌++◌, Option, none, some, Bytes, if◌then◌else◌}
use go_certbot.Golib.Strings.Split.{split}
use go_certbot.Golib.Strings.{equal, has_prefix, trim_space}

-- `in_progress` says whether <work_dir>/in-progress exists, and `backups` names the directories in
-- <work_dir>/backups.
pub record Disk : Type 0 where
  pub files : Bytes → Option Bytes
  pub in_progress : Bool
  pub backups : List Bytes

-- `filepath.Join` of a clean path and a name.
abbrev pub join_path : Bytes → Bytes → Bytes
join_path dir name = dir ++ (b'/' ∷ name)

abbrev last_of : Bytes → List Bytes → Bytes
last_of s [] = s
last_of s (t ∷ ts) = last_of t ts

-- `filepath.Base` of a clean path other than the root.
unfoldable pub base : Bytes → Bytes
unfolding split
base path = last_of [] (split b'/' path)

unfoldable pub write : Bytes → Option Bytes → Disk → Disk
write path content d = record d { files = λ q. if equal path q then content else d.files q }

-- The files of a directory are gone.
unfoldable pub clear : Bytes → Disk → Disk
clear dir d = record d { files = λ q. if has_prefix q (join_path dir []) then none else d.files q }

abbrev pub content_of : Option Bytes → Bytes
content_of none = []
content_of (some s) = s

-- `appendLine`: the file is created if it is missing.
unfoldable pub append_line : Bytes → Bytes → Disk → Disk
unfolding write
append_line path line d = write path (some (content_of (d.files path) ++ (line ++ b'\n' ∷ []))) d

unfoldable pub append_lines : Bytes → List Bytes → Disk → Disk
unfolding append_line
append_lines path [] d = d
append_lines path (line ∷ lines) d = append_lines path lines (append_line path line d)

abbrev keep_line : Bytes → List Bytes → List Bytes
keep_line [] rest = rest
keep_line (c ∷ s) rest = (c ∷ s) ∷ rest

abbrev nonblank : List Bytes → List Bytes
nonblank [] = []
nonblank (line ∷ lines) = keep_line (trim_space line) (nonblank lines)

-- The loop of `readLines`; a missing file has no lines.
unfoldable pub read_lines : Option Bytes → List Bytes
unfolding trim_space split
read_lines none = []
read_lines (some content) = nonblank (split b'\n' content)
