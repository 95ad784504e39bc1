-- ===== src/Hooks/Dir.antt =====
-- `RunDir`, `RunDirIf` and `PreRunner.RunDirShared` of internal/hooks/hooks.go: which files of a hook
-- directory run, and in which order.
pub mod Order
use go_certbot.Prelude.{
  Bool, true, false, not, ◌&&◌, ◌||◌, List, [], ◌∷◌, ◌++◌, Option, none, some, Bytes, codes,
  if◌then◌else◌,
}
use go_certbot.Cli.Domains.{contains}
use go_certbot.Golib.Strings.Fields.{fields}
use go_certbot.Golib.Strings.Sort.{leb_string}
use go_certbot.Golib.Strings.{has_suffix}

-- What the system says of an entry: `stat` is `none` where `os.Stat` fails, else whether a
-- permission bit for execution is set; `target` is what `filepath.EvalSymlinks` returns.
pub record File : Type 0 where
  pub name : Bytes
  pub is_dir : Bool
  pub stat : Option Bool
  pub path : Bytes
  pub target : Option Bytes
  pub succeeds : Bool

-- `filepath.Abs` and `filepath.EvalSymlinks` of a word of a command, `none` for an error.
pub record Resolver : Type 0 where
  pub abs : Bytes → Option Bytes
  pub eval_symlinks : Bytes → Option Bytes

pub data DirResult : Type 0 where
  done : DirResult
  unreadable : DirResult
  hook_failed : Bytes → DirResult
  index_panic : DirResult

pub data Listing : Type 0 where
  missing unlisted : Listing
  entries : List File → Listing

abbrev pub real_or : Bytes → Option Bytes → Bytes
real_or path none = path
real_or path (some real) = real

abbrev skip_of : Resolver → Option Bytes → List Bytes
skip_of r none = []
skip_of r (some path) = real_or path (r.eval_symlinks path) ∷ []

-- `none` is the panic of `strings.Fields(h)[0]`.
abbrev add_word : Resolver → List Bytes → Option (List Bytes) → Option (List Bytes)
add_word r words none = none
add_word r [] (some skip) = none
add_word r (first ∷ args) (some skip) = some (skip_of r (r.abs first) ++ skip)

-- The set `skip`.
unfoldable pub skip_set : Resolver → List Bytes → Option (List Bytes)
unfolding fields
skip_set r [] = some []
skip_set r ([] ∷ hooks) = skip_set r hooks
skip_set r ((c ∷ h) ∷ hooks) = add_word r (fields (c ∷ h)) (skip_set r hooks)

unfoldable pub insert_file : File → List File → List File
unfolding leb_string
insert_file f [] = f ∷ []
insert_file f (g ∷ gs) = if leb_string f.name g.name then f ∷ g ∷ gs else g ∷ insert_file f gs

-- The files of the directory but editor backups, by name.
unfoldable pub hook_files : List File → List File
unfolding insert_file has_suffix
hook_files [] = []
hook_files (f ∷ fs) =
    let rest = hook_files fs in
    if f.is_dir || has_suffix f.name (codes "~") then rest else insert_file f rest

abbrev pub is_executable : Option Bool → Bool
is_executable none = false
is_executable (some x) = x

unfoldable pub runs : List Bytes → File → Bool
unfolding contains
runs skip f = is_executable f.stat && not (contains skip (real_or f.path f.target))

-- The loop: the first failure ends it. The second part is what has run.
unfoldable pub run_files : List Bytes → List File → DirResult × List Bytes
unfolding runs
run_files skip [] = (done, [])
run_files skip (f ∷ fs) =
    let (result, ran) = run_files skip fs in
    if runs skip f
    then if f.succeeds then (result, f.path ∷ ran) else (hook_failed f.path, f.path ∷ [])
    else (result, ran)

abbrev run_sorted : Option (List Bytes) → List File → DirResult × List Bytes
run_sorted none files = (index_panic, [])
run_sorted (some skip) files = run_files skip files

unfoldable pub run_dir : Resolver → Listing → List Bytes → DirResult × List Bytes
unfolding skip_set hook_files run_files
run_dir r missing dedup_against = (done, [])
run_dir r unlisted dedup_against = (unreadable, [])
run_dir r (entries files) dedup_against = run_sorted (skip_set r dedup_against) (hook_files files)

unfoldable pub run_dir_if : Resolver → Bool → Listing → List Bytes → DirResult × List Bytes
unfolding run_dir
run_dir_if r false dir dedup = (done, [])
run_dir_if r true dir dedup = run_dir r dir dedup

-- `ran` is the set of `PreRunner`.
unfoldable pub run_dir_shared :
    List Bytes → Resolver → Bool → Listing → List Bytes → DirResult × List Bytes
unfolding run_dir_if
run_dir_shared ran r enabled dir dedup = run_dir_if r enabled dir (dedup ++ ran)
