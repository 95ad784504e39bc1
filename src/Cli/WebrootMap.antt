-- ===== src/Cli/WebrootMap.antt =====
-- internal/cmd/webroot_argv.go: which webroot each domain of the command line belongs to.
pub mod Rooted
use go_certbot.Prelude.{
  ℕ, zero, suc, Bool, true, false, ◌||◌, List, [], ◌∷◌, ◌++◌, Option, none, some, Bytes, String,
  codes, if◌then◌else◌,
}
use go_certbot.Golib.Map.{Map, get, set}
use go_certbot.Golib.Strings.Split.{split}
use go_certbot.Golib.Strings.{equal, has_prefix, trim_prefix, trim_space}

-- The flag whose value is the next argument.
pub data Want : Type 0 where
  nothing root domain : Want

pub record Scan : Type 0 where
  pub current_root : Bytes
  pub seen_roots : List Bytes
  pub pending : List Bytes
  pub out : Map Bytes
  pub want : Want

-- The loop of `splitCSV` over the parts.
unfoldable pub keep_parts : List Bytes → List Bytes
unfolding trim_space
keep_parts [] = []
keep_parts (p ∷ ps) =
    let rest = keep_parts ps in elim (trim_space p) [ [] ↦ rest | c ∷ s ↦ (c ∷ s) ∷ rest ]

unfoldable pub split_csv : Bytes → List Bytes
unfolding keep_parts split
split_csv s = keep_parts (split b',' s)

-- The closure `add`, at the root `root`: with no root yet the domain waits.
abbrev pub add_at : Bytes → Bytes → Scan → Scan
add_at [] d s = record s { pending = s.pending ++ d ∷ [] }
add_at (c ∷ r) d s = record s { out = set d (c ∷ r) s.out }

unfoldable pub add : Bytes → Bytes → Scan → Scan
add [] r s = s
add (c ∷ d) r s = add_at r (c ∷ d) s

unfoldable pub add_all : List Bytes → Scan → Scan
unfolding add
add_all [] s = s
add_all (d ∷ ds) s = add_all ds (add d s.current_root s)

unfoldable pub set_root : Bytes → Scan → Scan
set_root r s = record s { current_root = r; seen_roots = s.seen_roots ++ r ∷ [] }

unfoldable pub add_csv : Bytes → Scan → Scan
unfolding add_all split_csv
add_csv value s = add_all (split_csv value) s

abbrev pub is : Bytes → String → Bool
is a flag = equal a (codes flag)

-- The switch of the loop, at an argument that is not the value of a flag before it.
unfoldable pub flag_step : Bytes → Scan → Scan
flag_step a s =
    if is a "-w" || is a "--webroot-path"
    then record s { want = root }
    else if is a "-d" || (is a "--domain" || is a "--domains")
    then record s { want = domain }
    else if has_prefix a (codes "--webroot-path=")
    then set_root (trim_prefix a (codes "--webroot-path=")) s
    else if has_prefix a (codes "-w=")
    then set_root (trim_prefix a (codes "-w=")) s
    else if has_prefix a (codes "--domain=")
    then add_csv (trim_prefix a (codes "--domain=")) s
    else if has_prefix a (codes "--domains=")
    then add_csv (trim_prefix a (codes "--domains=")) s
    else if has_prefix a (codes "-d=")
    then add_csv (trim_prefix a (codes "-d=")) s
    else s

-- One round of the loop over the arguments.
abbrev pub step_on : Want → Bytes → Scan → Scan
step_on nothing a s = flag_step a s
step_on root a s = record (set_root a s) { want = nothing }
step_on domain a s = record (add_csv a s) { want = nothing }

unfoldable pub step : Bytes → Scan → Scan
unfolding flag_step
step a s = step_on s.want a s

unfoldable pub scan_args : List Bytes → Scan → Scan
unfolding step
scan_args [] s = s
scan_args (a ∷ args) s = scan_args args (step a s)

abbrev pub start : Scan
start = record { current_root = []; seen_roots = []; pending = []; out = []; want = nothing }

abbrev pub default_root : Option Bytes → Bytes → Bytes → Map Bytes → Map Bytes
default_root none first d out = set d first out
default_root (some r) first d out = out

-- The domains that came before any root get the first root, where they have none.
unfoldable pub add_pending : Bytes → List Bytes → Map Bytes → Map Bytes
add_pending first [] out = out
add_pending first (d ∷ ds) out = add_pending first ds (default_root (get d out) first d out)

abbrev pub finish : List Bytes → Scan → Option (Map Bytes)
finish [] s = none
finish (first ∷ roots) s = some (add_pending first s.pending s.out)

unfoldable pub build_webroot_map : List Bytes → Option (Map Bytes)
unfolding scan_args set_root add_csv add_pending
build_webroot_map args = let s = scan_args args start in finish s.seen_roots s
