-- ===== src/Hooks/Tests.antt =====
-- Runs of the hook functions, and the witnesses of their theorems.
use go_certbot.Prelude.{◌∷◌, [], List, Bytes, ◌≡◌, Bool, none, some, true, false, codes}
use go_certbot.Golib.Strings.Split.{join}
use go_certbot.Hooks.Dir.Order.{Ran, run_files-Ran}
use go_certbot.Hooks.Dir.{File, run_files}
use go_certbot.Hooks.Command.{truncated_join, truncated_join-Fits, Fits}

abbrev domains : List Bytes
domains = codes "a.example" ∷ codes "b.example" ∷ []

truncated_join-Fits_example :
    (t : Bytes) × (truncated_join domains 12 ≡ some t) × Fits 12 (join (codes " ") domains) t
truncated_join-Fits_example = truncated_join-Fits domains 12

-- Two scripts, the second of which fails, and a third behind them.
abbrev script : Bytes → Bool → File
script p ok = record {
  name = p;
  is_dir = false;
  stat = some true;
  path = p;
  target = none;
  succeeds = ok;
}

abbrev scripts : List File
scripts = script (codes "a") true ∷ script (codes "b") false ∷ script (codes "c") true ∷ []

run_files-Ran_example : Ran [] scripts (run_files [] scripts)
run_files-Ran_example = run_files-Ran [] scripts
