-- ===== src/Cli/Tests.antt =====
-- Runs of the command line functions, and the witnesses of their theorems.
use go_certbot.Prelude.{
  List, [], ◌∷◌, ◌≡◌, refl, Bytes, some, none, false, true, not, map, ◌&&◌, ◌≢◌, codes,
}
use go_certbot.Cli.Domains.Distinct.{Distinct, normalize_domains-Distinct}
use go_certbot.Cli.Domains.{normalize_domains, contains, is_empty, normal}
use go_certbot.Cli.Sources.{
  Config, default_lets_encrypt_directory, apply_dry_run_side_effects, effective_server,
  dry_run-NotProduction,
}
use go_certbot.Cli.WebrootMap.Rooted.{Answers, roots_in, build_webroot_map-Answers}
use go_certbot.Cli.WebrootMap.{build_webroot_map, nothing}
use go_certbot.Golib.Map.{get, set}
use go_certbot.Golib.Strings.{equal, has_prefix, trim_space, trim_prefix, trim_suffix, to_lower}

normalize :
    normalize_domains (codes " Example.COM. " ∷ codes "example.com" ∷ codes "" ∷ [])
    ≡ codes "example.com" ∷ []
unfolding normalize_domains equal trim_space trim_suffix to_lower
normalize = refl

abbrev args : List Bytes
args = codes "-d" ∷ codes "a" ∷ codes "-w" ∷ codes "/x" ∷ codes "-d" ∷ codes "b, c" ∷ []

build :
    build_webroot_map args
    ≡ some ((codes "b", codes "/x") ∷ (codes "c", codes "/x") ∷ (codes "a", codes "/x") ∷ [])
unfolding build_webroot_map equal has_prefix get set trim_prefix
build = refl

build_webroot_map-Answers_example : Answers (roots_in nothing args) (build_webroot_map args)
build_webroot_map-Answers_example = build_webroot_map-Answers args

-- `--dry-run` on a fresh machine.
abbrev fresh : Config
fresh = record {
  server = default_lets_encrypt_directory;
  account = [];
  email = [];
  dry_run = true;
  staging = false;
  break_my_certs = false;
  tos = false;
  register_unsafely_without_email = false;
  non_interactive = false;
  sources = [];
}

dry_run-NotProduction_example :
    effective_server (apply_dry_run_side_effects none fresh) ≢ default_lets_encrypt_directory
dry_run-NotProduction_example = dry_run-NotProduction none fresh refl

abbrev typed : List Bytes
typed = codes "B.example" ∷ codes "b.example." ∷ codes " " ∷ []

normalize_domains-Distinct_example :
    Distinct (normalize_domains typed)
    × ((d : Bytes)
        → contains (normalize_domains typed) d
          ≡ (not (is_empty d) && contains (map normal typed) d))
normalize_domains-Distinct_example = normalize_domains-Distinct typed
