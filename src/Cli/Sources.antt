-- ===== src/Cli/Sources.antt =====
-- `trackSources`, `applyDryRunSideEffects` and `hasAnyAccount` of internal/cmd/flags.go, with
-- `MarkSet`, `SetByUser` and `EffectiveServer` of internal/config/config.go.
use go_certbot.Prelude.{
  ◌≡◌, ◌≢◌, refl, sym, ap, ◌∙◌, Bool, true, false, not, ◌&&◌, ◌||◌, List, [], ◌∷◌, Option, none,
  some, Bytes, codes, if◌then◌else◌, if-property,
}
use go_certbot.Golib.Map.{Map, get, set}
use go_certbot.Golib.Strings.Laws.{equal_refl}
use go_certbot.Golib.Strings.{equal}

pub data ArgumentSource : Type 0 where
  source_default source_command_line source_config_file source_env_var source_runtime :
      ArgumentSource

abbrev pub default_lets_encrypt_directory : Bytes
default_lets_encrypt_directory = codes "https://acme-v02.api.letsencrypt.org/directory"

abbrev pub staging_directory : Bytes
staging_directory = codes "https://acme-staging-v02.api.letsencrypt.org/directory"

-- The fields of `Config` that these functions read or write.
pub record Config : Type 0 where
  pub server : Bytes
  pub account : Bytes
  pub email : Bytes
  pub dry_run : Bool
  pub staging : Bool
  pub break_my_certs : Bool
  pub tos : Bool
  pub register_unsafely_without_email : Bool
  pub non_interactive : Bool
  pub sources : Map ArgumentSource

unfoldable pub mark_set : Bytes → ArgumentSource → Config → Config
unfolding set
mark_set field source c = record c { sources = set field source c.sources }

abbrev is_set : Option ArgumentSource → Bool
is_set none = false
is_set (some source_default) = false
is_set (some _) = true

unfoldable pub set_by_user : Bytes → Config → Bool
unfolding get
set_by_user name c = is_set (get name c.sources)

abbrev mark_visited : List Bytes → Config → Config
mark_visited [] c = c
mark_visited (name ∷ names) c = mark_visited names (mark_set name source_command_line c)

abbrev imply_server : Config → Config
imply_server c =
    if set_by_user (codes "staging") c
      || (set_by_user (codes "dry-run") c || set_by_user (codes "test-cert") c)
    then mark_set (codes "server") source_runtime c
    else c

abbrev imply_account : Config → Config
imply_account c =
    if set_by_user (codes "server") c then mark_set (codes "account") source_runtime c else c

abbrev imply_non_interactive : Config → Config
imply_non_interactive c =
    if set_by_user (codes "quiet") c
    then mark_set (codes "non-interactive") source_runtime (record c { non_interactive = true })
    else c

-- `visited` is the names of the flags that the user has set.
unfoldable pub track_sources : List Bytes → Config → Config
unfolding mark_set set_by_user
track_sources visited c =
    imply_non_interactive (imply_account (imply_server (mark_visited visited c)))

abbrev is_empty : Bytes → Bool
is_empty [] = true
is_empty (c ∷ s) = false

abbrev pick_server : Config → Config
pick_server c =
    if not (set_by_user (codes "server") c) || equal c.server default_lets_encrypt_directory
    then mark_set (codes "server") source_runtime (record c { server = staging_directory })
    else c

abbrev clear_account : Config → Config
clear_account c = if not (set_by_user (codes "account") c) then record c { account = [] } else c

abbrev imply_staging : Config → Config
imply_staging c =
    mark_set (codes "break-my-certs") source_runtime
      (record (mark_set (codes "staging") source_runtime (record c { staging = true })) {
        break_my_certs = true;
      })

abbrev agree : Config → Config
agree c =
    if not c.tos then mark_set (codes "agree-tos") source_runtime (record c { tos = true }) else c

abbrev without_email : Config → Config
without_email c =
    if is_empty c.email
    then mark_set (codes "register-unsafely-without-email") source_runtime
        (record c { register_unsafely_without_email = true })
    else c

-- `hasAnyAccount`: the entries of the accounts directory, `none` where it is not found or not read.
unfoldable pub has_any_account : Option (List Bytes) → Bool
has_any_account none = false
has_any_account (some []) = false
has_any_account (some (e ∷ entries)) = true

abbrev register_freely : Option (List Bytes) → Config → Config
register_freely accounts c = if not (has_any_account accounts) then without_email (agree c) else c

unfoldable pub apply_dry_run_side_effects : Option (List Bytes) → Config → Config
unfolding mark_set set_by_user equal has_any_account
apply_dry_run_side_effects accounts c =
    if not c.dry_run
    then c
    else register_freely accounts (imply_staging (clear_account (pick_server c)))

unfoldable pub effective_server : Config → Bytes
unfolding equal
effective_server c =
    if c.staging && equal c.server default_lets_encrypt_directory
    then staging_directory
    else c.server

-- The server of a configuration is not the production one, nor does `EffectiveServer` return it.
abbrev NotProduction : Config → Type 0
NotProduction c = equal c.server default_lets_encrypt_directory ≡ false

staging-NotProduction : equal staging_directory default_lets_encrypt_directory ≡ false
unfolding equal
staging-NotProduction = refl

pick_server-NotProduction : (c : Config) → NotProduction (pick_server c)
unfolding mark_set
pick_server-NotProduction c =
    if-property NotProduction
      (not (set_by_user (codes "server") c) || equal c.server default_lets_encrypt_directory)
      (λ e. staging-NotProduction) (λ e. right_false (not (set_by_user (codes "server") c)) _ e)
  where
    right_false : (a b : Bool) → (a || b) ≡ false → b ≡ false
    right_false true b h = cc
    right_false false b h = h

effective-NotProduction :
    (c : Config) → NotProduction c → effective_server c ≢ default_lets_encrypt_directory
unfolding effective_server
effective-NotProduction c h same = differs c.staging (rw h at same)
  where
    differs :
        (b : Bool)
        → ¬ ((if b && false then staging_directory else c.server) ≡ default_lets_encrypt_directory)
    differs true e = cc (
      h,
      sym (
          ap (λ x. equal x default_lets_encrypt_directory) e
          ∙ equal_refl default_lets_encrypt_directory),
    )
    differs false e = cc (
      h,
      sym (
          ap (λ x. equal x default_lets_encrypt_directory) e
          ∙ equal_refl default_lets_encrypt_directory),
    )

register_freely-NotProduction :
    (accounts : Option (List Bytes)) (c : Config)
    → NotProduction c
    → NotProduction (register_freely accounts c)
unfolding mark_set
register_freely-NotProduction accounts c h =
    if-property NotProduction (not (has_any_account accounts))
      (λ e. if-property NotProduction (is_empty (agree c).email) (λ d. agreed) (λ d. agreed))
      (λ e. h)
  where
    agreed : NotProduction (agree c)
    agreed = if-property NotProduction (not c.tos) (λ e. h) (λ e. h)

-- With `--dry-run`, for every configuration, however its fields were set, and any accounts on
-- disk: the server that is used is not the production directory of Let's Encrypt.
pub dry_run-NotProduction :
    (accounts : Option (List Bytes)) (c : Config)
    → c.dry_run ≡ true
    → effective_server (apply_dry_run_side_effects accounts c) ≢ default_lets_encrypt_directory
unfolding apply_dry_run_side_effects
dry_run-NotProduction accounts c h =
    effective-NotProduction (apply_dry_run_side_effects accounts c) (
      if-property NotProduction (not c.dry_run) (λ e. absurd (clash c.dry_run h e))
        (λ e.
          register_freely-NotProduction accounts (imply_staging (clear_account (pick_server c)))
            cleared))
  where
    clash : (b : Bool) → b ≡ true → not b ≡ true → ⊥
    clash true k e = cc
    clash false k e = cc

    cleared : NotProduction (clear_account (pick_server c))
    cleared =
        if-property NotProduction (not (set_by_user (codes "account") (pick_server c)))
          (λ e. pick_server-NotProduction c) (λ e. pick_server-NotProduction c)
