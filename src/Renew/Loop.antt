-- ===== src/Renew/Loop.antt =====
-- `Renew` of internal/verbs/renew.go: the lineages one after another, the hooks around them, and
-- the result. What is printed is left out.
pub mod PreHooks
pub mod Verdict
use go_certbot.Prelude.{
  ℕ, zero, suc, ◌+◌, Bool, true, false, not, ◌&&◌, ◌||◌, List, [], ◌∷◌, ◌++◌, Option, none, some,
  Bytes, codes, ltb, if◌then◌else◌, Result, ok, err,
}
use go_certbot.Golib.Strings.Sort.{sort_strings}
use go_certbot.Golib.Strings.{equal, has_suffix, trim_suffix}
use go_certbot.Prelude.Int.{ℤ}
use go_certbot.Renew.One.{
  OutcomeKind, skipped, renewed, failed, parse_error, Outcome, Options, Lineage, Event,
  run_post_hook, Shared, log, renew_one,
}

pub data RenewError : Type 0 where
  invalid_hook no_such_certificate : RenewError
  failures : ℕ → ℕ → RenewError

abbrev pub extension : Bytes
extension = codes ".conf"

abbrev pub cert_name_of : Bytes → Bytes
cert_name_of name = trim_suffix name extension

-- The `.conf` files among the regular files of the directory.
unfoldable pub conf_names : List Bytes → List Bytes
unfolding has_suffix
conf_names [] = []
conf_names (n ∷ ns) = let rest = conf_names ns in if has_suffix n extension then n ∷ rest else rest

-- The variables of the loop of `Renew`.
pub record Tally : Type 0 where
  pub shared : Shared
  pub renewed_domains : List Bytes
  pub failed_domains : List Bytes
  pub renewed_count : ℕ
  pub renew_failures : ℕ
  pub parse_failures : ℕ

-- The switch on the outcome of a lineage.
abbrev pub count_outcome : OutcomeKind → List Bytes → Tally → Tally
count_outcome skipped sans t = t
count_outcome renewed sans t = record t {
  renewed_count = t.renewed_count + 1;
  renewed_domains = t.renewed_domains ++ sans;
}
count_outcome failed sans t = record t {
  renew_failures = t.renew_failures + 1;
  failed_domains = t.failed_domains ++ sans;
}
count_outcome parse_error sans t = record t { parse_failures = t.parse_failures + 1 }

abbrev pub tally : Tally → Outcome × Shared → Tally
tally t (out, s) = count_outcome out.kind out.sans (record t { shared = s })

abbrev is_nil : Bytes → Bool
is_nil [] = true
is_nil (c ∷ s) = false

-- `--cert-name` leaves the other lineages out.
unfoldable pub selected : Options → Bytes → Bool
unfolding equal trim_suffix
selected o name = is_nil o.cert_name || equal o.cert_name (cert_name_of name)

unfoldable pub renew_each : Options → ℤ → (Bytes → Lineage) → List Bytes → Tally → Tally
unfolding selected renew_one
renew_each o now lineage [] t = t
renew_each o now lineage (name ∷ names) t =
    renew_each o now lineage names
      (if selected o name then tally t (renew_one o now (lineage name) t.shared) else t)

abbrev any_selected : Options → List Bytes → Bool
any_selected o [] = false
any_selected o (n ∷ ns) = equal (cert_name_of n) o.cert_name || any_selected o ns

abbrev pub start : Tally
start = record {
  shared = record { ran = []; slept = false; events = [] };
  renewed_domains = [];
  failed_domains = [];
  renewed_count = 0;
  renew_failures = 0;
  parse_failures = 0;
}

-- The result, and the deferred post-hook.
abbrev pub result_of : Tally → Result RenewError (Unit {0})
result_of t =
    if ltb 0 t.renew_failures || ltb 0 t.parse_failures
    then err (failures t.renew_failures t.parse_failures)
    else ok tt

abbrev pub with_post : Tally → List Event
with_post t = t.shared.events ++ run_post_hook t.renewed_domains t.failed_domains ∷ []

abbrev renew_names :
    Options → ℤ → (Bytes → Lineage) → List Bytes → Result RenewError (Unit {0}) × List Event
renew_names o now lineage names =
    if not (is_nil o.cert_name) && not (any_selected o names)
    then (err no_such_certificate, with_post start)
    else let t = renew_each o now lineage names start in (result_of t, with_post t)

-- `none` is a renewal directory that does not exist; otherwise the names of its regular files.
unfoldable pub renew :
    Options
    → ℤ
    → (Bytes → Lineage)
    → Option (List Bytes)
    → Result RenewError (Unit {0}) × List Event
unfolding renew_each conf_names sort_strings
renew o now lineage none = (ok tt, [])
renew o now lineage (some names) =
    if o.validate_hooks && not o.hooks_valid
    then (err invalid_hook, [])
    else renew_names o now lineage (sort_strings (conf_names names))
