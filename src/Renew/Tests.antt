-- ===== src/Renew/Tests.antt =====
-- Runs of the renewal functions, and the witnesses of their theorems.
use go_certbot.Prelude.{
  ◌*◌, ◌+◌, ◌^◌, ◌≤◌, ◌≡◌, refl, List, [], ◌∷◌, some, codes, ok, All, ◌↔◌, true, false, leb, arith,
}
use go_certbot.Prelude.Int.{pos}
use go_certbot.Renew.Due.Default.{
  leaf_of, due_ℕ, needs_renewal_default, needs_renewal_ends, needs_renewal_overflow,
}
use go_certbot.Renew.Due.{needs_renewal}
use go_certbot.Renew.Interval.Sums.{Amount, days, weeks, words, total, add_pairs-words}
use go_certbot.Renew.Interval.{parse_renew_before, day, add_pairs}
use go_certbot.Golib.Strings.Sort.{sort_strings}
use go_certbot.Renew.Loop.Verdict.{Fine, kinds, renew-Fine}
use go_certbot.Renew.Loop.PreHooks.{runs_of, runs_of-renew}
use go_certbot.Renew.Loop.{renew, start, conf_names}
use go_certbot.Renew.One.{Options, Lineage}

interval : parse_renew_before (codes " 6 Months 1 week") ≡ ok (pos (187 * day))
unfolding parse_renew_before
interval = refl

bare : parse_renew_before (codes "30") ≡ ok (pos (30 * day))
unfolding parse_renew_before
bare = refl

abbrev amounts : List Amount
amounts =
    record { count = 2; unit = weeks; plural = true }
    ∷ record { count = 1; unit = days; plural = false }
    ∷ []

add_pairs-words_example : add_pairs (pos 0) (words amounts) ≡ ok (pos (0 + total amounts))
add_pairs-words_example = add_pairs-words amounts 0 (omega arith)

needs_renewal_default_example :
    needs_renewal (pos (61 * day)) [] (leaf_of 0 (90 * day)) ≡ leb (0 + due_ℕ (90 * day)) (61 * day)
needs_renewal_default_example =
    needs_renewal_default 0 (90 * day) (61 * day) (omega arith) (omega arith)

needs_renewal_ends_example :
    (0 + 90 * day ≤ 91 * day → needs_renewal (pos (91 * day)) [] (leaf_of 0 (90 * day)) ≡ true)
    × (needs_renewal (pos 0) [] (leaf_of 0 (90 * day)) ≡ false)
needs_renewal_ends_example = needs_renewal_ends 0 (90 * day) (91 * day) (omega arith) (omega arith)

needs_renewal_overflow_example : needs_renewal (pos 7) [] (leaf_of 7 (2 ^ 62)) ≡ true
needs_renewal_overflow_example =
    needs_renewal_overflow 7 (2 ^ 62) 7 (omega arith) (omega arith) (omega arith)

abbrev options : Options
options = record {
  cert_name = [];
  validate_hooks = true;
  hooks_valid = true;
  force_renewal = false;
  dry_run = false;
  directory_hooks = true;
  random_sleep = true;
  stdin_is_terminal = false;
}

-- A lineage that is due and is renewed, with a pre-hook.
abbrev due : Lineage
due = record {
  conf_loads = true;
  has_cert_key = true;
  needs = some (true, pos 100);
  autorenew = true;
  domains = codes "a.example" ∷ [];
  pre_hook = codes "stop";
  ari = some (pos 3);
  pre_hook_runs = true;
  pre_dir_runs = true;
  accounts_dir_found = true;
  account_loads = true;
  client_starts = true;
  registered = true;
  authenticator_found = true;
  obtained = true;
}

runs_of-renew_example :
    runs_of
      (codes "stop")
      (renew options (pos 5) (λ _. due) (some (codes "a.conf" ∷ codes "b.conf" ∷ []))).1
    ≤ 1
runs_of-renew_example =
    runs_of-renew (codes "stop") options (pos 5) (λ _. due)
      (some (codes "a.conf" ∷ codes "b.conf" ∷ []))

renew-Fine_example :
    ((renew options (pos 5) (λ _. due) (some (codes "a.conf" ∷ codes "b.conf" ∷ []))).0 ≡ ok tt)
    ↔ All Fine (
        kinds options
          (pos 5)
          (λ _. due)
          (sort_strings (conf_names (codes "a.conf" ∷ codes "b.conf" ∷ [])))
          (start.shared))
renew-Fine_example =
    renew-Fine options (pos 5) (λ _. due) (codes "a.conf" ∷ codes "b.conf" ∷ []) refl refl
