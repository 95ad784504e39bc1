-- ===== src/Renew/Loop/PreHooks.antt =====
-- How often `Renew` of internal/verbs/renew.go runs a pre-hook command.
use go_certbot.Prelude.{
  ℕ, ◌+◌, ◌≤◌, ◌≡◌, refl, ◌∙◌, Bool, true, false, not, ◌&&◌, ◌||◌, List, [], ◌∷◌, ◌++◌, Option,
  none, some, Bytes, if◌then◌else◌, if-property, arith, Bool-cases, inl, inr, Result,
}
use go_certbot.Cli.Domains.{contains}
use go_certbot.Golib.Strings.Laws.{equal_iff}
use go_certbot.Golib.Strings.Sort.{sort_strings}
use go_certbot.Golib.Strings.{equal}
use go_certbot.Prelude.Int.{ℤ}
use go_certbot.Renew.Loop.{
  RenewError, renew, renew_names, is_nil, any_selected, renew_each, selected, Tally, tally, start,
  conf_names, count_outcome, with_post,
}
use go_certbot.Renew.One.{
  Event, sleep, run_pre_hook, run_pre_dir, obtain, run_deploy_hook, run_deploy_dir, run_post_hook,
  Options, Lineage, Shared, Outcome, renew_one, attempt, deploy, issue, run_pre, run_pre_on,
  after_pre, on_needs, deferred, log, OutcomeKind, skipped, renewed, failed, parse_error,
  maybe_random_sleep,
}

abbrev pub is_run_of : Bytes → Event → ℕ
is_run_of cmd (run_pre_hook c) = if equal c cmd then 1 else 0
is_run_of cmd _ = 0

-- How often a command is among the events.
abbrev pub runs_of : Bytes → List Event → ℕ
runs_of cmd [] = 0
runs_of cmd (e ∷ es) = is_run_of cmd e + runs_of cmd es

runs_of-append :
    (cmd : Bytes) (es fs : List Event) → runs_of cmd (es ++ fs) ≡ runs_of cmd es + runs_of cmd fs
runs_of-append cmd [] fs = omega arith
runs_of-append cmd (e ∷ es) fs = omega (arith, runs_of-append cmd es fs)

-- The set `PreRunner.ran` holds what has run, and nothing has run twice.
abbrev Once : Bytes → Shared → Type 0
Once cmd s = runs_of cmd s.events ≡ (if contains s.ran cmd then 1 else 0)

log-Once :
    (cmd : Bytes) (s : Shared) (e : Event) → is_run_of cmd e ≡ 0 → Once cmd s → Once cmd (log e s)
log-Once cmd s e h once = omega (arith, runs_of-append cmd s.events (e ∷ []), h) ∙ once

run_new-Once :
    (cmd c : Bytes) (s : Shared)
    → contains s.ran c ≡ false
    → Once cmd s
    → Once cmd (log (run_pre_hook c) (record s { ran = c ∷ s.ran }))
unfolding contains
run_new-Once cmd c s new once =
    runs_of-append cmd s.events (run_pre_hook c ∷ []) ∙ elim (Bool-cases (equal c cmd)) [
      | inl e ↦ rw e (omega (arith, once_absent))
      | inr e ↦ rw e (omega (arith, once))
    ]
  where
    once_absent : equal c cmd ≡ true → runs_of cmd s.events ≡ 0
    once_absent e = once ∙ rw (← (equal_iff c cmd).0 e, new) refl

module _ (cmd : Bytes) where
  deploy-Once : (o : Options) (l : Lineage) (s : Shared) → Once cmd s → Once cmd (deploy o l s).1
  unfolding deploy
  deploy-Once o l s once =
      if-property (Once cmd) o.directory_hooks
        (λ e.
          log-Once cmd (log (run_deploy_hook l.domains) (log (obtain l.domains) s))
            (run_deploy_dir l.domains) refl hooked)
        (λ e. hooked)
    where
      hooked : Once cmd (log (run_deploy_hook l.domains) (log (obtain l.domains) s))
      hooked =
          log-Once cmd (log (obtain l.domains) s) (run_deploy_hook l.domains) refl
            (log-Once cmd s (obtain l.domains) refl once)

  issue-Once : (o : Options) (l : Lineage) (s : Shared) → Once cmd s → Once cmd (issue o l s).1
  unfolding issue
  issue-Once o l s once =
      if-property K (not l.accounts_dir_found) (λ e. once)
        (λ e.
          if-property K (not l.account_loads) (λ e. once)
            (λ e.
              if-property K (not l.client_starts) (λ e. once)
                (λ e.
                  if-property K (not l.registered) (λ e. once)
                    (λ e.
                      if-property K (not l.authenticator_found) (λ e. once)
                        (λ e.
                          if-property K (not l.obtained)
                            (λ e. log-Once cmd s (obtain l.domains) refl once)
                            (λ e. deploy-Once o l s once))))))
    where
      K : Outcome × Shared → Type 0
      K r = Once cmd r.1

  maybe_random_sleep-Once :
      (o : Options) (s : Shared) → Once cmd s → Once cmd (maybe_random_sleep o s)
  unfolding maybe_random_sleep
  maybe_random_sleep-Once o s once =
      if-property (Once cmd) (s.slept || (not o.random_sleep || o.stdin_is_terminal)) (λ e. once)
        (λ e. log-Once cmd (record s { slept = true }) sleep refl once)

  run_pre_on-Once :
      (pre : Bytes) (b : Bool) (s : Shared) → Once cmd s → Once cmd (run_pre_on pre b s).1
  run_pre_on-Once [] b s once = once
  run_pre_on-Once (c ∷ pre) b s once =
      if-property {A = Bool × Shared} (λ r. Once cmd r.1) (contains s.ran (c ∷ pre)) (λ e. once)
        (λ e. run_new-Once cmd (c ∷ pre) s e once)

  after_pre-Once :
      (o : Options) (l : Lineage) (r : Bool × Shared) → Once cmd r.1 → Once cmd (after_pre o l r).1
  after_pre-Once o l (false, s) once = once
  after_pre-Once o l (true, s) once =
      let logged = log-Once cmd s run_pre_dir refl once in
      if-property {A = Outcome × Shared} (λ r. Once cmd r.1) o.directory_hooks
        (λ e.
          if-property {A = Outcome × Shared} (λ r. Once cmd r.1) l.pre_dir_runs
            (λ d. issue-Once o l (log run_pre_dir s) logged) (λ d. logged))
        (λ e. issue-Once o l s once)

  attempt-Once : (o : Options) (l : Lineage) (s : Shared) → Once cmd s → Once cmd (attempt o l s).1
  unfolding attempt run_pre
  attempt-Once o l s once = after_pre-Once o l (run_pre l (maybe_random_sleep o s)) (
      run_pre_on-Once l.pre_hook l.pre_hook_runs (maybe_random_sleep o s)
        (maybe_random_sleep-Once o s once))

  on_needs-Once :
      (o : Options) (now : ℤ) (l : Lineage) (needs : Option (Bool × ℤ)) (s : Shared)
      → Once cmd s
      → Once cmd (on_needs o now l needs s).1
  on_needs-Once o now l none s once = once
  on_needs-Once o now l (some (needs, ends)) s once =
      if-property K (not l.autorenew && not o.force_renewal) (λ e. once)
        (λ e.
          if-property K (not needs && not o.force_renewal) (λ e. once)
            (λ e. if-property K (deferred o now l ends) (λ e. once) (λ e. attempt-Once o l s once)))
    where
      K : Outcome × Shared → Type 0
      K r = Once cmd r.1

  renew_one-Once :
      (o : Options) (now : ℤ) (l : Lineage) (s : Shared)
      → Once cmd s
      → Once cmd (renew_one o now l s).1
  unfolding renew_one
  renew_one-Once o now l s once =
      if-property {A = Outcome × Shared} (λ r. Once cmd r.1) (not l.conf_loads) (λ e. once)
        (λ e.
          if-property {A = Outcome × Shared} (λ r. Once cmd r.1) (not l.has_cert_key) (λ e. once)
            (λ e. on_needs-Once o now l l.needs s once))

  tally-Once : (t : Tally) (r : Outcome × Shared) → Once cmd r.1 → Once cmd (tally t r).shared
  tally-Once t (out, s) once = by_kind out.kind
    where
      by_kind :
          (k : OutcomeKind) → Once cmd (count_outcome k out.sans (record t { shared = s })).shared
      by_kind skipped = once
      by_kind renewed = once
      by_kind failed = once
      by_kind parse_error = once

  renew_each-Once :
      (o : Options) (now : ℤ) (lineage : Bytes → Lineage) (names : List Bytes) (t : Tally)
      → Once cmd t.shared
      → Once cmd (renew_each o now lineage names t).shared
  unfolding renew_each
  renew_each-Once o now lineage [] t once = once
  renew_each-Once o now lineage (name ∷ names) t once =
      renew_each-Once o now lineage names
        (if selected o name then tally t (renew_one o now (lineage name) t.shared) else t)
        (if-property {A = Tally} (λ u. Once cmd u.shared) (selected o name)
          (λ e. tally-Once t _ (renew_one-Once o now (lineage name) t.shared once)) (λ e. once))

  runs_of-Once : (s : Shared) → Once cmd s → runs_of cmd s.events ≤ 1
  runs_of-Once s once = below (contains s.ran cmd) once
    where
      below : (b : Bool) → runs_of cmd s.events ≡ (if b then 1 else 0) → runs_of cmd s.events ≤ 1
      below true h = omega (arith, h)
      below false h = omega (arith, h)

  with_post-Once : (t : Tally) → Once cmd t.shared → runs_of cmd (with_post t) ≤ 1
  with_post-Once t once = omega (
    arith,
    runs_of-append cmd t.shared.events (run_post_hook t.renewed_domains t.failed_domains ∷ []),
    runs_of-Once t.shared once,
  )

  runs_of-renew_names :
      (o : Options) (now : ℤ) (lineage : Bytes → Lineage) (names : List Bytes)
      → runs_of cmd (renew_names o now lineage names).1 ≤ 1
  unfolding contains
  runs_of-renew_names o now lineage names =
      if-property {A = Result RenewError (Unit {0}) × List Event} (λ r. runs_of cmd r.1 ≤ 1)
        (not (is_nil o.cert_name) && not (any_selected o names)) (λ e. with_post-Once start refl)
        (λ e.
          with_post-Once (renew_each o now lineage names start)
            (renew_each-Once o now lineage names start refl))

  -- In a whole run of `renew`, over any files and lineages and with any options, `PreRunner` runs a
  -- command at most once as the `pre_hook` of a certificate, however many certificates name it and
  -- however often it fails. The scripts of the directory of pre-hooks are not counted.
  pub runs_of-renew :
      (o : Options) (now : ℤ) (lineage : Bytes → Lineage) (dir : Option (List Bytes))
      → runs_of cmd (renew o now lineage dir).1 ≤ 1
  unfolding renew
  runs_of-renew o now lineage none = omega arith
  runs_of-renew o now lineage (some names) =
      if-property {A = Result RenewError (Unit {0}) × List Event} (λ r. runs_of cmd r.1 ≤ 1)
        (o.validate_hooks && not o.hooks_valid) (λ e. omega arith)
        (λ e. runs_of-renew_names o now lineage (sort_strings (conf_names names)))
