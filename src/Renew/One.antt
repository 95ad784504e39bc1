-- ===== src/Renew/One.antt =====
-- `renewOne` of internal/verbs/renew.go with `PreRunner.Run` of internal/hooks/hooks.go. What the
-- calls of other packages return for a lineage is a record of facts; what is run, and in which
-- order, is a list of events.
pub mod Reports
use go_certbot.Prelude.{
  ℕ, Bool, true, false, not, ◌&&◌, ◌||◌, List, [], ◌∷◌, ◌++◌, Option, none, some, Bytes,
  if◌then◌else◌,
}
use go_certbot.Cli.Domains.{contains}
use go_certbot.Prelude.Int.{ℤ, ltb_ℤ}

pub data OutcomeKind : Type 0 where
  skipped renewed failed parse_error : OutcomeKind

pub record Outcome : Type 0 where
  pub kind : OutcomeKind
  pub sans : List Bytes

-- The options of the command line that `renew` reads itself.
pub record Options : Type 0 where
  pub cert_name : Bytes
  pub validate_hooks : Bool
  pub hooks_valid : Bool
  pub force_renewal : Bool
  pub dry_run : Bool
  pub directory_hooks : Bool
  pub random_sleep : Bool
  pub stdin_is_terminal : Bool

-- A lineage: the merged configuration, and the result of each call, in the order of the calls.
-- `needs` is the pair that `needsRenewal` returns, `ari` the time of `ariDecision`, `none` for an
-- error or no hint; a `Bool` is true where the call returns no error.
pub record Lineage : Type 0 where
  pub conf_loads : Bool
  pub has_cert_key : Bool
  pub needs : Option (Bool × ℤ)
  pub autorenew : Bool
  pub domains : List Bytes
  pub pre_hook : Bytes
  pub ari : Option ℤ
  pub pre_hook_runs : Bool
  pub pre_dir_runs : Bool
  pub accounts_dir_found : Bool
  pub account_loads : Bool
  pub client_starts : Bool
  pub registered : Bool
  pub authenticator_found : Bool
  pub obtained : Bool

-- `run_pre_dir` stands for all that `hooks.RunDir` runs for the directory of pre-hooks; the commands
-- of its scripts are no events of their own.
pub data Event : Type 0 where
  sleep : Event
  run_pre_hook : Bytes → Event
  run_pre_dir : Event
  obtain : List Bytes → Event
  run_deploy_hook : List Bytes → Event
  run_deploy_dir : List Bytes → Event
  run_post_hook : List Bytes → List Bytes → Event

-- What the lineages of one run share: `PreRunner.ran`, `sleepOnce`, and what has been run so far.
pub record Shared : Type 0 where
  pub ran : List Bytes
  pub slept : Bool
  pub events : List Event

abbrev pub log : Event → Shared → Shared
log e s = record s { events = s.events ++ e ∷ [] }

-- `maybeRandomSleep`.
unfoldable pub maybe_random_sleep : Options → Shared → Shared
maybe_random_sleep o s =
    if s.slept || (not o.random_sleep || o.stdin_is_terminal)
    then s
    else log sleep (record s { slept = true })

-- `PreRunner.Run`: whether it returns no error. A command counts as run before it is.
abbrev pub run_pre_on : Bytes → Bool → Shared → Bool × Shared
run_pre_on [] runs s = (true, s)
run_pre_on (c ∷ cmd) runs s =
    if contains s.ran (c ∷ cmd)
    then (true, s)
    else (runs, log (run_pre_hook (c ∷ cmd)) (record s { ran = (c ∷ cmd) ∷ s.ran }))

unfoldable pub run_pre : Lineage → Shared → Bool × Shared
unfolding contains
run_pre l s = run_pre_on l.pre_hook l.pre_hook_runs s

abbrev pub fail : Lineage → Shared → Outcome × Shared
fail l s = (record { kind = failed; sans = l.domains }, s)

abbrev pub skip : Lineage → Shared → Outcome × Shared
skip l s = (record { kind = skipped; sans = l.domains }, s)

abbrev pub refuse : Shared → Outcome × Shared
refuse s = (record { kind = parse_error; sans = [] }, s)

-- Behind `Obtain`: the deploy hooks, whose errors are only logged.
unfoldable pub deploy : Options → Lineage → Shared → Outcome × Shared
deploy o l s =
    let hooked = log (run_deploy_hook l.domains) (log (obtain l.domains) s) in
    (
      record { kind = renewed; sans = l.domains },
      if o.directory_hooks then log (run_deploy_dir l.domains) hooked else hooked,
    )

-- From the account on.
unfoldable pub issue : Options → Lineage → Shared → Outcome × Shared
unfolding deploy
issue o l s =
    if not l.accounts_dir_found
    then fail l s
    else if not l.account_loads
    then fail l s
    else if not l.client_starts
    then fail l s
    else if not l.registered
    then fail l s
    else if not l.authenticator_found
    then fail l s
    else if not l.obtained
    then fail l (log (obtain l.domains) s)
    else deploy o l s

-- From the pre-hooks on.
abbrev pub after_pre : Options → Lineage → Bool × Shared → Outcome × Shared
after_pre o l (false, s) = fail l s
after_pre o l (true, s) =
    if o.directory_hooks
    then if l.pre_dir_runs then issue o l (log run_pre_dir s) else fail l (log run_pre_dir s)
    else issue o l s

unfoldable pub attempt : Options → Lineage → Shared → Outcome × Shared
unfolding maybe_random_sleep run_pre issue
attempt o l s = after_pre o l (run_pre l (maybe_random_sleep o s))

-- The ARI hint is asked for only where nothing forces the renewal, and only for a certificate that
-- has not expired; a time in the future defers.
abbrev pub later_than : ℤ → Option ℤ → Bool
later_than now none = false
later_than now (some due) = ltb_ℤ now due

unfoldable pub deferred : Options → ℤ → Lineage → ℤ → Bool
deferred o now l expires_at =
    not o.force_renewal && (not o.dry_run && (ltb_ℤ now expires_at && later_than now l.ari))

abbrev pub on_needs : Options → ℤ → Lineage → Option (Bool × ℤ) → Shared → Outcome × Shared
on_needs o now l none s = refuse s
on_needs o now l (some (needs, expires_at)) s =
    if not l.autorenew && not o.force_renewal
    then skip l s
    else if not needs && not o.force_renewal
    then skip l s
    else if deferred o now l expires_at
    then skip l s
    else attempt o l s

unfoldable pub renew_one : Options → ℤ → Lineage → Shared → Outcome × Shared
unfolding deferred attempt
renew_one o now l s =
    if not l.conf_loads
    then refuse s
    else if not l.has_cert_key
    then refuse s
    else on_needs o now l l.needs s
