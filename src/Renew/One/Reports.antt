-- ===== src/Renew/One/Reports.antt =====
-- What each outcome of `renewOne` of internal/verbs/renew.go says about what was run.
use go_certbot.Prelude.{◌≡◌, true, List, [], ◌∷◌, ◌++◌, Bytes, if◌then◌else◌, All}
use go_certbot.Renew.One.{
  Event, obtain, run_deploy_hook, run_deploy_dir, Options, Lineage, Shared, Outcome, OutcomeKind,
  skipped, renewed, failed, parse_error,
}

abbrev pub IsDeploy : Event → Type 0
IsDeploy (run_deploy_hook d) = Unit
IsDeploy (run_deploy_dir d) = Unit
IsDeploy _ = ⊥

abbrev pub NoDeploy : Event → Type 0
NoDeploy e = ¬ IsDeploy e

-- Events were added, and none of them is a deploy hook.
abbrev pub Quiet : Shared → Shared → Type 0
Quiet s t = (new : List Event) × (t.events ≡ s.events ++ new) × All NoDeploy new

-- What the run adds last for a renewed lineage.
abbrev pub deployment : Options → List Bytes → List Event
deployment o d =
    obtain d ∷ run_deploy_hook d ∷ (if o.directory_hooks then run_deploy_dir d ∷ [] else [])

abbrev pub ReportedAs : Options → Lineage → Shared → OutcomeKind → List Bytes → Shared → Type 0
ReportedAs o l s skipped d t = t ≡ s
ReportedAs o l s parse_error d t = (t ≡ s) × (d ≡ [])
ReportedAs o l s failed d t = (d ≡ l.domains) × Quiet s t
ReportedAs o l s renewed d t =
    (d ≡ l.domains)
    × (l.obtained ≡ true)
    × ((u : Shared) × Quiet s u × (t.events ≡ u.events ++ deployment o d))

abbrev pub Reported : Options → Lineage → Shared → Outcome × Shared → Type 0
Reported o l s r = ReportedAs o l s r.0.kind r.0.sans r.1
