-- ===== src/Renew/Loop/Verdict.antt =====
-- When `Renew` of internal/verbs/renew.go reports success.
use go_certbot.Prelude.{
  ℕ, suc, ◌+◌, ◌≡◌, refl, sym, ap, ◌∙◌, ◌↔◌, Bool, true, false, not, ◌&&◌, ◌||◌, List, [], ◌∷◌,
  some, Bytes, ltb, if◌then◌else◌, arith, All, Result, ok, err,
}
use go_certbot.Golib.Strings.Sort.{sort_strings}
use go_certbot.Prelude.Int.{ℤ}
use go_certbot.Renew.Loop.{
  renew, is_nil, any_selected, renew_each, selected, Tally, tally, start, conf_names, count_outcome,
  result_of, with_post, RenewError, failures, invalid_hook, no_such_certificate,
}
use go_certbot.Renew.One.{
  Event, Options, Lineage, Shared, Outcome, OutcomeKind, skipped, renewed, failed, parse_error,
  renew_one,
}

-- The outcomes of the lineages that `--cert-name` leaves in, one after another.
pub kinds : Options → ℤ → (Bytes → Lineage) → List Bytes → Shared → List OutcomeKind
unfolding selected renew_one
kinds o now lineage [] s = []
kinds o now lineage (name ∷ names) s =
    let (out, t) = renew_one o now (lineage name) s in
    let later = kinds o now lineage names t in
    let without = kinds o now lineage names s in
    if selected o name then out.kind ∷ later else without

abbrev pub Fine : OutcomeKind → Type 0
Fine skipped = Unit
Fine renewed = Unit
Fine failed = ⊥
Fine parse_error = ⊥

bad : List OutcomeKind → ℕ
bad [] = 0
bad (failed ∷ ks) = suc (bad ks)
bad (parse_error ∷ ks) = suc (bad ks)
bad (skipped ∷ ks) = bad ks
bad (renewed ∷ ks) = bad ks

bad-Fine : (ks : List OutcomeKind) → (bad ks ≡ 0) ↔ All Fine ks
unfolding bad
bad-Fine [] = (λ h. tt, λ h. refl)
bad-Fine (skipped ∷ ks) = (λ h. (tt, (bad-Fine ks).0 h), λ h. (bad-Fine ks).1 h.1)
bad-Fine (renewed ∷ ks) = (λ h. (tt, (bad-Fine ks).0 h), λ h. (bad-Fine ks).1 h.1)
bad-Fine (failed ∷ ks) = (λ h. absurd (omega (arith, h)), λ h. absurd h.0)
bad-Fine (parse_error ∷ ks) = (λ h. absurd (omega (arith, h)), λ h. absurd h.0)

abbrev failed_so_far : Tally → ℕ
failed_so_far t = t.renew_failures + t.parse_failures

tally_failures :
    (t : Tally) (out : Outcome) (s : Shared) (ks : List OutcomeKind)
    → failed_so_far (tally t (out, s)) + bad ks ≡ failed_so_far t + bad (out.kind ∷ ks)
unfolding bad
tally_failures t out s ks = by_kind out.kind
  where
    by_kind :
        (k : OutcomeKind)
        → failed_so_far (count_outcome k out.sans (record t { shared = s })) + bad ks
          ≡ failed_so_far t + bad (k ∷ ks)
    by_kind skipped = refl
    by_kind renewed = refl
    by_kind failed = omega arith
    by_kind parse_error = omega arith

tally_shared : (t : Tally) (out : Outcome) (s : Shared) → (tally t (out, s)).shared ≡ s
tally_shared t out s = by_kind out.kind
  where
    by_kind : (k : OutcomeKind) → (count_outcome k out.sans (record t { shared = s })).shared ≡ s
    by_kind skipped = refl
    by_kind renewed = refl
    by_kind failed = refl
    by_kind parse_error = refl

module _ (o : Options) (now : ℤ) (lineage : Bytes → Lineage) (names : List Bytes) where
  abbrev AddsUp : Tally → Type 0
  AddsUp t =
      failed_so_far (renew_each o now lineage names t)
      ≡ failed_so_far t + bad (kinds o now lineage names t.shared)

  one_more :
      (b : Bool) (t : Tally) (out : Outcome) (s : Shared)
      → ((u : Tally) → AddsUp u)
      → failed_so_far (renew_each o now lineage names (if b then tally t (out, s) else t))
        ≡ failed_so_far t
          + bad (
              if b
              then out.kind ∷ kinds o now lineage names s
              else kinds o now lineage names t.shared)
  one_more true t out s ih =
      ih (tally t (out, s))
      ∙ rw (tally_shared t out s) (tally_failures t out s (kinds o now lineage names s))
  one_more false t out s ih = ih t

renew_each-AddsUp :
    (o : Options) (now : ℤ) (lineage : Bytes → Lineage) (names : List Bytes) (t : Tally)
    → AddsUp o now lineage names t
unfolding renew_each kinds bad
renew_each-AddsUp o now lineage [] t = omega arith
renew_each-AddsUp o now lineage (name ∷ names) t =
    one_more o now lineage names (selected o name) t (renew_one o now (lineage name) t.shared).0
      (renew_one o now (lineage name) t.shared).1 (λ u. renew_each-AddsUp o now lineage names u)

err_ne_ok : (a b : ℕ) → ¬ (◌≡◌ {A = Result RenewError (Unit {0})} (err (failures a b)) (ok tt))
err_ne_ok a b h = cc

result_of-ok : (t : Tally) → (result_of t ≡ ok tt) ↔ (failed_so_far t ≡ 0)
result_of-ok t =
    on_test t.renew_failures t.parse_failures (ltb 0 t.renew_failures || ltb 0 t.parse_failures)
      (none_failed t.renew_failures t.parse_failures)
  where
    none_failed : (a b : ℕ) → ((ltb 0 a || ltb 0 b) ≡ false) ↔ (a + b ≡ 0)
    none_failed a b = (λ h. ground arith, λ h. ground arith)

    on_test :
        (a b : ℕ) (x : Bool)
        → ((x ≡ false) ↔ (a + b ≡ 0))
        → ◌≡◌ {A = Result RenewError (Unit {0})} (if x then err (failures a b) else ok tt) (ok tt)
          ↔ (a + b ≡ 0)
    on_test a b true f = (λ h. absurd (err_ne_ok a b h), λ h. cc (f.1 h))
    on_test a b false f = (λ h. f.0 refl, λ h. refl)

no_more : (a b : ℕ) → a ≡ 0 + 0 + b → (a ≡ 0) ↔ (b ≡ 0)
no_more a b h = (λ e. omega arith, λ e. omega arith)

abbrev Returned : Type 0
Returned = Result RenewError (Unit {0}) × List Event

past_tests :
    (b c d : Bool) (x y z : Returned)
    → b ≡ false
    → c ≡ true
    → ◌≡◌ {A = Returned} (if b then x else if not c && d then y else z) z
past_tests true c d x y z h k = cc
past_tests false true d x y z h k = refl
past_tests false false d x y z h k = cc

-- The result is that of the counters.
renew-result_of :
    (o : Options) (now : ℤ) (lineage : Bytes → Lineage) (names : List Bytes)
    → o.cert_name ≡ []
    → (o.validate_hooks && not o.hooks_valid) ≡ false
    → (renew o now lineage (some names)).0
      ≡ result_of (renew_each o now lineage (sort_strings (conf_names names)) start)
unfolding renew
renew-result_of o now lineage names every valid =
    ap (λ (r : Returned). r.0)
      (past_tests (o.validate_hooks && not o.hooks_valid) (is_nil o.cert_name)
        (not (any_selected o (sort_strings (conf_names names)))) (err invalid_hook, [])
        (err no_such_certificate, with_post start)
        (
          result_of (renew_each o now lineage (sort_strings (conf_names names)) start),
          with_post (renew_each o now lineage (sort_strings (conf_names names)) start),
        )
        valid (ap is_nil every))

-- Without `--cert-name`, and with hooks that are valid or not to be checked, `renew` succeeds if and
-- only if every lineage, in the order of the names of the `.conf` files and each behind what the
-- ones before it have run, was renewed or skipped.
pub renew-Fine :
    (o : Options) (now : ℤ) (lineage : Bytes → Lineage) (names : List Bytes)
    → o.cert_name ≡ []
    → (o.validate_hooks && not o.hooks_valid) ≡ false
    → ((renew o now lineage (some names)).0 ≡ ok tt)
      ↔ All Fine (kinds o now lineage (sort_strings (conf_names names)) (start.shared))
renew-Fine o now lineage names every valid =
    let ns = sort_strings (conf_names names) in
    let t = renew_each o now lineage ns start in
    let same = renew-result_of o now lineage names every valid in
    let sum = renew_each-AddsUp o now lineage ns start in
    (
      λ h.
          (bad-Fine (kinds o now lineage ns (start.shared))).0
            ((no_more _ _ sum).0 ((result_of-ok t).0 (sym same ∙ h))),
      λ h.
          same
          ∙ (result_of-ok t).1
              ((no_more _ _ sum).1 ((bad-Fine (kinds o now lineage ns (start.shared))).1 h)),
    )
