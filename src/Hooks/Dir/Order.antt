-- ===== src/Hooks/Dir/Order.antt =====
-- Which files of a hook directory `RunDir` of internal/hooks/hooks.go has run when it returns.
use go_certbot.Prelude.{
  ◌≡◌, refl, ap, Bool, true, false, List, [], ◌∷◌, ◌++◌, Option, none, some, Bytes, Bool-cases, sym,
  ◌∙◌, append_assoc, ◌⊎◌, inl, inr, if◌then◌else◌,
}
use go_certbot.Cli.Domains.{contains}
use go_certbot.Hooks.Dir.{File, DirResult, done, hook_failed, runs, run_files, real_or}

-- Where a file really is: its target, or its own path where the target is not known.
abbrev pub RealPath : File → Bytes → Type 0
RealPath f q = (f.target ≡ some q) ⊎ ((f.target ≡ none) × (f.path ≡ q))

-- A file that is executable and is not, where it really is, in the set to skip.
abbrev pub Eligible : List Bytes → File → Type 0
Eligible skip f = (f.stat ≡ some true) × ((q : Bytes) → RealPath f q → contains skip q ≡ false)

-- The eligible files of a list all succeed, and these are their paths, in their order.
abbrev pub Succeeded : List Bytes → List File → List Bytes → Type 0
Succeeded skip [] ran = ran ≡ []
Succeeded skip (f ∷ fs) ran =
    ((¬ Eligible skip f) × Succeeded skip fs ran)
    ⊎ (Eligible skip f
        × (f.succeeds ≡ true)
        × ((rest : List Bytes) × (ran ≡ f.path ∷ rest) × Succeeded skip fs rest))

-- An eligible file that fails, behind files of which the eligible ones succeed.
pub record Failed (skip : List Bytes) (files : List File) (p : Bytes) (ran : List Bytes)
    : Type 0 where
  pub front : List File
  pub file : File
  pub behind : List File
  pub parts : files ≡ front ++ file ∷ behind
  pub is_eligible : Eligible skip file
  pub fails : file.succeeds ≡ false
  pub named : file.path ≡ p
  pub earlier : List Bytes
  pub earlier_succeeded : Succeeded skip front earlier
  pub ran_to : ran ≡ earlier ++ p ∷ []

abbrev pub Ran : List Bytes → List File → DirResult × List Bytes → Type 0
Ran skip files (done, ran) = Succeeded skip files ran
Ran skip files (hook_failed p, ran) = Failed skip files p ran
Ran skip files (_, ran) = ⊥

RealPath-real_or : (f : File) → RealPath f (real_or f.path f.target)
RealPath-real_or f = on (f.target) refl
  where
    on : (o : Option Bytes) → f.target ≡ o → RealPath f (real_or f.path f.target)
    on none e = inr (e, rw e refl)
    on (some q) e = inl (rw e refl)

RealPath-unique : (f : File) (q : Bytes) → RealPath f q → q ≡ real_or f.path f.target
RealPath-unique f q (inl e) = rw e refl
RealPath-unique f q (inr (e, d)) = rw (e, d) refl

runs-cases :
    (skip : List Bytes) (f : File)
    → ((runs skip f ≡ true) × Eligible skip f) ⊎ ((runs skip f ≡ false) × (¬ Eligible skip f))
unfolding runs
runs-cases skip f = on (f.stat) refl
  where
    on :
        (o : Option Bool)
        → f.stat ≡ o
        → ((runs skip f ≡ true) × Eligible skip f) ⊎ ((runs skip f ≡ false) × (¬ Eligible skip f))
    on none e = inr (rw e refl, λ h. absurd (cc (h.0)))
    on (some false) e = inr (rw e refl, λ h. absurd (cc (h.0)))
    on (some true) e = elim (Bool-cases (contains skip (real_or f.path f.target))) [
      | inl d ↦ inr (rw (e, d) refl, λ h. absurd (cc (d, h.1 _ (RealPath-real_or f))))
      | inr d ↦ inl (rw (e, d) refl, (e, λ q r. rw (RealPath-unique f q r) d))
    ]

runs→Eligible : (skip : List Bytes) (f : File) → runs skip f ≡ true → Eligible skip f
runs→Eligible skip f e = elim (runs-cases skip f) [
  | inl (d, y) ↦ y
  | inr (d, n) ↦ absurd (cc (e, d))
]

runs_not→Eligible : (skip : List Bytes) (f : File) → runs skip f ≡ false → ¬ Eligible skip f
runs_not→Eligible skip f e = elim (runs-cases skip f) [
  | inl (d, y) ↦ absurd (cc (e, d))
  | inr (d, n) ↦ n
]

-- One more file in front.
front-Failed :
    (skip : List Bytes) (f : File) (fs : List File) (p : Bytes) (ran more : List Bytes)
    → ((earlier : List Bytes) (front : List File)
        → Succeeded skip front earlier
        → Succeeded skip (f ∷ front) (more ++ earlier))
    → Failed skip fs p ran
    → Failed skip (f ∷ fs) p (more ++ ran)
front-Failed skip f fs p ran more step h = record {
  front = f ∷ h.front;
  file = h.file;
  behind = h.behind;
  parts = ap (λ x. f ∷ x) (h.parts);
  is_eligible = h.is_eligible;
  fails = h.fails;
  named = h.named;
  earlier = more ++ h.earlier;
  earlier_succeeded = step (h.earlier) (h.front) (h.earlier_succeeded);
  ran_to = ap (λ x. more ++ x) (h.ran_to) ∙ sym (append_assoc more (h.earlier) (p ∷ []));
}

pass-Ran :
    (skip : List Bytes) (f : File) (fs : List File) (r : DirResult × List Bytes)
    → ¬ Eligible skip f
    → Ran skip fs r
    → Ran skip (f ∷ fs) r
pass-Ran skip f fs (done, ran) n h = inl (n, h)
pass-Ran skip f fs (hook_failed p, ran) n h =
    front-Failed skip f fs p ran [] (λ earlier front s. inl (n, s)) h
pass-Ran skip f fs (_, ran) n h = absurd h

succeed-Ran :
    (skip : List Bytes) (f : File) (fs : List File) (r : DirResult × List Bytes)
    → Eligible skip f
    → f.succeeds ≡ true
    → Ran skip fs r
    → Ran skip (f ∷ fs) (r.0, f.path ∷ r.1)
succeed-Ran skip f fs (done, ran) y ok h = inr (y, ok, (ran, refl, h))
succeed-Ran skip f fs (hook_failed p, ran) y ok h =
    front-Failed skip f fs p ran (f.path ∷ []) (λ earlier front s. inr (y, ok, (earlier, refl, s)))
      h
succeed-Ran skip f fs (_, ran) y ok h = absurd h

fail-Failed :
    (skip : List Bytes) (f : File) (fs : List File)
    → Eligible skip f
    → f.succeeds ≡ false
    → Failed skip (f ∷ fs) (f.path) (f.path ∷ [])
fail-Failed skip f fs y bad = record {
  front = [];
  file = f;
  behind = fs;
  parts = refl;
  is_eligible = y;
  fails = bad;
  named = refl;
  earlier = [];
  earlier_succeeded = refl;
  ran_to = refl;
}

step-Ran :
    (skip : List Bytes) (f : File) (fs : List File) (r : DirResult × List Bytes)
    (runs_now succeeds : Bool)
    → runs skip f ≡ runs_now
    → f.succeeds ≡ succeeds
    → Ran skip fs r
    → Ran skip (f ∷ fs) (
        if runs_now
        then if succeeds then (r.0, f.path ∷ r.1) else (hook_failed (f.path), f.path ∷ [])
        else (r.0, r.1))
step-Ran skip f fs r true true e d h = succeed-Ran skip f fs r (runs→Eligible skip f e) d h
step-Ran skip f fs r true false e d h = fail-Failed skip f fs (runs→Eligible skip f e) d
step-Ran skip f fs r false succeeds e d h = pass-Ran skip f fs r (runs_not→Eligible skip f e) h

-- `RunDir` runs the executable files that are not in the set to skip, in the order of the list, and
-- returns success exactly with all of them run and none failed. Otherwise it names a file that
-- failed, all eligible files before that one have run and succeeded, and none behind it has run.
pub run_files-Ran : (skip : List Bytes) (files : List File) → Ran skip files (run_files skip files)
unfolding run_files
run_files-Ran skip [] = refl
run_files-Ran skip (f ∷ fs) =
    step-Ran skip f fs (run_files skip fs) (runs skip f) (f.succeeds) refl refl
      (run_files-Ran skip fs)
