-- ===== src/Certonly/Dispatch/Same.antt =====
-- What the directive says of the names: `sameSANSet` and the switch of `findCertDispatch`.
use go_certbot.Prelude.{
  ℕ, ◌==◌, ◌≡◌, ◌⊎◌, inl, inr, refl, Bool, true, false, not, ◌&&◌, List, [], ◌∷◌, Option, Bytes,
  length, if◌then◌else◌, Result, ok, err, Bool-cases, if-property,
}
use go_certbot.Certonly.Dispatch.{
  Directive, fresh, skip, renew, expand, newcert, Request, loaded, wanted, is_superset,
  same_san_set, choose, find_cert_dispatch, DispatchError, is_due,
}
use go_certbot.Cli.Domains.{contains}
use go_certbot.Golib.Strings.{equal}
use go_certbot.Golib.Strings.Laws.{equal_iff}

-- Both lists have the same names.
abbrev pub SameNames : List Bytes → List Bytes → Type 0
SameNames a b = (n : Bytes) → contains a n ≡ contains b n

-- A name of the second list is in the first.
abbrev pub Covers : List Bytes → List Bytes → Type 0
Covers a b = (n : Bytes) → contains b n ≡ true → contains a n ≡ true

and-true : (x y : Bool) → (x && y) ≡ true → (x ≡ true) × (y ≡ true)
and-true true true h = (refl, refl)
and-true true false h = cc
and-true false y h = cc

pub is_superset-Covers : (a b : List Bytes) → is_superset a b ≡ true → Covers a b
unfolding is_superset contains
is_superset-Covers a (m ∷ b) h n k = elim (Bool-cases (equal m n)) [
  | inl e ↦ rw (← (equal_iff m n).0 e) (and-true (contains a m) (is_superset a b) h).0
  | inr e ↦ is_superset-Covers a b (and-true (contains a m) (is_superset a b) h).1 n cc
]
is_superset-Covers a [] h n k = cc

SameNames-Covers : (a b : List Bytes) → Covers a b → Covers b a → SameNames a b
SameNames-Covers a b f g n = elim (Bool-cases (contains a n)) [
  | inl e ↦ cc (g n e)
  | inr e ↦ elim (Bool-cases (contains b n)) [ inl d ↦ cc (f n d) | inr d ↦ cc ]
]

pub same_san_set-SameNames : (a b : List Bytes) → same_san_set a b ≡ true → SameNames a b
unfolding same_san_set
same_san_set-SameNames a b h =
    let both = (and-true (length a == length b) (is_superset a b && is_superset b a) h).1 in
    let parts = and-true (is_superset a b) (is_superset b a) both in
    SameNames-Covers a b (is_superset-Covers a b parts.0) (is_superset-Covers b a parts.1)

-- What a directive requires, for `identical` and `expansion` as the code computes them.
abbrev pub Justified : Request → List Bytes → Result DispatchError Directive × Bool → Type 0
Justified q existing (ok skip, asked) = SameNames existing (wanted q)
Justified q existing (ok renew, asked) = (q.force_renewal ≡ true) ⊎ SameNames existing (wanted q)
Justified q existing (ok expand, asked) =
    (q.expand_flag ≡ true) ⊎ ((asked ≡ true) × Covers existing (wanted q))
Justified q existing (ok newcert, asked) = q.force_renewal ≡ false
Justified q existing (ok fresh, asked) = Unit
Justified q existing (err e, asked) = (asked ≡ false) × (q.non_interactive ≡ true)

renewed_or_kept :
    (q : Request) (existing : List Bytes) (b asked : Bool)
    → SameNames existing (wanted q)
    → Justified q existing (ok (if b then renew else skip), asked)
renewed_or_kept q existing true asked names = inr names
renewed_or_kept q existing false asked names = names

-- The switch, for any two tests that mean what they say.
choose-Justified :
    (q : Request) (existing : List Bytes) (identical expansion : Bool) (needs : Option Bool)
    (answer : Bool)
    → (identical ≡ true → SameNames existing (wanted q))
    → (expansion ≡ true → Covers existing (wanted q))
    → Justified q existing (choose q identical expansion needs answer)
unfolding choose
choose-Justified q existing identical expansion needs answer same covers =
    if-property J q.force_renewal (λ e. inl e)
      (λ kept.
        if-property J q.duplicate (λ e. kept)
          (λ e.
            if-property J (q.expand_flag && not identical)
              (λ d. inl (and-true q.expand_flag (not identical) d).0)
              (λ d.
                if-property J (q.reinstall_existing && identical)
                  (λ k.
                    let names = same (and-true q.reinstall_existing identical k).1 in
                    renewed_or_kept q existing (is_due needs) false names)
                  (λ k.
                    if-property J identical
                      (λ i.
                        if-property J q.non_interactive (λ b. inr (same i))
                          (λ b. renewed_or_kept q existing answer true (same i)))
                      (λ i.
                        if-property J expansion
                          (λ x.
                            if-property J q.non_interactive (λ b. (refl, b))
                              (λ b.
                                if-property (λ r. J (ok r, true)) answer (λ y. inr (refl, covers x))
                                  (λ y. kept)))
                          (λ x. kept))))))
  where
    J : Result DispatchError Directive × Bool → Type 0
    J = Justified q existing

-- For a renewal configuration that names a certificate file: a certificate is kept only if its names are those wanted,
-- and replaced under its name only if that or `--force-renewal`; it is expanded only with `--expand`,
-- or where the user has been asked and its names cover those wanted; a second one is
-- issued only without `--force-renewal`; and an error is returned only with `--non-interactive`, with no prompt.
pub find_cert_dispatch-Justified :
    (q : Request) (c : ℕ) (leaf : Bytes) (existing : List Bytes) (needs : Option Bool)
    (answer : Bool)
    → Justified q existing (find_cert_dispatch q (loaded (c ∷ leaf) existing needs) answer)
unfolding find_cert_dispatch
find_cert_dispatch-Justified q c leaf existing needs answer =
    choose-Justified q existing _ _ needs answer (same_san_set-SameNames existing (wanted q))
      (is_superset-Covers existing (wanted q))

lacks :
    (a b : List Bytes) (n : Bytes)
    → contains a n ≡ false
    → contains b n ≡ true
    → is_superset a b ≡ false
lacks a b n h k = elim (Bool-cases (is_superset a b)) [
  | inl e ↦ cc (h, is_superset-Covers a b e n k)
  | inr e ↦ e
]

differs :
    (a b : List Bytes) (n : Bytes)
    → contains a n ≡ false
    → contains b n ≡ true
    → same_san_set a b ≡ false
differs a b n h k = elim (Bool-cases (same_san_set a b)) [
  | inl e ↦ cc (h, k, same_san_set-SameNames a b e n)
  | inr e ↦ e
]

-- Without `--force-renewal`, `--duplicate` and `--expand`, where a name is wanted that the certificate has
-- not, a second certificate is issued and the user is not asked, even where all names of the
-- certificate are wanted too, and with or without `--non-interactive`.
pub added_name_newcert :
    (q : Request) (c : ℕ) (leaf : Bytes) (existing : List Bytes) (needs : Option Bool)
    (answer : Bool) (n : Bytes)
    → q.force_renewal ≡ false
    → q.duplicate ≡ false
    → q.expand_flag ≡ false
    → contains existing n ≡ false
    → contains (wanted q) n ≡ true
    → find_cert_dispatch q (loaded (c ∷ leaf) existing needs) answer ≡ (ok newcert, false)
unfolding find_cert_dispatch choose
added_name_newcert q c leaf existing needs answer n force dup narrow absent asked_for =
    rw
      (
        force,
        dup,
        narrow,
        differs existing (wanted q) n absent asked_for,
        lacks existing (wanted q) n absent asked_for,
      )
      (unkept q.reinstall_existing needs)
  where
    unkept :
        (b : Bool) (due : Option Bool)
        → ◌≡◌ {A = Result DispatchError Directive × Bool}
            (if b && false
              then (ok (if is_due due then renew else skip), false)
              else (ok newcert, false))
            (ok newcert, false)
    unkept true due = refl
    unkept false due = refl
