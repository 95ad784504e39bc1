-- ===== src/Cli/Domains/Distinct.antt =====
-- What `normalizeDomains` of internal/cmd/flags.go returns: which names, and each once.
use go_certbot.Prelude.{
  ◌≡◌, refl, sym, ap, ◌∙◌, Bool, true, false, not, ◌&&◌, ◌||◌, List, [], ◌∷◌, ◌++◌, map, Bytes,
  if◌then◌else◌, Bool-cases, ◌⊎◌, inl, inr, if-property,
}
use go_certbot.Cli.Domains.{contains, is_empty, normal, normalize_onto, normalize_domains}
use go_certbot.Golib.Strings.Laws.{equal_iff}
use go_certbot.Golib.Strings.{equal}

-- No name stands in the list twice.
abbrev pub Distinct : List Bytes → Type 0
Distinct [] = Unit
Distinct (x ∷ xs) = (contains xs x ≡ false) × Distinct xs

or_assoc : (a b c : Bool) → ((a || b) || c) ≡ (a || (b || c))
or_assoc true b c = refl
or_assoc false b c = refl

contains-append :
    (xs : List Bytes) (n d : Bytes) → contains (xs ++ n ∷ []) d ≡ (contains xs d || equal n d)
unfolding contains
contains-append [] n d = or_false (equal n d)
  where
    or_false : (b : Bool) → (b || false) ≡ b
    or_false true = refl
    or_false false = refl
contains-append (x ∷ xs) n d =
    ap (λ b. equal x d || b) (contains-append xs n d)
    ∙ sym (or_assoc (equal x d) (contains xs d) (equal n d))

pub differ : (a b : Bytes) → equal a b ≡ false → equal b a ≡ false
differ a b h = elim (Bool-cases (equal b a)) [
  | inr d ↦ d
  | inl d ↦ cc (h, (equal_iff a b).1 (sym ((equal_iff b a).0 d)))
]

pub or-false : (a b : Bool) → (a || b) ≡ false → (a ≡ false) × (b ≡ false)
or-false false false h = (refl, refl)
or-false false true h = cc
or-false true b h = cc

pub append-Distinct :
    (xs : List Bytes) (n : Bytes) → contains xs n ≡ false → Distinct xs → Distinct (xs ++ n ∷ [])
unfolding contains
append-Distinct [] n h k = (refl, tt)
append-Distinct (x ∷ xs) n h k =
    let parts = or-false (equal x n) (contains xs n) h in
    (contains-append xs n x ∙ rw (k.0, differ x n parts.0) refl, append-Distinct xs n parts.1 k.1)

abbrev next_out : List Bytes → Bytes → List Bytes
next_out out n = if is_empty n || contains out n then out else out ++ n ∷ []

next_out-Distinct : (out : List Bytes) (n : Bytes) → Distinct out → Distinct (next_out out n)
next_out-Distinct out n k =
    if-property Distinct (is_empty n || contains out n) (λ e. k)
      (λ e. append-Distinct out n (or-false (is_empty n) (contains out n) e).1 k)

absorb : (c a x : Bool) → ((a && x) ≡ false) ⊎ (x ≡ true → c ≡ true) → c ≡ (c || (a && x))
absorb true a x h = refl
absorb false a x (inl h) = sym h
absorb false true true (inr f) = f refl
absorb false true false (inr f) = refl
absorb false false x (inr f) = refl

empty_equal : (n d : Bytes) → is_empty n ≡ true → (not (is_empty d) && equal n d) ≡ false
unfolding equal
empty_equal [] [] e = refl
empty_equal [] (c ∷ d) e = refl
empty_equal (b ∷ n) d e = cc

nonempty_equal : (n d : Bytes) → is_empty n ≡ false → equal n d ≡ (not (is_empty d) && equal n d)
unfolding equal
nonempty_equal [] d e = cc
nonempty_equal (b ∷ n) [] e = refl
nonempty_equal (b ∷ n) (c ∷ d) e = refl

contains-next_out :
    (out : List Bytes) (n d : Bytes)
    → contains (next_out out n) d ≡ (contains out d || (not (is_empty d) && equal n d))
contains-next_out out n d = elim (Bool-cases (is_empty n)) [
  | inl e ↦ rw e (absorb (contains out d) (not (is_empty d)) (equal n d) (inl (empty_equal n d e)))
  | inr e ↦ elim (Bool-cases (contains out n)) [
    | inl f ↦
        rw (e, f)
          (absorb (contains out d) (not (is_empty d)) (equal n d)
            (inr (λ g. rw (← (equal_iff n d).0 g) f)))
    | inr f ↦
        rw (e, f) (contains-append out n d ∙ ap (λ b. contains out d || b) (nonempty_equal n d e))
  ]
]

normalize_onto-Distinct :
    (out raws : List Bytes) → Distinct out → Distinct (normalize_onto out raws)
unfolding normalize_onto
normalize_onto-Distinct out [] k = k
normalize_onto-Distinct out (raw ∷ raws) k =
    normalize_onto-Distinct (next_out out (normal raw)) raws (next_out-Distinct out (normal raw) k)

both : (c a x r : Bool) → ((c || (a && x)) || (a && r)) ≡ (c || (a && (x || r)))
both true a x r = refl
both false true x r = refl
both false false x r = refl

contains-normalize_onto :
    (out raws : List Bytes) (d : Bytes)
    → contains (normalize_onto out raws) d
      ≡ (contains out d || (not (is_empty d) && contains (map normal raws) d))
unfolding normalize_onto contains
contains-normalize_onto out [] d = absorb (contains out d) (not (is_empty d)) false (inr (λ e. cc))
contains-normalize_onto out (raw ∷ raws) d =
    contains-normalize_onto (next_out out (normal raw)) raws d
    ∙ rw (contains-next_out out (normal raw) d) (
        both (contains out d) (not (is_empty d)) (equal (normal raw) d)
          (contains (map normal raws) d))

-- For every list of domains, the result has no name twice, and has exactly the names that are the
-- normal form of a domain of the list and not empty.
pub normalize_domains-Distinct :
    (domains : List Bytes)
    → Distinct (normalize_domains domains)
      × ((d : Bytes)
          → contains (normalize_domains domains) d
            ≡ (not (is_empty d) && contains (map normal domains) d))
unfolding normalize_domains contains
normalize_domains-Distinct domains =
    (normalize_onto-Distinct [] domains tt, λ d. contains-normalize_onto [] domains d)
