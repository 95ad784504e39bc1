-- ===== src/Nginx/Names/Exact.antt =====
-- The score of a server tells whether it has the very name: internal/plugins/nginx/configurator.go.
use go_certbot.Prelude.{
  ℕ, ◌+◌, ◌-◌, ◌≤◌, ◌≡◌, ◌↔◌, ◌⊎◌, inl, inr, refl, ap, Bool, true, false, ◌&&◌, ◌||◌, List, [], ◌∷◌,
  Option, none, some, Bytes, codes, length, take, drop, reverse, ◌==◌, if-property, Bool-cases,
  arith, length-drop, length-take,
}
use go_certbot.Golib.Strings.Laws.{equal_iff, length-reverse}
use go_certbot.Golib.Strings.{equal, has_prefix, has_suffix}
use go_certbot.Nginx.Ast.{Node, Nodes, directive, block, remark, nil, cons}
use go_certbot.Nginx.Names.{
  Compile, name_of, match_score, pattern_of, regex_score, end_score, dot_score, star_score,
  name_match_score, raise, args_score, node_score, score_from, server_name_score,
}

-- A `server_name` directive of the body has the domain among its names.
abbrev pub has_name : Bytes → List Bytes → Bool
has_name dom [] = false
has_name dom (raw ∷ args) = equal (name_of raw) dom || has_name dom args

abbrev pub node_named : Bytes → Node → Bool
node_named dom (directive d) = equal d.name (codes "server_name") && has_name dom d.args
node_named dom (block b body) = false
node_named dom (remark c) = false

abbrev pub is_named : Bytes → Nodes → Bool
is_named dom nil = false
is_named dom (cons n ns) = node_named dom n || is_named dom ns

length-has_prefix : (s p : Bytes) → has_prefix s p ≡ true → length p ≤ length s
unfolding has_prefix
length-has_prefix s [] h = omega arith
length-has_prefix [] (y ∷ ys) h = absurd (cc h)
length-has_prefix (x ∷ xs) (y ∷ ys) h =
    omega (arith, length-has_prefix xs ys (second (x == y) (has_prefix xs ys) h))
  where
    second : (a b : Bool) → (a && b) ≡ true → b ≡ true
    second true b e = e
    second false b e = absurd (cc e)

length-has_suffix : (s p : Bytes) → has_suffix s p ≡ true → length p ≤ length s
unfolding has_suffix
length-has_suffix s p h =
    omega (arith, length-has_prefix (reverse s) (reverse p) h, length-reverse s, length-reverse p)

both : (a b : Bool) → (a && b) ≡ true → (a ≡ true) × (b ≡ true)
both true b e = (refl, e)
both false b e = absurd (cc e)

module _ (compile : Compile) (name dom : Bytes) where
  abbrev Low : ℕ → Type 0
  Low n = n ≤ 501 + length dom

  match_score-Low : (re : Option (Bytes → Bool)) → Low (match_score re dom)
  match_score-Low none = omega arith
  match_score-Low (some re) = if-property Low (re dom) (λ _. omega arith) (λ _. omega arith)

  regex_score-Low : Low (regex_score compile name dom)
  unfolding regex_score
  regex_score-Low =
      if-property Low (has_prefix name (codes "~"))
        (λ _. match_score-Low (compile (pattern_of name))) (λ _. omega arith)

  shorter : length name - 1 ≤ length dom → (k : ℕ) → k ≤ 500 → Low (k + length name)
  shorter h k le = omega (arith, h, le)

  end_score-Low : Low (end_score compile name dom)
  unfolding end_score
  end_score-Low =
      let begins = has_prefix dom (take (length name - 1) name) in
      if-property Low (has_suffix name (codes ".*") && begins)
        (λ e.
          shorter
            (omega (
              arith,
              length-has_prefix dom (take (length name - 1) name) ((both _ begins e).1),
              length-take (length name - 1) name (omega arith),
            ))
            400 (omega arith))
        (λ _. regex_score-Low)

  dotted :
      (a b : Bool)
      → (a || b) ≡ true
      → (a ≡ true → length name - 1 ≤ length dom)
      → (b ≡ true → length name ≤ length dom)
      → length name - 1 ≤ length dom
  dotted true b e f g = f refl
  dotted false b e f g = omega (arith, g e)

  dot_score-Low : Low (dot_score compile name dom)
  unfolding dot_score
  dot_score-Low =
      let bare = equal dom (drop 1 name) in
      let behind = has_suffix dom name in
      if-property Low (has_prefix name (codes ".") && (bare || behind))
        (λ e.
          shorter
            (dotted bare behind ((both _ (bare || behind) e).1)
              (λ d. omega (
                arith,
                ap (λ (t : Bytes). length t) ((equal_iff dom (drop 1 name)).0 d),
                length-drop 1 name,
              ))
              (λ d. length-has_suffix dom name d))
            500 (omega arith))
        (λ _. end_score-Low)

  star_score-Low : Low (star_score compile name dom)
  unfolding star_score
  star_score-Low =
      let behind = has_suffix dom (drop 1 name) in
      if-property Low (has_prefix name (codes "*.") && behind)
        (λ e.
          shorter
            (omega (
              arith,
              length-has_suffix dom (drop 1 name) ((both _ behind e).1),
              length-drop 1 name,
            ))
            500 (omega arith))
        (λ _. dot_score-Low)

-- A score is that of the very name, or low.
abbrev Split : Bytes → Bool → ℕ → Type 0
Split dom named n =
    ((named ≡ true) × (1000 + length dom ≤ n)) ⊎ ((named ≡ false) × (n ≤ 501 + length dom))

name_match_score-Split :
    (compile : Compile) (name : Bytes) (c : ℕ) (s : Bytes)
    → Split (c ∷ s) (equal name (c ∷ s)) (name_match_score compile name (c ∷ s))
unfolding name_match_score equal
name_match_score-Split compile [] c s = inr (refl, omega arith)
name_match_score-Split compile (d ∷ t) c s = elim (Bool-cases (equal (d ∷ t) (c ∷ s))) [
  | inl e ↦
      inl (e, rw e (omega (arith, ap (λ (x : Bytes). length x) ((equal_iff (d ∷ t) (c ∷ s)).0 e))))
  | inr e ↦ inr (e, rw e (star_score-Low compile (d ∷ t) (c ∷ s)))
]

raise-Split :
    (dom : Bytes) (a b : Bool) (m n : ℕ)
    → Split dom a m
    → Split dom b n
    → Split dom (a || b) (raise m n)
raise-Split dom a b m n (inl h) k = inl (rw (h.0) refl, grows m n (h.1))
  where
    grows : (x y : ℕ) → 1000 + length dom ≤ x → 1000 + length dom ≤ raise x y
    grows x y le = ground arith
raise-Split dom a b m n (inr h) (inl k) = inl (rw (h.0) (k.0), above m n (k.1))
  where
    above : (x y : ℕ) → 1000 + length dom ≤ y → 1000 + length dom ≤ raise x y
    above x y le = ground arith
raise-Split dom a b m n (inr h) (inr k) = inr (rw (h.0) (k.0), below m n (h.1) (k.1))
  where
    below : (x y : ℕ) → x ≤ 501 + length dom → y ≤ 501 + length dom → raise x y ≤ 501 + length dom
    below x y le lf = ground arith

or_assoc : (a b c : Bool) → ((a || b) || c) ≡ (a || (b || c))
or_assoc true b c = refl
or_assoc false b c = refl

or_none : (a : Bool) → (a || false) ≡ a
or_none true = refl
or_none false = refl

module _ (compile : Compile) (c : ℕ) (s : Bytes) where
  abbrev SplitAt : Bool → ℕ → Type 0
  SplitAt = Split (c ∷ s)

  args_score-SplitAt :
      (args : List Bytes) (a : Bool) (best : ℕ)
      → SplitAt a best
      → SplitAt (a || has_name (c ∷ s) args) (args_score compile (c ∷ s) best args)
  unfolding args_score
  args_score-SplitAt [] a best h = rw (or_none a) h
  args_score-SplitAt (raw ∷ args) a best h =
      rw (← or_assoc a (equal (name_of raw) (c ∷ s)) (has_name (c ∷ s) args)) (
        args_score-SplitAt args (a || equal (name_of raw) (c ∷ s)) _ (
          raise-Split (c ∷ s) a (equal (name_of raw) (c ∷ s)) best _ h
            (name_match_score-Split compile (name_of raw) c s)))

  node_score-SplitAt :
      (n : Node) (a : Bool) (best : ℕ)
      → SplitAt a best
      → SplitAt (a || node_named (c ∷ s) n) (node_score compile (c ∷ s) best n)
  node_score-SplitAt (directive d) a best h =
      elim (Bool-cases (equal (d.name) (codes "server_name"))) [
        | inl e ↦ rw e (args_score-SplitAt (d.args) a best h)
        | inr e ↦ rw (e, or_none a) h
      ]
  node_score-SplitAt (block b body) a best h = rw (or_none a) h
  node_score-SplitAt (remark r) a best h = rw (or_none a) h

  score_from-SplitAt :
      (ns : Nodes) (a : Bool) (best : ℕ)
      → SplitAt a best
      → SplitAt (a || is_named (c ∷ s) ns) (score_from compile (c ∷ s) best ns)
  unfolding score_from
  score_from-SplitAt nil a best h = rw (or_none a) h
  score_from-SplitAt (cons n ns) a best h =
      rw (← or_assoc a (node_named (c ∷ s) n) (is_named (c ∷ s) ns))
        (score_from-SplitAt ns (a || node_named (c ∷ s) n) _ (node_score-SplitAt n a best h))

-- For a domain that is not empty, the score of a server, even with the point that a server with TLS
-- has more, reaches 1000 and the length of the domain just where the domain is among the server's
-- names: wildcards and patterns stay below, however long they are.
pub server_name_score_exact :
    (compile : Compile) (body : Nodes) (c : ℕ) (s : Bytes)
    → (1000 + length (c ∷ s) ≤ server_name_score compile body (c ∷ s) + 1)
      ↔ (is_named (c ∷ s) body ≡ true)
unfolding server_name_score
server_name_score_exact compile body c s =
    decided _ _ (score_from-SplitAt compile c s body false 0 (inr (refl, omega arith)))
  where
    decided : (b : Bool) (n : ℕ) → Split (c ∷ s) b n → (1000 + length (c ∷ s) ≤ n + 1) ↔ (b ≡ true)
    decided b n (inl h) = (λ _. h.0, λ _. omega (arith, h.1))
    decided b n (inr h) = (λ le. absurd (omega (arith, le, h.1)), λ e. absurd (cc (h.0, e)))
