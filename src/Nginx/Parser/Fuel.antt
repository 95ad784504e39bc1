-- ===== src/Nginx/Parser/Fuel.antt =====
-- The parser ends: each round of each loop takes a token, and a token covers a byte.
use go_certbot.Prelude.{
  ℕ, zero, suc, ◌+◌, ◌-◌, not, ◌&&◌, ◌<◌, ◌≤◌, ◌≡◌, ◌≢◌, refl, ap, Bool, true, false, ◌++◌, Option,
  none, some, Bytes, length, length-append, if-property, Result, ok, err, arith,
}
use go_certbot.Nginx.Lexer.{
  TokenKind, eof, word, quoted_string, open_brace, close_brace, semicolon, comment, Token, Lexer,
  Error, out_of_fuel, next,
}
use go_certbot.Nginx.Lexer.Next.{Lexes, Fails, Outcome, next-Outcome}
use go_certbot.Nginx.Lexer.Splits.{Progress}
use go_certbot.Nginx.Ast.{Node, Nodes}
use go_certbot.Nginx.Parser.{
  ParserState, P, ◌>>=◌, ◌>>◌, continue, pure, keep_pending, pass_on, peek_from, take_from, peek,
  take, Args, args_on, parse_args, contains_newline, is_comment, trailing_of, parse_trailing,
  close_block, terminator_on, parse_terminator, named, parse_entry, end_of_source, end_of_block,
  body_on, parse_body, start, config_of, parse,
}

abbrev weight : TokenKind → ℕ
weight eof = 0
weight _ = 1

abbrev pending_size : Option Token → ℕ
pending_size none = 0
pending_size (some t) = weight t.kind

-- What is still to be read.
abbrev measure : ParserState → ℕ
measure s = pending_size s.pending + length s.lex.rest

-- A result with property `Q`, or an error that is not the model's own, with at most `k` left.
abbrev Ensures :
    {A : Type 0} → ℕ → (A → ParserState → Type 0) → Result Error A × ParserState → Type 0
Ensures k Q (ok a, s) = Q a s
Ensures k Q (err e, s) = (e ≢ out_of_fuel) × (measure s ≤ k)

abbrev Within : {A : Type 0} → ℕ → Result Error A × ParserState → Type 0
Within k = Ensures k (λ a s. measure s ≤ k)

Within-mono :
    {A : Type 0} (j k : ℕ) → j ≤ k → (r : Result Error A × ParserState) → Within j r → Within k r
Within-mono j k h (ok a, s) w = omega arith
Within-mono j k h (err e, s) w = (w.0, omega arith)

-- A result with less than `k` left is one with at most `k` left.
Within-suc :
    {A : Type 0} (k j : ℕ)
    → j + 1 ≤ k
    → (r : Result Error A × ParserState) → Within j r
    → Ensures k (λ _ s. measure s + 1 ≤ k) r
Within-suc k j h (ok a, s) w = omega arith
Within-suc k j h (err e, s) w = (w.0, omega arith)

Ensures-bind :
    {A B : Type 0} (k : ℕ) (Q : A → ParserState → Type 0) (m : P A) (f : A → P B) (s : ParserState)
    → Ensures k Q (m s)
    → ((a : A) (s' : ParserState) → Q a s' → Within k (f a s'))
    → Within k ((m >>= f) s)
Ensures-bind k Q m f s h next_step = on_result (m s) h
  where
    on_result : (r : Result Error _ × ParserState) → Ensures k Q r → Within k (continue r f)
    on_result (ok a, s') q = next_step a s' q
    on_result (err e, s') q = q

Progress-weight :
    (κ : TokenKind) (raw : Bytes) (l : Lexer) → Progress κ raw l → weight κ ≤ length raw
Progress-weight eof raw l p = omega arith
Progress-weight word raw l p = p
Progress-weight _ raw l p = p

Lexes-size :
    (l : Lexer) (t : Token) (l' : Lexer)
    → Lexes l t l'
    → weight t.kind + length l'.rest ≤ length l.rest
Lexes-size l t l' h = omega (
  arith,
  Progress-weight t.kind h.raw l' h.progress,
  ap length h.splits,
  length-append t.whitespace (h.raw ++ l'.rest),
  length-append h.raw l'.rest,
)

Fails-reason : (l : Lexer) (e : Error) (l' : Lexer) → Fails l e l' → e ≢ out_of_fuel
Fails-reason l e l' h same = cc (h.reason)

-- What is known of the state in front of a token that has been peeked.
abbrev Peeked : ℕ → Token → ParserState → Type 0
Peeked k t s = (s.pending ≡ some t) × (weight t.kind + length s.lex.rest ≤ k)

abbrev Taken : ℕ → Token → ParserState → Type 0
Taken k t s = weight t.kind + measure s ≤ k

peek-Ensures : (k : ℕ) (s : ParserState) → measure s ≤ k → Ensures k (Peeked k) (peek s)
unfolding peek
peek-Ensures k s h = from s.pending refl
  where
    fresh :
        (r : Result Error Token × Lexer)
        → s.pending ≡ none
        → Outcome s.lex r
        → Ensures k (Peeked k) (keep_pending s r)
    fresh (ok t, l') e o = (refl, omega (arith, Lexes-size s.lex t l' o, ap pending_size e))
    fresh (err x, l') e o =
        (Fails-reason s.lex x l' o, omega (arith, ap length o.exhausted, ap pending_size e))

    from : (o : Option Token) → s.pending ≡ o → Ensures k (Peeked k) (peek_from o s)
    from (some t) e = (e, omega (arith, ap pending_size e))
    from none e = fresh (next s.lex) e (next-Outcome s.lex)

take-Ensures : (k : ℕ) (s : ParserState) → measure s ≤ k → Ensures k (Taken k) (take s)
unfolding take
take-Ensures k s h = from s.pending refl
  where
    fresh :
        (r : Result Error Token × Lexer)
        → s.pending ≡ none
        → Outcome s.lex r
        → Ensures k (Taken k) (pass_on s r)
    fresh (ok t, l') e o = omega (arith, Lexes-size s.lex t l' o, ap pending_size e)
    fresh (err x, l') e o =
        (Fails-reason s.lex x l' o, omega (arith, ap length o.exhausted, ap pending_size e))

    from : (o : Option Token) → s.pending ≡ o → Ensures k (Taken k) (take_from o s)
    from (some t) e = omega (arith, ap pending_size e)
    from none e = fresh (next s.lex) e (next-Outcome s.lex)

pub take_pending :
    (t : Token) (s : ParserState)
    → s.pending ≡ some t
    → take s ≡ (ok t, record s { pending = none })
unfolding take
take_pending t s e = rw e

-- A peeked token that is not the end is taken, and the rest runs with less left.
take_then :
    {A : Type 0} (k : ℕ) (t : Token) (s : ParserState) (f : P A)
    → s.pending ≡ some t
    → weight t.kind ≡ 1
    → 1 + length s.lex.rest ≤ k
    → ((s' : ParserState) → measure s' + 1 ≤ k → Within k (f s'))
    → Within k ((take >> f) s)
take_then k t s f e w h go =
    rw (take_pending t s e) (go (record s { pending = none }) (omega arith))

args_on-Within :
    (k : ℕ) (κ : TokenKind) (x y z : P Args) (s : ParserState)
    → (weight κ ≡ 1 → Within k (x s))
    → (weight κ ≡ 1 → Within k (y s))
    → Within k (z s)
    → Within k (args_on κ x y z s)
args_on-Within k word x y z s hx hy hz = hx refl
args_on-Within k quoted_string x y z s hx hy hz = hx refl
args_on-Within k comment x y z s hx hy hz = hy refl
args_on-Within k _ x y z s hx hy hz = hz

parse_args-Within :
    (fuel k : ℕ) (a : Args) (s : ParserState)
    → measure s ≤ k
    → k < fuel
    → Within k (parse_args fuel a s)
unfolding parse_args
parse_args-Within zero k a s h lt = absurd (omega arith)
parse_args-Within (suc fuel) k a s h lt =
    let again : (b : Args) (s' : ParserState)
        → measure s' + 1 ≤ k
        → Within k (parse_args fuel b s') =
      λ b s' m.
        Within-mono (measure s') k (omega arith) _
          (parse_args-Within fuel (measure s') b s' (omega arith) (omega arith)) in
    Ensures-bind k (Peeked k) peek _ s (peek-Ensures k s h) λ t s' q.
      args_on-Within k t.kind _ _ _ s' (λ w. take_then k t s' _ q.0 w (omega arith) (again _))
        (λ w. take_then k t s' _ q.0 w (omega arith) (again _)) (omega (arith, ap pending_size q.0))

parse_trailing-Within : (k : ℕ) (s : ParserState) → measure s ≤ k → Within k (parse_trailing s)
unfolding parse_trailing
parse_trailing-Within k s h = on_peek (peek s) (peek-Ensures k s h)
  where
    on_token : (t : Token) (s' : ParserState) → Peeked k t s' → Within k (trailing_of (ok t, s'))
    on_token t s' q =
        if-property (λ (p : P Bytes). Within k (p s'))
          (is_comment t.kind && not (contains_newline t.whitespace))
          (λ _. rw (take_pending t s' q.0) (omega arith)) (λ _. omega (arith, ap pending_size q.0))

    on_peek :
        (r : Result Error Token × ParserState) → Ensures k (Peeked k) r → Within k (trailing_of r)
    on_peek (err e, s') q = q.1
    on_peek (ok t, s') q = on_token t s' q

terminator_on-Within :
    (k : ℕ) (κ : TokenKind) (name : Bytes) (x y : P Node) (s : ParserState)
    → measure s ≤ k
    → (weight κ ≡ 1 → Within k (x s))
    → (weight κ ≡ 1 → Within k (y s))
    → Within k (terminator_on κ name x y s)
terminator_on-Within k semicolon name x y s h hx hy = hx refl
terminator_on-Within k open_brace name x y s h hx hy = hy refl
terminator_on-Within k _ name x y s h hx hy = (λ e. cc, h)

close_block-Within :
    (k : ℕ) (κ : TokenKind) (n : Node) (s : ParserState)
    → measure s ≤ k
    → Within k (close_block κ (pure n) s)
close_block-Within k close_brace n s h = h
close_block-Within k eof n s h = (λ e. cc, h)
close_block-Within k _ n s h = (λ e. cc, h)

-- What `parse_inner` is asked for: with less than `k` left it ends with no more left.
abbrev Inner : ℕ → P Nodes → Type 0
Inner k inner = (s : ParserState) → measure s + 1 ≤ k → Within k (inner s)

parse_terminator-Within :
    (k : ℕ) (inner : P Nodes) (name : Token) (a : Args) (s : ParserState)
    → Inner k inner
    → measure s ≤ k
    → Within k (parse_terminator inner name a s)
unfolding parse_terminator
parse_terminator-Within k inner name a s go h =
    Ensures-bind k (Taken k) take _ s (take-Ensures k s h) λ closer s' q.
      terminator_on-Within k closer.kind name.value _ _ s' (omega arith)
        (λ w.
          Ensures-bind k (λ _ s''. measure s'' ≤ k) parse_trailing _ s'
            (parse_trailing-Within k s' (omega arith)) (λ _ s'' m. m))
        (λ w.
          Ensures-bind k (λ _ s''. measure s'' ≤ k) inner _ s' (go s' (omega arith))
            λ body s'' m.
              Ensures-bind k (Taken k) take _ s'' (take-Ensures k s'' m)
                λ close s3 c. close_block-Within k close.kind _ s3 (omega arith))

named-Within :
    (k : ℕ) (κ : TokenKind) (x : P Node) (s : ParserState)
    → measure s ≤ k
    → Within k (x s)
    → Within k (named κ x s)
named-Within k word x s h hx = hx
named-Within k _ x s h hx = (λ e. cc, h)

-- An entry behind a peeked token that is not the end takes at least that token.
parse_entry-Within :
    (fuel k : ℕ) (inner : P Nodes) (t : Token) (s : ParserState)
    → Peeked (suc k) t s
    → weight t.kind ≡ 1
    → k < fuel
    → Inner k inner
    → Within k (parse_entry fuel inner s)
unfolding parse_entry
parse_entry-Within fuel k inner t s q w lt go = rw (take_pending t s q.0) (
    named-Within k t.kind _ (record s { pending = none }) (omega arith)
      (Ensures-bind k (λ _ s'. measure s' ≤ k) (parse_args fuel _) _ (record s { pending = none })
        (parse_args-Within fuel k _ (record s { pending = none }) (omega arith) lt)
        λ a s' m. parse_terminator-Within k inner t a s' go m))

body_on-Within :
    (k : ℕ) (κ : TokenKind) (x y z v : P Nodes) (s : ParserState)
    → Within k (x s)
    → Within k (y s)
    → (weight κ ≡ 1 → Within k (z s))
    → (weight κ ≡ 1 → Within k (v s))
    → Within k (body_on κ x y z v s)
body_on-Within k eof x y z v s hx hy hz hv = hx
body_on-Within k close_brace x y z v s hx hy hz hv = hy
body_on-Within k comment x y z v s hx hy hz hv = hz refl
body_on-Within k _ x y z v s hx hy hz hv = hv refl

end_of_source-Within :
    (k : ℕ) (top : Bool) (t : Token) (s : ParserState)
    → Peeked k t s
    → Within k (end_of_source top t s)
end_of_source-Within k true t s q = rw (take_pending t s q.0) (omega arith)
end_of_source-Within k false t s q = (λ e. cc, omega (arith, ap pending_size q.0))

end_of_block-Within :
    (k : ℕ) (top : Bool) (s : ParserState) → measure s ≤ k → Within k (end_of_block top s)
end_of_block-Within k true s h = (λ e. cc, h)
end_of_block-Within k false s h = h

parse_body-Within :
    (fuel k : ℕ) (top : Bool) (s : ParserState)
    → measure s ≤ k
    → k < fuel
    → Within k (parse_body fuel top s)
unfolding parse_body
parse_body-Within zero k top s h lt = absurd (omega arith)
parse_body-Within (suc fuel) k top s h lt =
    let again : (j : ℕ) (b : Bool) (s' : ParserState)
        → measure s' ≤ j
        → measure s' + 1 ≤ k
        → Within j (parse_body fuel b s') =
      λ j b s' m l.
        Within-mono (measure s') j m _
          (parse_body-Within fuel (measure s') b s' (omega arith) (omega arith)) in
    let next_nodes : (f : Nodes → Nodes) (s' : ParserState)
        → measure s' + 1 ≤ k
        → Within k ((parse_body fuel top >>= λ ns. pure (f ns)) s') =
      λ f s' m.
        Ensures-bind k (λ _ r. measure r ≤ k) (parse_body fuel top) _ s'
          (again k top s' (omega arith) m) (λ _ _ m'. m') in
    Ensures-bind k (Peeked k) peek _ s (peek-Ensures k s h) λ t s' q.
      body_on-Within k t.kind _ _ _ _ s' (end_of_source-Within k top t s' q)
        (end_of_block-Within k top s' (omega (arith, ap pending_size q.0)))
        (λ w. take_then k t s' _ q.0 w (omega arith) (next_nodes _))
        (λ w.
          Ensures-bind k (λ _ r. measure r + 1 ≤ k) (parse_entry fuel (parse_body fuel false)) _ s'
            (Within-suc k (k - 1) (omega arith) _ (
              parse_entry-Within fuel (k - 1) _ t s' (q.0, omega arith) w (omega arith)
                (λ s'' m. again (k - 1) false s'' (omega arith) (omega arith))))
            (λ n s'' m. next_nodes _ s'' m))

-- For every source, the fuel that `parse` gives is enough: it never returns the model's own error,
-- so what it returns is what the loops of the source return.
pub parse_terminates : (src : Bytes) → parse src ≢ err out_of_fuel
unfolding parse
parse_terminates src =
    on_result (parse_body (suc (length src)) true (start src)) (
      parse_body-Within (suc (length src)) (length src) true (start src) (omega arith)
        (omega arith))
  where
    on_result :
        (r : Result Error Nodes × ParserState)
        → Within (length src) r
        → config_of r ≢ err out_of_fuel
    on_result (ok ns, s) h e = cc
    on_result (err x, s) h e = h.0 (cc)
