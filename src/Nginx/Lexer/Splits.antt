-- ===== src/Nginx/Lexer/Splits.antt =====
-- What `next` returns covers the source: no byte is lost, read twice or reordered.
use go_certbot.Prelude.{
  ℕ, ◌+◌, ◌<◌, ◌≡◌, refl, sym, ap, ◌∙◌, true, false, ◌||◌, [], ◌∷◌, ◌++◌, Option, none, some, Bytes,
  length, ◌==◌, if-property, Bool-cases, inl, inr, Result, ok, err, arith, append_assoc,
}
use go_certbot.Golib.Strings.{trim_space}
use go_certbot.Golib.Strings.Scan.{scan-append}
use go_certbot.Nginx.Lexer.{
  TokenKind, eof, word, Token, Lexer, Error, unterminated_string, advance, prepend, at_least_one,
  close_quote, quoted_token, token, comment_token, word_token, until_newline, consume_until_newline,
  quoted_body, word_width, word_run, raw_word, consume_word, next_after,
}

-- The value of a token that covers the bytes `raw`.
abbrev pub value_of : TokenKind → Bytes → Bytes
value_of word raw = trim_space raw
value_of _ raw = raw

-- Only the end of the source covers nothing, and then nothing is left.
abbrev pub Progress : TokenKind → Bytes → Lexer → Type 0
Progress eof raw l = (raw ≡ []) × (l.rest ≡ [])
Progress _ raw l = 0 < length raw

pub record Covers (ws : Bytes) (l : Lexer) (t : Token) (l' : Lexer) : Type 0 where
  pub raw : Bytes
  pub whitespace : t.whitespace ≡ ws
  pub value : t.value ≡ value_of t.kind raw
  pub splits : l.rest ≡ raw ++ l'.rest
  pub offset : l'.pos ≡ l.pos + length raw
  pub progress : Progress t.kind raw l'

-- The only error stands at a quote that no later byte closes; the rest of the source is read.
pub record Refuses (l : Lexer) (e : Error) (l' : Lexer) : Type 0 where
  pub reason : e ≡ unterminated_string l.pos
  pub exhausted : l'.rest ≡ []
  pub offset : l'.pos ≡ l.pos + length l.rest

abbrev pub Step : Bytes → Lexer → Result Error Token × Lexer → Type 0
Step ws l (ok t, l') = Covers ws l t l'
Step ws l (err e, l') = Refuses l e l'

pub until_newline-append : (s : Bytes) → (until_newline s).0 ++ (until_newline s).1 ≡ s
unfolding until_newline
until_newline-append [] = refl
until_newline-append (c ∷ cs) = elim (Bool-cases (c == b'\n')) [
  | inl e ↦ rw e
  | inr e ↦ rw e (ap (◌∷◌ c) (until_newline-append cs))
]

-- What was read and what is left make up the whole.
abbrev Joined : Bytes → Option (Bytes × Bytes) → Type 0
Joined s none = Unit
Joined s (some (b, r)) = s ≡ b ++ r

Joined-prepend :
    (p s : Bytes) (o : Option (Bytes × Bytes)) → Joined s o → Joined (p ++ s) (prepend p o)
Joined-prepend p s none h = tt
Joined-prepend p s (some (b, r)) h = ap (◌++◌ p) h ∙ sym (append_assoc p b r)

pub quoted_body-Joined : (q : ℕ) (s : Bytes) → Joined s (quoted_body q s)
unfolding quoted_body
quoted_body-Joined q [] = tt
quoted_body-Joined q (c ∷ []) = if-property (Joined (c ∷ [])) (c == q) (λ _. refl) (λ _. tt)
quoted_body-Joined q (c ∷ d ∷ cs) =
    if-property (Joined (c ∷ d ∷ cs)) (c == b'\\')
      (λ _. Joined-prepend (c ∷ d ∷ []) cs _ (quoted_body-Joined q cs))
      (λ _.
        if-property (Joined (c ∷ d ∷ cs)) (c == q) (λ _. refl)
          (λ _. Joined-prepend (c ∷ []) (d ∷ cs) _ (quoted_body-Joined q (d ∷ cs))))

at_least_one-append :
    (s : Bytes) (p : Bytes × Bytes)
    → p.0 ++ p.1 ≡ s
    → (at_least_one s p).0 ++ (at_least_one s p).1 ≡ s
unfolding word_run
at_least_one-append [] ([], rest) h = refl
at_least_one-append (c ∷ cs) ([], rest) h = refl
at_least_one-append s (c ∷ cs, rest) h = h

at_least_one_pos : (c : ℕ) (cs : Bytes) (p : Bytes × Bytes) → 0 < length (at_least_one (c ∷ cs) p).0
unfolding word_run
at_least_one_pos c cs ([], rest) = omega arith
at_least_one_pos c cs (d ∷ ds, rest) = omega arith

raw_word-append : (s : Bytes) → (raw_word s).0 ++ (raw_word s).1 ≡ s
unfolding raw_word
raw_word-append s = at_least_one-append s _ (scan-append word_width (length s) s)

raw_word_pos : (c : ℕ) (cs : Bytes) → 0 < length (raw_word (c ∷ cs)).0
unfolding raw_word
raw_word_pos c cs = at_least_one_pos c cs _

until_newline_pos :
    (c : ℕ) (cs : Bytes) → (c == b'\n') ≡ false → 0 < length (until_newline (c ∷ cs)).0
unfolding until_newline
until_newline_pos c cs h = rw h (omega arith)

single-Covers :
    (kind : TokenKind) (ws : Bytes) (c : ℕ) (cs : Bytes) (l : Lexer)
    → l.rest ≡ c ∷ cs
    → c ∷ [] ≡ value_of kind (c ∷ [])
    → Progress kind (c ∷ []) (advance l (c ∷ []) cs)
    → Covers ws l (token kind ws (c ∷ [])) (advance l (c ∷ []) cs)
single-Covers kind ws c cs l e v p = record {
  raw = c ∷ [];
  whitespace = refl;
  value = v;
  splits = e;
  offset = refl;
  progress = p;
}

close_quote-Step :
    (ws : Bytes) (c : ℕ) (cs : Bytes) (l : Lexer) (o : Option (Bytes × Bytes))
    → l.rest ≡ c ∷ cs
    → Joined cs o
    → Step ws l (quoted_token ws (close_quote c l cs o))
close_quote-Step ws c cs l (some (b, r)) e j = record {
  raw = c ∷ b;
  whitespace = refl;
  value = refl;
  splits = e ∙ ap (◌∷◌ c) j;
  offset = refl;
  progress = omega arith;
}
close_quote-Step ws c cs l none e j = record { reason = refl; exhausted = refl; offset = rw e }

-- Behind its whitespace `next` covers a token, or fails at an open quote.
pub next_after-Step :
    (ws : Bytes) (s : Bytes) (l : Lexer) → l.rest ≡ s → Step ws l (next_after ws s l)
unfolding next_after
next_after-Step ws [] l e = record {
  raw = [];
  whitespace = refl;
  value = refl;
  splits = refl;
  offset = omega arith;
  progress = (refl, e);
}
next_after-Step ws (c ∷ cs) l e =
    if-property (Step ws l) (c == b'{') (λ _. single-Covers _ ws c cs l e refl (omega arith))
      (λ _.
        if-property (Step ws l) (c == b'}') (λ _. single-Covers _ ws c cs l e refl (omega arith))
          (λ _.
            if-property (Step ws l) (c == b';')
              (λ _. single-Covers _ ws c cs l e refl (omega arith))
              (λ _.
                if-property (Step ws l) (c == b'#') (λ h. comment-Covers h)
                  (λ _.
                    if-property (Step ws l) (c == b'"' || c == b'\'')
                      (λ _. close_quote-Step ws c cs l _ e (quoted_body-Joined c cs))
                      (λ _. word-Covers)))))
  where
    comment-Covers : (c == b'#') ≡ true → Step ws l (comment_token ws (consume_until_newline l))
    comment-Covers h = record {
      raw = (until_newline l.rest).0;
      whitespace = refl;
      value = refl;
      splits = sym (until_newline-append l.rest);
      offset = refl;
      progress = rw e (until_newline_pos c cs (ground arith));
    }

    word-Covers : Step ws l (word_token ws (consume_word l))
    word-Covers = record {
      raw = (raw_word l.rest).0;
      whitespace = refl;
      value = refl;
      splits = sym (raw_word-append l.rest);
      offset = refl;
      progress = rw e (raw_word_pos c cs);
    }
