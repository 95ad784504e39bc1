-- ===== src/Nginx/Lexer/Next.antt =====
-- `next` as a whole: the whitespace, the token behind it, and what is left.
use go_certbot.Prelude.{
  ℕ, ◌+◌, ◌≤◌, ◌≡◌, refl, sym, ap, ◌∙◌, [], ◌++◌, Bytes, length, length-append, Result, ok, err,
  arith,
}
use go_certbot.Golib.Strings.Scan.{scan, scan-append, scan_stops}
use go_certbot.Golib.Utf8.{space_width}
use go_certbot.Nginx.Lexer.{Token, Lexer, Error, unterminated_string, consume_whitespace, next}
use go_certbot.Nginx.Lexer.Splits.{value_of, Progress, Step, next_after-Step}

-- A token with the whitespace before it and the bytes that it covers, in place.
pub record Lexes (l : Lexer) (t : Token) (l' : Lexer) : Type 0 where
  pub raw : Bytes
  pub value : t.value ≡ value_of t.kind raw
  pub splits : l.rest ≡ t.whitespace ++ (raw ++ l'.rest)
  pub all_space_read : space_width (raw ++ l'.rest) ≡ 0
  pub offset : l'.pos ≡ l.pos + length t.whitespace + length raw
  pub progress : Progress t.kind raw l'

-- The error names the offset of a byte of the source, and the whole source has been read.
pub record Fails (l : Lexer) (e : Error) (l' : Lexer) : Type 0 where
  pub at : ℕ
  pub reason : e ≡ unterminated_string at
  pub in_source : (l.pos ≤ at) × (at ≤ l.pos + length l.rest)
  pub exhausted : l'.rest ≡ []
  pub offset : l'.pos ≡ l.pos + length l.rest

abbrev pub Outcome : Lexer → Result Error Token × Lexer → Type 0
Outcome l (ok t, l') = Lexes l t l'
Outcome l (err e, l') = Fails l e l'

space_width-nil : space_width [] ≡ 0
unfolding space_width
space_width-nil = refl

module _ (l m : Lexer) (ws : Bytes) (e : ws ++ m.rest ≡ l.rest)
    (p : m.pos ≡ l.pos + length ws) where
  Outcome-Step :
      (space_width m.rest ≡ 0) → (r : Result Error Token × Lexer) → Step ws m r → Outcome l r
  Outcome-Step stop (ok t, l') c = record {
    raw = c.raw;
    value = c.value;
    splits = sym e ∙ rw (c.whitespace, c.splits) refl;
    all_space_read = rw (← c.splits) stop;
    offset = rw c.whitespace (c.offset ∙ ap (λ (n : ℕ). n + length c.raw) p);
    progress = c.progress;
  }
  Outcome-Step stop (err x, l') c = record {
    at = m.pos;
    reason = c.reason;
    in_source = (omega arith, omega (arith, ap length e, length-append ws m.rest));
    exhausted = c.exhausted;
    offset = omega (arith, ap length e, length-append ws m.rest, c.offset);
  }

-- For every lexer, `next` either returns a token, and then the source is the token's whitespace,
-- the bytes that the token covers (its value, trimmed in the case of a word) and what is left, with
-- no space left in front of those bytes, the offset moved by as many bytes, and at least one byte
-- covered unless it is the end of the source; or it fails with an offset inside the source, and
-- then the whole source has been read.
pub next-Outcome : (l : Lexer) → Outcome l (next l)
unfolding next consume_whitespace
next-Outcome l =
    let s = scan space_width (length l.rest) l.rest in
    Outcome-Step l (record { pos = l.pos + length s.0; rest = s.1 }) s.0
      (scan-append space_width (length l.rest) l.rest) refl
      (scan_stops space_width space_width-nil (length l.rest) l.rest (omega arith)) _
      (next_after-Step s.0 s.1 (record { pos = l.pos + length s.0; rest = s.1 }) refl)
