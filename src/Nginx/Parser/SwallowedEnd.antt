-- ===== src/Nginx/Parser/SwallowedEnd.antt =====
-- A comment before the `;`: the newline that ends it belongs to the `;` and is not kept.
use go_certbot.Prelude.{
  ℕ, suc, append-nil, ◌∙◌, ◌+◌, length, ◌≡◌, refl, [], ◌∷◌, ◌++◌, Bytes, true, false, codes, ok,
  err, ◌==◌, Bool-cases, inl, inr,
}
use go_certbot.Nginx.Lexer.{
  until_newline, eof, word, comment, semicolon, expected_terminator, next, Lexer, token,
  consume_until_newline,
}
use go_certbot.Nginx.Ast.{directive, nil, cons, Config, to_string}
use go_certbot.Nginx.Parser.{
  parse, contains_newline, config_of, parse_body, parse_args, peek, take, parse_trailing, start,
  parse_lem,
}

until_newline-append_line :
    (c rest : Bytes)
    → contains_newline c ≡ false
    → until_newline (c ++ b'\n' ∷ rest) ≡ (c, b'\n' ∷ rest)
unfolding until_newline contains_newline
until_newline-append_line [] rest h = refl
until_newline-append_line (x ∷ c) rest h = elim (Bool-cases (x == b'\n')) [
  | inl e ↦ cc (rw e at h)
  | inr e ↦ rw (e, until_newline-append_line c rest (rw e at h))
]

until_newline-line :
    (c : Bytes) → contains_newline c ≡ false → until_newline (c ++ b';' ∷ []) ≡ (c ++ b';' ∷ [], [])
unfolding until_newline contains_newline
until_newline-line [] h = refl
until_newline-line (x ∷ c) h = elim (Bool-cases (x == b'\n')) [
  | inl e ↦ cc (rw e at h)
  | inr e ↦ rw (e, until_newline-line c (rw e at h))
]

-- What is read from "a b #", the comment, a newline and ";".
abbrev pub commented : Bytes → Config
commented c = record {
  nodes =
      cons
        (directive (record {
          whitespace = [];
          name = codes "a";
          args = codes "b" ∷ [];
          arg_leading_ws = codes " " ∷ [];
          semicolon = true;
          trailing_comment = [];
          internal_comments =
              record { args_before = 1; whitespace = codes " "; value = b'#' ∷ c } ∷ [];
        }))
        nil;
  trailing_whitespace = [];
}

abbrev at : ℕ → Bytes → Lexer
at n s = record { pos = n; rest = s }

next_name :
    (s : Bytes)
    → next (at 0 (codes "a b #" ++ s)) ≡ (ok (token word [] (codes "a")), at 1 (codes " b #" ++ s))
unfolding next
next_name s = refl

next_arg :
    (s : Bytes)
    → next (at 1 (codes " b #" ++ s))
      ≡ (ok (token word (codes " ") (codes "b")), at 3 (codes " #" ++ s))
unfolding next
next_arg s = refl

next_comment :
    (s line rest : Bytes)
    → until_newline s ≡ (line, rest)
    → next (at 3 (codes " #" ++ s))
      ≡ (ok (token comment (codes " ") (b'#' ∷ line)), at (4 + length (b'#' ∷ line)) rest)
unfolding next consume_until_newline
next_comment s line rest h = rw h

next_end :
    (n : ℕ)
    → next (at n (codes "\n;")) ≡ (ok (token semicolon (codes "\n") (codes ";")), at (n + 1 + 1) [])
unfolding next
next_end n = refl

next_eof : (n : ℕ) → next (at n []) ≡ (ok (token eof [] []), at (n + 0) [])
unfolding next
next_eof n = refl

body-swallowed_end :
    (n : ℕ) (c : Bytes)
    → contains_newline c ≡ false
    → config_of (
        parse_body
          (suc (suc (suc (suc (suc n)))))
          true
          (start (codes "a b #" ++ (c ++ codes "\n;"))))
      ≡ ok (commented c)
unfolding parse_body parse_args peek take parse_trailing
body-swallowed_end n c h = rw (
  next_name,
  next_arg,
  next_comment _ c (codes "\n;") (until_newline-append_line c (codes ";") h),
  next_end,
  next_eof,
)

body_reprinted :
    (n : ℕ) (c : Bytes)
    → contains_newline c ≡ false
    → config_of (
        parse_body (suc (suc (suc (suc (suc n))))) true (start (codes "a b #" ++ (c ++ codes ";"))))
      ≡ err (expected_terminator (codes "a") eof)
unfolding parse_body parse_args peek take parse_trailing
body_reprinted n c h =
    rw (next_name, next_arg, next_comment _ (c ++ codes ";") [] (until_newline-line c h), next_eof)

to_string-commented : (c : Bytes) → to_string (commented c) ≡ codes "a b #" ++ (c ++ codes ";")
unfolding to_string
to_string-commented c = simp append-nil

-- For every comment text `c` with no newline in it: "a b #", `c`, a newline and ";" parse to one
-- directive, and what `String` writes for that directive is refused, since the comment now runs
-- over the ";".
pub parse-swallowed_end :
    (c : Bytes)
    → contains_newline c ≡ false
    → (parse (codes "a b #" ++ (c ++ codes "\n;")) ≡ ok (commented c))
      × (parse (to_string (commented c)) ≡ err (expected_terminator (codes "a") eof))
parse-swallowed_end c h = (
  parse_lem _ ∙ body-swallowed_end (suc (length (c ++ codes "\n;"))) c h,
  rw (to_string-commented c) (parse_lem _ ∙ body_reprinted (suc (length (c ++ codes ";"))) c h),
)
