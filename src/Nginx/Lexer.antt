-- ===== src/Nginx/Lexer.antt =====
-- internal/plugins/nginx/parser/lex.go. A lexer keeps its offset and the bytes from there on,
-- `l.src[l.pos:]`. Each method returns the lexer that it leaves behind, beside an error too.
pub mod Splits
pub mod Next
use go_certbot.Prelude.{
  ℕ, ◌+◌, Bool, ◌||◌, List, [], ◌∷◌, ◌++◌, Option, none, some, Bytes, length, ◌==◌, if◌then◌else◌,
  Result, ok, err, Exec,
}
use go_certbot.Golib.Utf8.{decode_rune, is_space, space_width}
use go_certbot.Golib.Strings.{trim_space}
use go_certbot.Golib.Strings.Scan.{scan}

pub data TokenKind : Type 0 where
  eof word quoted_string open_brace close_brace semicolon comment : TokenKind

pub record Token : Type 0 where
  pub kind : TokenKind
  pub value : Bytes
  pub whitespace : Bytes

pub record Lexer : Type 0 where
  pub pos : ℕ
  pub rest : Bytes

-- Every error of the parser. `out_of_fuel` is the model's own, and no run returns it.
pub data Error : Type 0 where
  unterminated_string : ℕ → Error
  unexpected_eof unexpected_close : Error
  expected_name : TokenKind → Error
  expected_close : TokenKind → Error
  expected_terminator : Bytes → TokenKind → Error
  out_of_fuel : Error

abbrev pub new_lexer : Bytes → Lexer
new_lexer src = record { pos = 0; rest = src }

-- The lexer behind the bytes `taken`.
abbrev pub advance : Lexer → Bytes → Bytes → Lexer
advance l taken rest = record { pos = l.pos + length taken; rest = rest }

unfoldable pub consume_whitespace : Lexer → Bytes × Lexer
unfolding scan space_width
consume_whitespace l =
    let (ws, rest) = scan space_width (length l.rest) l.rest in (ws, advance l ws rest)

-- The part of a string before its first newline, and the part from there on.
unfoldable pub until_newline : Bytes → Bytes × Bytes
until_newline [] = ([], [])
until_newline (c ∷ cs) =
    let (line, rest) = until_newline cs in if c == b'\n' then ([], c ∷ cs) else (c ∷ line, rest)

unfoldable pub consume_until_newline : Lexer → Bytes × Lexer
unfolding until_newline
consume_until_newline l = let (line, rest) = until_newline l.rest in (line, advance l line rest)

abbrev pub prepend : Bytes → Option (Bytes × Bytes) → Option (Bytes × Bytes)
prepend s none = none
prepend s (some (body, rest)) = some (s ++ body, rest)

-- The loop of `consumeQuoted` behind the opening quote: the body with its closing quote, and what
-- follows, or `none` if the source ends first.
unfoldable pub quoted_body : ℕ → Bytes → Option (Bytes × Bytes)
quoted_body quote [] = none
quoted_body quote (c ∷ []) = if c == quote then some (c ∷ [], []) else none
quoted_body quote (c ∷ d ∷ cs) =
    let escaped = quoted_body quote cs in
    let plain = quoted_body quote (d ∷ cs) in
    if c == b'\\'
    then prepend (c ∷ d ∷ []) escaped
    else if c == quote
    then some (c ∷ [], d ∷ cs)
    else prepend (c ∷ []) plain

abbrev pub close_quote : ℕ → Lexer → Bytes → Option (Bytes × Bytes) → Result Error Bytes × Lexer
close_quote quote l cs (some (body, rest)) = (ok (quote ∷ body), advance l (quote ∷ body) rest)
close_quote quote l cs none = (err (unterminated_string l.pos), advance l (quote ∷ cs) [])

-- At the opening quote `quote`, with `cs` behind it. On an error the whole source has been read.
unfoldable pub consume_quoted : ℕ → Bytes → Lexer → Result Error Bytes × Lexer
unfolding quoted_body
consume_quoted quote cs l = close_quote quote l cs (quoted_body quote cs)

-- The width of a rune that belongs to a word, 0 at a special byte, a space or the end.
unfoldable pub word_width : Bytes → ℕ
unfolding decode_rune is_space
word_width [] = 0
word_width (c ∷ cs) =
    if c == b';' || c == b'{' || c == b'}' || c == b'#'
    then 0
    else let (r, w) = decode_rune (c ∷ cs) in if is_space r then 0 else w

-- Where nothing was consumed, one byte is taken: "should not happen".
unfoldable pub word_run : Bytes → Bytes × Bytes
word_run [] = ([], [])
word_run (c ∷ cs) = (c ∷ [], cs)

abbrev pub at_least_one : Bytes → Bytes × Bytes → Bytes × Bytes
at_least_one s ([], rest) = word_run s
at_least_one s (c ∷ cs, rest) = (c ∷ cs, rest)

-- The bytes that `consumeWord` takes, before it trims them.
unfoldable pub raw_word : Bytes → Bytes × Bytes
unfolding scan word_width word_run
raw_word s = at_least_one s (scan word_width (length s) s)

unfoldable pub consume_word : Lexer → Bytes × Lexer
unfolding raw_word trim_space
consume_word l = let (raw, rest) = raw_word l.rest in (trim_space raw, advance l raw rest)

abbrev pub token : TokenKind → Bytes → Bytes → Token
token kind whitespace value = record { kind = kind; value = value; whitespace = whitespace }

abbrev single : TokenKind → Bytes → ℕ → Bytes → Lexer → Result Error Token × Lexer
single kind ws c cs l = (ok (token kind ws (c ∷ [])), advance l (c ∷ []) cs)

abbrev pub comment_token : Bytes → Bytes × Lexer → Result Error Token × Lexer
comment_token ws (v, l) = (ok (token comment ws v), l)

abbrev pub word_token : Bytes → Bytes × Lexer → Result Error Token × Lexer
word_token ws (v, l) = (ok (token word ws v), l)

abbrev pub quoted_token : Bytes → Result Error Bytes × Lexer → Result Error Token × Lexer
quoted_token ws (ok v, l) = (ok (token quoted_string ws v), l)
quoted_token ws (err e, l) = (err e, l)

-- The switch of `next`, behind the whitespace `ws`, on the bytes that are left.
unfoldable pub next_after : Bytes → Bytes → Lexer → Result Error Token × Lexer
unfolding consume_until_newline consume_quoted consume_word
next_after ws [] l = (ok (token eof ws []), l)
next_after ws (c ∷ cs) l =
    if c == b'{'
    then single open_brace ws c cs l
    else if c == b'}'
    then single close_brace ws c cs l
    else if c == b';'
    then single semicolon ws c cs l
    else if c == b'#'
    then comment_token ws (consume_until_newline l)
    else if c == b'"' || c == b'\''
    then quoted_token ws (consume_quoted c cs l)
    else word_token ws (consume_word l)

unfoldable pub next : Exec Lexer Error Token
unfolding consume_whitespace next_after
next l = let (ws, l') = consume_whitespace l in next_after ws l'.rest l'
