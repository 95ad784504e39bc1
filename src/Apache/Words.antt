-- ===== src/Apache/Words.antt =====
-- `splitArgs`, `findUnquotedGT`, `findUnquotedHash` and `leadingWhitespace` of
-- internal/plugins/apache/parser/parser.go.
pub mod Enough
pub mod Plain
use go_certbot.Prelude.{
  ℕ, zero, suc, ◌≤◌, ◌≡◌, refl, ap, Bool, true, false, not, List, [], ◌∷◌, ◌++◌, Option, none, some,
  Bytes, length, ◌==◌, if◌then◌else◌, if-property, arith,
}
use go_certbot.Golib.Strings.Index.{later, is_blank, trim_left_blanks}

abbrev pub onto : ℕ → Bytes × Bytes → Bytes × Bytes
onto c (word, rest) = (c ∷ word, rest)

-- What is left of a quoted word behind its first quote, with the quote that ends it: a backslash
-- takes the byte behind it along, if there is one.
unfoldable pub quoted : Bytes → Bytes × Bytes
quoted [] = ([], [])
quoted (c ∷ []) = (c ∷ [], [])
quoted (c ∷ d ∷ s) =
    let escaped = onto c (onto d (quoted s)) in
    let plain = onto c (quoted (d ∷ s)) in
    if c == b'\\' then escaped else if c == b'"' then (c ∷ [], d ∷ s) else plain

unfoldable pub bare : Bytes → Bytes × Bytes
bare [] = ([], [])
bare (c ∷ s) = let rest = onto c (bare s) in if is_blank c then ([], c ∷ s) else rest

-- A word that starts with `c`.
unfoldable pub word : ℕ → Bytes → Bytes × Bytes
unfolding quoted bare
word c s = if c == b'"' then onto c (quoted s) else onto c (bare s)

unfoldable pub split_word : (Bytes → List Bytes) → Bytes → List Bytes
unfolding word
split_word more [] = []
split_word more (c ∷ s) = (word c s).0 ∷ more ((word c s).1)

unfoldable pub split_from : ℕ → Bytes → List Bytes
unfolding split_word trim_left_blanks
split_from zero s = []
split_from (suc fuel) s = split_word (split_from fuel) (trim_left_blanks s)

-- Each word takes a byte.
unfoldable pub split_args : Bytes → List Bytes
unfolding split_from
split_args s = split_from (length s) s

-- The first `b` outside quotes. `in_quote` is the source's `inQuote`.
unfoldable pub find_unquoted : ℕ → Bool → Bytes → Option ℕ
find_unquoted b in_quote [] = none
find_unquoted b in_quote (c ∷ []) =
    if c == b'\\'
    then none
    else if c == b'"'
    then none
    else if c == b
    then (if in_quote then none else some 0)
    else none
find_unquoted b in_quote (c ∷ d ∷ s) =
    let escaped = later (later (find_unquoted b in_quote s)) in
    let toggled = later (find_unquoted b (not in_quote) (d ∷ s)) in
    let plain = later (find_unquoted b in_quote (d ∷ s)) in
    if c == b'\\'
    then escaped
    else if c == b'"'
    then toggled
    else if c == b
    then (if in_quote then plain else some 0)
    else plain

unfoldable pub leading_whitespace : Bytes → Bytes
leading_whitespace [] = []
leading_whitespace (c ∷ s) = let rest = leading_whitespace s in if is_blank c then c ∷ rest else []
