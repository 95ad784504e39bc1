-- ===== src/Apache/Parser/Printed.antt =====
-- The lines that the printer writes, in the reader of
-- internal/plugins/apache/parser/parser.go.
use mathlib.Core.List.{reverse-append}
use go_certbot.Prelude.{
  ℕ, ◌≡◌, refl, true, false, List, [], ◌∷◌, ◌++◌, reverse, Bytes, codes, ◌==◌, All, All-append,
  arith,
}
use go_certbot.Apache.Lines.Whole.{logical_lines-line}
use go_certbot.Apache.Lines.{logical_lines}
use go_certbot.Apache.Words.Plain.{
  IsSafe, IsWord, IsWord-IsSafe, IsIndent, words_text, words_text-IsSafe,
}
use go_certbot.Apache.Parser.Tags.{open_text, close_text}
use go_certbot.Golib.Strings.Index.{Lacks, is_blank}
use go_certbot.Golib.Strings.{has_prefix, has_suffix}

-- A byte that may stand at the end of a line.
abbrev pub Ordinary : ℕ → Type 0
Ordinary c = ((c == b'\n') ≡ false) × ((c == b'\\') ≡ false)

All-reverse : (P : ℕ → Type 0) (s : Bytes) → All P s → All P (reverse s)
All-reverse P [] h = tt
All-reverse P (c ∷ s) h =
    rw (reverse-append (c ∷ []) s)
      (All-append P (reverse s) (c ∷ []) (All-reverse P s (h.1)) (h.0, tt))

has_prefix-Ordinary : (s : Bytes) → All Ordinary s → has_prefix s (codes "\\") ≡ false
unfolding has_prefix
has_prefix-Ordinary [] h = refl
has_prefix-Ordinary (c ∷ s) h = rw (h.0.1) refl

no_continuation : (s : Bytes) → All Ordinary s → has_suffix s (codes "\\") ≡ false
unfolding has_suffix
no_continuation s h = has_prefix-Ordinary (reverse s) (All-reverse Ordinary s h)

one_line : (s : Bytes) → All Ordinary s → Lacks b'\n' s
one_line [] h = tt
one_line (c ∷ s) h = (h.0.0, one_line s (h.1))

pub logical_lines-Ordinary :
    (s rest : Bytes)
    → All Ordinary s
    → logical_lines (s ++ b'\n' ∷ rest)
      ≡ record { raw = s; newline = codes "\n" } ∷ logical_lines rest
logical_lines-Ordinary s rest h = logical_lines-line s rest (one_line s h) (no_continuation s h)

Ordinary-IsSafe : (s : Bytes) → All IsSafe s → All Ordinary s
Ordinary-IsSafe [] h = tt
Ordinary-IsSafe (c ∷ s) h = ((h.0.no_newline, h.0.no_backslash), Ordinary-IsSafe s (h.1))

Ordinary-IsIndent : (s : Bytes) → IsIndent s → All Ordinary s
Ordinary-IsIndent [] h = tt
Ordinary-IsIndent (c ∷ s) h =
    ((not_newline c (h.0), not_backslash c (h.0)), Ordinary-IsIndent s (h.1))
  where
    not_newline : (b : ℕ) → is_blank b ≡ true → (b == b'\n') ≡ false
    not_newline b e = ground arith

    not_backslash : (b : ℕ) → is_blank b ≡ true → (b == b'\\') ≡ false
    not_backslash b e = ground arith

abbrev pub line_text : Bytes → Bytes → List Bytes → Bytes
line_text i name args = i ++ words_text name args

pub line_text-Ordinary :
    (i name : Bytes) (args : List Bytes)
    → IsIndent i
    → IsWord name
    → All IsWord args
    → All Ordinary (line_text i name args)
line_text-Ordinary i name args h n a =
    All-append Ordinary i (words_text name args) (Ordinary-IsIndent i h) (
      Ordinary-IsSafe (words_text name args) (words_text-IsSafe name args (IsWord-IsSafe name n) a))

pub open_text-Ordinary :
    (i name : Bytes) (args : List Bytes)
    → IsIndent i
    → IsWord name
    → All IsWord args
    → All Ordinary (i ++ open_text name args)
open_text-Ordinary i name args h n a =
    All-append Ordinary i (open_text name args) (Ordinary-IsIndent i h) (
      (refl, refl),
      All-append Ordinary (words_text name args) (b'>' ∷ [])
          (Ordinary-IsSafe (words_text name args)
            (words_text-IsSafe name args (IsWord-IsSafe name n) a))
          ((refl, refl), tt),
    )

pub close_text-Ordinary :
    (i name : Bytes) → IsIndent i → IsWord name → All Ordinary (i ++ close_text name)
close_text-Ordinary i name h n = All-append Ordinary i (close_text name) (Ordinary-IsIndent i h) (
  (refl, refl),
  (
    (refl, refl),
    All-append Ordinary name (b'>' ∷ []) (Ordinary-IsSafe name (IsWord-IsSafe name n))
        ((refl, refl), tt),
  ),
)
