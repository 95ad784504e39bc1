-- ===== src/Apache/Words/Plain.antt =====
-- Arguments with no quotes, in `splitArgs`, `findUnquotedGT` and `findUnquotedHash` of
-- internal/plugins/apache/parser/parser.go.
use go_certbot.Prelude.{
  ℕ, zero, suc, ◌≤◌, ◌≡◌, refl, ap, sym, ◌∙◌, true, false, List, [], ◌∷◌, ◌++◌, none, some, Bytes,
  length, ◌==◌, All, arith, length-append, All-append,
}
use go_certbot.Apache.Ast.{emit_args}
use go_certbot.Apache.Words.Enough.{split_args_enough}
use go_certbot.Apache.Words.{
  bare, word, split_word, split_from, split_args, find_unquoted, leading_whitespace,
}
use go_certbot.Golib.Strings.Index.{later, is_blank, trim_left_blanks}

-- A byte that neither quotes nor ends a comment or a tag nor starts one.
pub record IsSafe (c : ℕ) : Type 0 where
  pub no_backslash : (c == b'\\') ≡ false
  pub no_quote : (c == b'"') ≡ false
  pub no_hash : (c == b'#') ≡ false
  pub no_close : (c == b'>') ≡ false
  pub no_newline : (c == b'\n') ≡ false

abbrev pub IsPlain : ℕ → Type 0
IsPlain c = IsSafe c × (is_blank c ≡ false)

abbrev pub IsWord : Bytes → Type 0
IsWord [] = ⊥
IsWord (c ∷ s) = All IsPlain (c ∷ s)

abbrev pub words_text : Bytes → List Bytes → Bytes
words_text name args = name ++ emit_args args

bare-args :
    (s : Bytes) (args : List Bytes)
    → All IsPlain s
    → bare (s ++ emit_args args) ≡ (s, emit_args args)
unfolding bare
bare-args [] [] h = refl
bare-args [] (a ∷ args) h = refl
bare-args (c ∷ s) args h = rw (h.0.1, bare-args s args (h.1)) refl

word-args :
    (c : ℕ) (s : Bytes) (args : List Bytes)
    → All IsPlain (c ∷ s)
    → word c (s ++ emit_args args) ≡ (c ∷ s, emit_args args)
unfolding word
word-args c s args h = rw (h.0.0.no_quote, bare-args s args (h.1)) refl

trim_left_blanks-word : (w t : Bytes) → IsWord w → trim_left_blanks (w ++ t) ≡ w ++ t
unfolding trim_left_blanks
trim_left_blanks-word [] t h = absurd h
trim_left_blanks-word (c ∷ s) t h = rw (h.0.1) refl

split_word-words :
    (more : Bytes → List Bytes) (w : Bytes) (args : List Bytes)
    → IsWord w
    → split_word more (words_text w args) ≡ w ∷ more (emit_args args)
unfolding split_word
split_word-words more [] args h = absurd h
split_word-words more (c ∷ s) args h = rw (word-args c s args h) refl

split_from-args :
    (fuel : ℕ) (args : List Bytes)
    → length (emit_args args) ≤ fuel
    → All IsWord args
    → split_from fuel (emit_args args) ≡ args
unfolding split_from trim_left_blanks
split_from-args zero [] le h = refl
split_from-args zero (a ∷ args) le h = absurd (omega (arith, le))
split_from-args (suc fuel) [] le h = unfold split_word in refl
split_from-args (suc fuel) (a ∷ args) le h =
    ap (split_word (split_from fuel)) (trim_left_blanks-word a (emit_args args) (h.0))
    ∙ split_word-words (split_from fuel) a args (h.0)
    ∙ ap (λ ws. a ∷ ws)
        (split_from-args fuel args (omega (arith, le, length-append a (emit_args args))) (h.1))

-- A name and its arguments come apart again.
pub split_args-words :
    (w : Bytes) (args : List Bytes)
    → IsWord w
    → All IsWord args
    → split_args (words_text w args) ≡ w ∷ args
unfolding split_from
split_args-words w args h k =
    sym (split_args_enough (suc (length (words_text w args))) (words_text w args) (omega arith))
    ∙ ap (split_word (split_from (length (words_text w args))))
        (trim_left_blanks-word w (emit_args args) h)
    ∙ split_word-words (split_from (length (words_text w args))) w args h
    ∙ ap (λ ws. w ∷ ws)
        (split_from-args (length (words_text w args)) args
          (omega (arith, length-append w (emit_args args))) k)

IsSafe-blank : IsSafe b' '
IsSafe-blank = record {
  no_backslash = refl;
  no_quote = refl;
  no_hash = refl;
  no_close = refl;
  no_newline = refl;
}

pub All-IsSafe : (s : Bytes) → All IsPlain s → All IsSafe s
All-IsSafe [] h = tt
All-IsSafe (c ∷ s) h = (h.0.0, All-IsSafe s (h.1))

pub IsWord-IsSafe : (w : Bytes) → IsWord w → All IsSafe w
IsWord-IsSafe [] h = absurd h
IsWord-IsSafe (c ∷ s) h = All-IsSafe (c ∷ s) h

pub words_text-IsSafe :
    (w : Bytes) (args : List Bytes)
    → All IsSafe w
    → All IsWord args
    → All IsSafe (words_text w args)
words_text-IsSafe w [] h k = All-append IsSafe w [] h tt
words_text-IsSafe w (a ∷ args) h k =
    All-append IsSafe w (emit_args (a ∷ args)) h
      (IsSafe-blank, words_text-IsSafe a args (IsWord-IsSafe a (k.0)) (k.1))

pub find_unquoted-IsSafe : (s : Bytes) → All IsSafe s → find_unquoted b'#' false s ≡ none
unfolding find_unquoted
find_unquoted-IsSafe [] h = refl
find_unquoted-IsSafe (c ∷ []) h = rw (h.0.no_backslash, h.0.no_quote, h.0.no_hash) refl
find_unquoted-IsSafe (c ∷ d ∷ s) h =
    rw (h.0.no_backslash, h.0.no_quote, h.0.no_hash) (ap later (find_unquoted-IsSafe (d ∷ s) (h.1)))

pub find_unquoted-append :
    (s : Bytes) → All IsSafe s → find_unquoted b'>' false (s ++ b'>' ∷ []) ≡ some (length s)
unfolding find_unquoted
find_unquoted-append [] h = refl
find_unquoted-append (c ∷ []) h = rw (h.0.no_backslash, h.0.no_quote, h.0.no_close) refl
find_unquoted-append (c ∷ d ∷ s) h =
    rw (h.0.no_backslash, h.0.no_quote, h.0.no_close)
      (ap later (find_unquoted-append (d ∷ s) (h.1)))

abbrev pub IsIndent : Bytes → Type 0
IsIndent = All (λ c. is_blank c ≡ true)

-- The indent comes apart from a text that starts with no blank.
pub leading_whitespace-indent :
    (i : Bytes) (c : ℕ) (s : Bytes)
    → IsIndent i
    → is_blank c ≡ false
    → leading_whitespace (i ++ c ∷ s) ≡ i
unfolding leading_whitespace
leading_whitespace-indent [] c s h e = rw e refl
leading_whitespace-indent (b ∷ i) c s h e = rw (h.0, leading_whitespace-indent i c s (h.1) e) refl

pub trim_left_blanks-indent :
    (i : Bytes) (c : ℕ) (s : Bytes)
    → IsIndent i
    → is_blank c ≡ false
    → trim_left_blanks (i ++ c ∷ s) ≡ c ∷ s
unfolding trim_left_blanks
trim_left_blanks-indent [] c s h e = rw e refl
trim_left_blanks-indent (b ∷ i) c s h e = rw (h.0) (trim_left_blanks-indent i c s (h.1) e)
