-- ===== src/Apache/Parser/Tags.antt =====
-- What `parseDirective`, `parseSection` and `parseCloseTag` of
-- internal/plugins/apache/parser/parser.go read from a line of plain words.
use go_certbot.Prelude.{
  ℕ, suc, ◌+◌, ◌≡◌, refl, ap, ◌∙◌, false, List, [], ◌∷◌, ◌++◌, Bytes, length, take, drop, All, ok,
  arith,
}
use go_certbot.Apache.Words.Plain.{
  IsSafe, IsWord, IsWord-IsSafe, words_text, split_args-words, words_text-IsSafe,
  find_unquoted-IsSafe, find_unquoted-append,
}
use go_certbot.Apache.Parser.{
  is_nil, close_at, behind_tag, parse_close_tag, directive_of, parse_directive, head_of, opened,
  opened_at, parse_open_tag,
}
use go_certbot.Golib.Strings.Index.{index_byte, index_byte-append, Lacks}
use go_certbot.Golib.Strings.Laws.{take-append, drop-append_suc}
use go_certbot.Golib.Strings.{trim_space}

-- `<name args>`
abbrev pub open_text : Bytes → List Bytes → Bytes
open_text name args = b'<' ∷ (words_text name args ++ b'>' ∷ [])

plus_one : (m : ℕ) → m + 1 ≡ suc m
plus_one m = omega arith

module _ (name : Bytes) (args : List Bytes) (n : IsWord name) (a : All IsWord args) where
  safe : All IsSafe (words_text name args)
  safe = words_text-IsSafe name args (IsWord-IsSafe name n) a

  pub parse_directive-words :
      (indent newline : Bytes)
      → parse_directive indent (words_text name args) newline
        ≡ ok (record {
          indent = indent;
          name = name;
          args = args;
          trailing_comment = [];
          newline = newline;
        })
  unfolding parse_directive
  parse_directive-words indent newline =
      rw (find_unquoted-IsSafe (words_text name args) safe)
        (ap (directive_of indent [] newline) (split_args-words name args n a))

  IsSafe-open : IsSafe b'<'
  IsSafe-open = record {
    no_backslash = refl;
    no_quote = refl;
    no_hash = refl;
    no_close = refl;
    no_newline = refl;
  }

  pub parse_open_tag-words :
      (indent newline : Bytes)
      → parse_open_tag indent (open_text name args) newline
        ≡ ok (record {
          open_indent = indent;
          name = name;
          args = args;
          open_trailing = [];
          open_newline = newline;
          close_indent = [];
          close_trailing = [];
          close_newline = [];
        })
  unfolding parse_open_tag
  parse_open_tag-words indent newline =
      ap (opened_at indent (open_text name args) newline)
        (find_unquoted-append (b'<' ∷ words_text name args) (IsSafe-open, safe))
      ∙ ap
          (λ i.
            opened indent newline i
              (drop (suc (length (words_text name args)) + 1) (open_text name args)))
          inside
      ∙ ap (opened indent newline (words_text name args)) nothing_behind
      ∙ (unfold index_byte trim_space in
          ap (head_of indent [] newline) (split_args-words name args n a))
    where
      nothing_behind : drop (suc (length (words_text name args)) + 1) (open_text name args) ≡ []
      nothing_behind =
          ap (λ m. drop m (open_text name args)) (plus_one (suc (length (words_text name args))))
          ∙ drop-append_suc (words_text name args) b'>' []

      inside :
          take (length (words_text name args)) (words_text name args ++ b'>' ∷ [])
          ≡ words_text name args
      inside = take-append (words_text name args) (b'>' ∷ [])

-- `</name>`
abbrev pub close_text : Bytes → Bytes
close_text name = b'<' ∷ b'/' ∷ (name ++ b'>' ∷ [])

Lacks-IsSafe : (s : Bytes) → All IsSafe s → Lacks b'>' s
Lacks-IsSafe [] h = tt
Lacks-IsSafe (c ∷ s) h = (h.0.no_close, Lacks-IsSafe s (h.1))

is_nil-IsWord : (w : Bytes) → IsWord w → is_nil w ≡ false
is_nil-IsWord [] h = absurd h
is_nil-IsWord (c ∷ s) h = refl

pub parse_close_tag-name :
    (name : Bytes)
    → IsWord name
    → trim_space name ≡ name
    → parse_close_tag (close_text name) ≡ ok (name, [])
unfolding parse_close_tag
parse_close_tag-name name n t =
    ap (close_at (close_text name)) (
      index_byte-append b'>' (b'<' ∷ b'/' ∷ name) []
        (refl, (refl, Lacks-IsSafe name (IsWord-IsSafe name n))))
    ∙ rw (take-append name (b'>' ∷ []), t, is_nil-IsWord name n)
        (ap (λ r. behind_tag name r (index_byte b'#' r)) nothing_behind
          ∙ unfold index_byte trim_space in refl)
  where
    nothing_behind : drop (suc (suc (length name)) + 1) (close_text name) ≡ []
    nothing_behind =
        ap (λ m. drop m (close_text name)) (plus_one (suc (suc (length name))))
        ∙ drop-append_suc name b'>' []
