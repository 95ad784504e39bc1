-- ===== src/Apache/Parser/RoundTrip.antt =====
-- A printed configuration is read back: `String` and `Parse` of
-- internal/plugins/apache/parser/parser.go.
use go_certbot.Prelude.{
  ℕ, zero, suc, ◌<◌, ◌≡◌, refl, ap, ◌∙◌, false, List, [], ◌∷◌, ◌++◌, Bytes, codes, length, All,
  Result, ok, append_assoc, append-nil, arith,
}
use go_certbot.Apache.Ast.{
  SectionHead, Nodes, directive, section, comment, nil, cons, emit_args, emit, to_string,
}
use go_certbot.Apache.Lines.Whole.{logical_lines-line}
use go_certbot.Apache.Lines.{LogicalLine, logical_lines}
use go_certbot.Apache.Words.Plain.{
  IsWord, IsIndent, words_text, leading_whitespace-indent, trim_left_blanks-indent,
}
use go_certbot.Apache.Words.{leading_whitespace}
use go_certbot.Apache.Parser.Tags.{
  open_text, close_text, parse_directive-words, parse_open_tag-words, parse_close_tag-name,
}
use go_certbot.Apache.Parser.Printed.{
  logical_lines-Ordinary, line_text, line_text-Ordinary, open_text-Ordinary, close_text-Ordinary,
}
use go_certbot.Apache.Parser.Total.{Leaves, parse_body-Leaves}
use go_certbot.Apache.Parser.{
  Error, line_kind, remark, closing, opening, plain, parse_section, add_node, then_nodes,
  parse_body, config_of, parse, Lines,
}
use go_certbot.Golib.Strings.Index.{Lacks, trim_left_blanks}
use go_certbot.Golib.Strings.Laws.{equal_refl}
use go_certbot.Golib.Strings.{has_suffix, trim_space, to_lower}

-- Configurations of directives and section tags of plain words, without quotes, with single blanks
-- between them, indented by blanks, with no comment behind them, and of lines that are blank or
-- comments; a line for each, which ends in a newline.
pub data Canonical : Nodes → Type 0 where
  none_left : Canonical nil
  line :
      (i name : Bytes) (args : List Bytes) (ns : Nodes)
      → IsIndent i
      → IsWord name
      → All IsWord args
      → line_kind (line_text i name args) ≡ plain
      → Canonical ns
      → Canonical (
          cons
            (directive (record {
              indent = i;
              name = name;
              args = args;
              trailing_comment = [];
              newline = codes "\n";
            }))
            ns)
  verbatim :
      (s : Bytes) (ns : Nodes)
      → Lacks b'\n' s
      → has_suffix s (codes "\\") ≡ false
      → line_kind s ≡ remark
      → Canonical ns
      → Canonical (cons (comment (record { verbatim = s; newline = codes "\n" })) ns)
  block :
      (i j name : Bytes) (args : List Bytes) (body ns : Nodes)
      → IsIndent i
      → IsIndent j
      → IsWord name
      → All IsWord args
      → trim_space name ≡ name
      → line_kind (i ++ open_text name args) ≡ opening
      → line_kind (j ++ close_text name) ≡ closing
      → Canonical body
      → Canonical ns
      → Canonical (
          cons
            (section
              (record {
                open_indent = i;
                name = name;
                args = args;
                open_trailing = [];
                open_newline = codes "\n";
                close_indent = j;
                close_trailing = [];
                close_newline = codes "\n";
              })
              body)
            ns)

leading_whitespace-word :
    (i w t : Bytes) → IsIndent i → IsWord w → leading_whitespace (i ++ (w ++ t)) ≡ i
leading_whitespace-word i [] t h n = absurd n
leading_whitespace-word i (c ∷ w) t h n = leading_whitespace-indent i c (w ++ t) h (n.0.1)

trim_left_blanks-word :
    (i w t : Bytes) → IsIndent i → IsWord w → trim_left_blanks (i ++ (w ++ t)) ≡ w ++ t
trim_left_blanks-word i [] t h n = absurd n
trim_left_blanks-word i (c ∷ w) t h n = trim_left_blanks-indent i c (w ++ t) h (n.0.1)

abbrev whole : Bytes → LogicalLine
whole s = record { raw = s; newline = codes "\n" }

-- A body ends at these lines.
abbrev EndsAt : Bytes → Lines → Type 0
EndsAt tag ls = (fuel : ℕ) → parse_body (suc fuel) tag ls ≡ ok (nil, ls)

-- One round of the loop.
module _ (fuel : ℕ) (tag : Bytes) (rest : Lines) where
  parse_body-remark :
      (s : Bytes)
      → line_kind s ≡ remark
      → parse_body (suc fuel) tag (whole s ∷ rest)
        ≡ add_node
            (comment (record { verbatim = s; newline = codes "\n" }))
            (parse_body fuel tag rest)
  unfolding parse_body
  parse_body-remark s e = rw e refl

  parse_body-plain :
      (i name : Bytes) (args : List Bytes)
      → IsIndent i
      → IsWord name
      → All IsWord args
      → line_kind (line_text i name args) ≡ plain
      → parse_body (suc fuel) tag (whole (line_text i name args) ∷ rest)
        ≡ add_node
            (directive (record {
              indent = i;
              name = name;
              args = args;
              trailing_comment = [];
              newline = codes "\n";
            }))
            (parse_body fuel tag rest)
  unfolding parse_body
  parse_body-plain i name args h n a e =
      rw
        (
          e,
          leading_whitespace-word i name (emit_args args) h n,
          trim_left_blanks-word i name (emit_args args) h n,
          parse_directive-words name args n a i (codes "\n"),
        )
        refl

  parse_body-opening :
      (i name : Bytes) (args : List Bytes)
      → line_kind (i ++ open_text name args) ≡ opening
      → parse_body (suc fuel) tag (whole (i ++ open_text name args) ∷ rest)
        ≡ then_nodes
            (parse_section (parse_body fuel) (whole (i ++ open_text name args)) rest)
            (parse_body fuel tag)
  unfolding parse_body
  parse_body-opening i name args e = rw e refl

-- The tag that closes a section.
EndsAt-close :
    (j name : Bytes) (rest : Lines)
    → IsIndent j
    → IsWord name
    → trim_space name ≡ name
    → line_kind (j ++ close_text name) ≡ closing
    → EndsAt name (whole (j ++ close_text name) ∷ rest)
unfolding parse_body
EndsAt-close j [] rest h n t e fuel = absurd n
EndsAt-close j (c ∷ name) rest h n t e fuel =
    rw
      (
        e,
        trim_left_blanks-indent j b'<' (b'/' ∷ ((c ∷ name) ++ b'>' ∷ [])) h refl,
        parse_close_tag-name (c ∷ name) n t,
      )
      (rw (equal_refl (to_lower (c ∷ name))) refl)

EndsAt-end : EndsAt [] []
unfolding parse_body
EndsAt-end fuel = refl

abbrev block_head : Bytes → Bytes → Bytes → List Bytes → SectionHead
block_head i j name args = record {
  open_indent = i;
  name = name;
  args = args;
  open_trailing = [];
  open_newline = codes "\n";
  close_indent = j;
  close_trailing = [];
  close_newline = codes "\n";
}

parse_section-block :
    (inner : Bytes → Lines → Result Error (Nodes × Lines)) (i j name : Bytes) (args : List Bytes)
    (body : Nodes) (rest behind : Lines)
    → IsIndent i
    → IsIndent j
    → IsWord name
    → All IsWord args
    → trim_space name ≡ name
    → inner name rest ≡ ok (body, whole (j ++ close_text name) ∷ behind)
    → parse_section inner (whole (i ++ open_text name args)) rest
      ≡ ok (section (block_head i j name args) body, behind)
unfolding parse_section
parse_section-block inner i j name args body rest behind h k n a t e =
    rw
      (
        leading_whitespace-indent i b'<' (words_text name args ++ b'>' ∷ []) h refl,
        trim_left_blanks-indent i b'<' (words_text name args ++ b'>' ∷ []) h refl,
        parse_open_tag-words name args n a i (codes "\n"),
      )
      (rw e (
        rw
          (
            trim_left_blanks-indent j b'<' (b'/' ∷ (name ++ b'>' ∷ [])) k refl,
            parse_close_tag-name name n t,
            leading_whitespace-indent j b'<' (b'/' ∷ (name ++ b'>' ∷ [])) k refl,
          )
          refl))

line_cut :
    (a b c n r : Bytes)
    → ((a ++ (b ++ (c ++ b'\n' ∷ []))) ++ n) ++ r ≡ (a ++ (b ++ c)) ++ b'\n' ∷ (n ++ r)
line_cut a b c n r = simp append_assoc

verbatim_cut : (s n r : Bytes) → ((s ++ b'\n' ∷ []) ++ n) ++ r ≡ s ++ b'\n' ∷ (n ++ r)
verbatim_cut s n r = simp append_assoc

-- The lines of a block, down to what is behind it.
block_cut :
    (i name args body j n r : Bytes)
    → ((i ++ (b'<' ∷ (name ++ (args ++ (b'>' ∷ b'\n' ∷ [])))))
          ++ (body ++ (j ++ (b'<' ∷ b'/' ∷ (name ++ (b'>' ∷ b'\n' ∷ [])))))
          ++ n)
        ++ r
      ≡ (i ++ b'<' ∷ ((name ++ args) ++ b'>' ∷ []))
        ++ b'\n' ∷ (body ++ ((j ++ b'<' ∷ b'/' ∷ (name ++ b'>' ∷ [])) ++ b'\n' ∷ (n ++ r)))
block_cut i name args body j n r = simp append_assoc

-- The text `text` starts with the line `s`, and is read by one round and what follows.
round :
    (fuel : ℕ) (tag text s more : Bytes) (r : Result Error (Nodes × Lines))
    → text ≡ s ++ b'\n' ∷ more
    → logical_lines (s ++ b'\n' ∷ more) ≡ whole s ∷ logical_lines more
    → length (logical_lines text) < suc fuel
    → (length (logical_lines more) < fuel
        → parse_body (suc fuel) tag (whole s ∷ logical_lines more) ≡ r)
    → parse_body (suc fuel) tag (logical_lines text) ≡ r
round fuel tag text s more r e l le k =
    ap (λ t. parse_body (suc fuel) tag (logical_lines t)) e
    ∙ ap (parse_body (suc fuel) tag) l
    ∙ k (omega (arith, le, ap (λ t. length (logical_lines t)) e, ap (λ (t : Lines). length t) l))

-- What a body leaves is no longer than what it was given.
left_shorter :
    (fuel : ℕ) (tag : Bytes) (ls : Lines) (body : Nodes) (l : LogicalLine) (behind : Lines)
    → length ls < fuel
    → parse_body fuel tag ls ≡ ok (body, l ∷ behind)
    → length behind < fuel
left_shorter fuel tag ls body l behind lt e = omega (
  arith,
  leaves_of (length ls) _ (ok (body, l ∷ behind)) e (parse_body-Leaves fuel tag ls lt),
  lt,
)
  where
    leaves_of : (n : ℕ) (r q : Result Error (Nodes × Lines)) → r ≡ q → Leaves n r → Leaves n q
    leaves_of n r q d h = rw (← d) h

parse_body-to_string :
    (ns : Nodes)
    → Canonical ns
    → (tag rest : Bytes) (fuel : ℕ) → EndsAt tag (logical_lines rest)
    → length (logical_lines (to_string ns ++ rest)) < fuel
    → parse_body fuel tag (logical_lines (to_string ns ++ rest)) ≡ ok (ns, logical_lines rest)
unfolding emit
parse_body-to_string ns c tag rest zero ends le = absurd (omega (arith, le))
parse_body-to_string _ none_left tag rest (suc fuel) ends le = ends fuel
parse_body-to_string _ (line i name args ns h n a e c) tag rest (suc fuel) ends le =
    round fuel tag _ (line_text i name args) (to_string ns ++ rest) _
      (line_cut i name (emit_args args) (to_string ns) rest)
      (logical_lines-Ordinary (line_text i name args) (to_string ns ++ rest)
        (line_text-Ordinary i name args h n a))
      le
      (λ lt.
        parse_body-plain fuel tag (logical_lines (to_string ns ++ rest)) i name args h n a e
        ∙ ap (add_node _) (parse_body-to_string ns c tag rest fuel ends lt))
parse_body-to_string _ (verbatim s ns h b e c) tag rest (suc fuel) ends le =
    round fuel tag _ s (to_string ns ++ rest) _ (verbatim_cut s (to_string ns) rest)
      (logical_lines-line s (to_string ns ++ rest) h b) le
      (λ lt.
        parse_body-remark fuel tag (logical_lines (to_string ns ++ rest)) s e
        ∙ ap (add_node _) (parse_body-to_string ns c tag rest fuel ends lt))
parse_body-to_string _ (block i j name args body ns h k n a t e f c d) tag rest (suc fuel) ends le =
    let behind = to_string ns ++ rest in
    let closed = (j ++ close_text name) ++ b'\n' ∷ behind in
    let closed_lines =
      logical_lines-Ordinary (j ++ close_text name) behind (close_text-Ordinary j name k n) in
    round fuel tag _ (i ++ open_text name args) (to_string body ++ closed) _
      (block_cut i name (emit_args args) (to_string body) j (to_string ns) rest)
      (logical_lines-Ordinary (i ++ open_text name args) (to_string body ++ closed)
        (open_text-Ordinary i name args h n a))
      le
      (λ lt.
        let inner =
          parse_body-to_string body c name closed fuel
            (rw closed_lines (EndsAt-close j name (logical_lines behind) k n t f)) lt
          ∙ ap (λ ls. ok (body, ls)) closed_lines in
        parse_body-opening fuel tag (logical_lines (to_string body ++ closed)) i name args e
        ∙ ap (λ r. then_nodes r (parse_body fuel tag))
            (parse_section-block (parse_body fuel) i j name args body
              (logical_lines (to_string body ++ closed)) (logical_lines behind) h k n a t inner)
        ∙ ap (add_node _) (
            parse_body-to_string ns d tag rest fuel ends
              (left_shorter fuel name _ body _ (logical_lines behind) lt inner)))

-- Take a configuration of directives, of sections at any depth, and of comments and blank lines.
-- Let each line end in a newline, the words of directives and tags be plain (not empty, with no
-- blank, double quote, backslash, newline, `#` or `>` in them, and the name of a section with no
-- other space at its ends), stand behind one another with single blanks and be indented by blanks,
-- and no comment stand behind a directive or a tag. Let a comment end in no backslash, and let each
-- line be of its own kind, so that no name of a directive starts a tag. Then `Parse` reads the
-- configuration back from what `String` prints of it, exactly as it was.
pub parse-to_string : (ns : Nodes) → Canonical ns → parse (to_string ns) ≡ ok ns
unfolding parse
parse-to_string ns c =
    let whole_text =
      parse_body-to_string ns c [] [] (suc (length (logical_lines (to_string ns ++ [])))) EndsAt-end
        (omega arith) in
    ap config_of (rw (append-nil (to_string ns)) at whole_text)
