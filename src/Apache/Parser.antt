-- ===== src/Apache/Parser.antt =====
-- `Parse`, `parseBody`, `parseSection`, `parseCloseTag` and `parseDirective` of
-- internal/plugins/apache/parser/parser.go. The state is the lines that are left. The recursion is on
-- fuel: one unit for each line, and one for the end.
pub mod Total
pub mod Tags
pub mod Printed
pub mod RoundTrip
use go_certbot.Prelude.{
  ℕ, zero, suc, ◌+◌, ◌≡◌, refl, Bool, true, false, not, ◌&&◌, List, [], ◌∷◌, ◌++◌, Option, none,
  some, Bytes, codes, length, take, drop, Result, ok, err, if◌then◌else◌,
}
use go_certbot.Apache.Ast.{
  Directive, SectionHead, CommentLine, Node, Nodes, directive, section, comment, nil, cons,
}
use go_certbot.Apache.Lines.{LogicalLine, logical_lines}
use go_certbot.Apache.Words.{split_args, find_unquoted, leading_whitespace}
use go_certbot.Golib.Strings.Index.{index_byte, trim_left_blanks, trim_right_blanks}
use go_certbot.Golib.Strings.{equal, has_prefix, trim_space, to_lower}

pub data Error : Type 0 where
  unterminated_close empty_close text_after_close : Error
  unmatched_close unexpected_close missing_close : Error
  unterminated_open text_after_open empty_open empty_directive out_of_fuel : Error

abbrev pub is_nil : Bytes → Bool
is_nil [] = true
is_nil (c ∷ s) = false

-- The text before a `#`, and the comment from it on.
abbrev pub at_hash : Bytes → Option ℕ → Bytes × Bytes
at_hash s none = (s, [])
at_hash s (some i) = (take i s, drop i s)

abbrev pub CloseTag : Type 0
CloseTag = Bytes × Bytes

-- A comment behind the tag hides any text before it.
abbrev pub behind_tag : Bytes → Bytes → Option ℕ → Result Error CloseTag
behind_tag tag rest (some i) = ok (tag, drop i rest)
behind_tag tag rest none = if is_nil (trim_space rest) then ok (tag, []) else err text_after_close

abbrev pub close_at : Bytes → Option ℕ → Result Error CloseTag
close_at s none = err unterminated_close
close_at s (some end) =
    if is_nil (trim_space (drop 2 (take end s)))
    then err empty_close
    else behind_tag (trim_space (drop 2 (take end s))) (drop (end + 1) s)
        (index_byte b'#' (drop (end + 1) s))

-- For a text that starts with `</`.
unfoldable pub parse_close_tag : Bytes → Result Error CloseTag
unfolding index_byte trim_space
parse_close_tag s = close_at s (index_byte b'>' s)

abbrev pub directive_of : Bytes → Bytes → Bytes → List Bytes → Result Error Directive
directive_of indent trailing newline [] = err empty_directive
directive_of indent trailing newline (name ∷ args) = ok (record {
  indent = indent;
  name = name;
  args = args;
  trailing_comment = trailing;
  newline = newline;
})

-- The blanks before a comment go to the comment: `body` is what is before them.
abbrev pub directive_at : Bytes → Bytes → Bytes → Option ℕ → Result Error Directive
directive_at indent content newline none = directive_of indent [] newline (split_args content)
directive_at indent content newline (some i) =
    let body = trim_right_blanks (take i content) in
    directive_of indent (drop (length body) content) newline (split_args body)

unfoldable pub parse_directive : Bytes → Bytes → Bytes → Result Error Directive
unfolding split_args find_unquoted trim_right_blanks
parse_directive indent content newline =
    directive_at indent content newline (find_unquoted b'#' false content)

abbrev pub head_of : Bytes → Bytes → Bytes → List Bytes → Result Error SectionHead
head_of indent trailing newline [] = err empty_open
head_of indent trailing newline (name ∷ args) = ok (record {
  open_indent = indent;
  name = name;
  args = args;
  open_trailing = trailing;
  open_newline = newline;
  close_indent = [];
  close_trailing = [];
  close_newline = [];
})

abbrev pub opener : Bytes → Bytes → Bytes → Bytes × Bytes → Result Error SectionHead
opener indent newline inner (before, trailing) =
    if is_nil (trim_space before)
    then head_of indent trailing newline (split_args inner)
    else err text_after_open

-- The text between the brackets, and what is behind them.
abbrev pub opened : Bytes → Bytes → Bytes → Bytes → Result Error SectionHead
opened indent newline inner rest = opener indent newline inner (at_hash rest (index_byte b'#' rest))

abbrev pub opened_at : Bytes → Bytes → Bytes → Option ℕ → Result Error SectionHead
opened_at indent content newline none = err unterminated_open
opened_at indent content newline (some end) =
    opened indent newline (drop 1 (take end content)) (drop (end + 1) content)

-- The first part of `parseSection`, for a text that starts with `<`.
unfoldable pub parse_open_tag : Bytes → Bytes → Bytes → Result Error SectionHead
unfolding find_unquoted index_byte trim_space split_args
parse_open_tag indent content newline =
    opened_at indent content newline (find_unquoted b'>' false content)

abbrev pub Lines : Type 0
Lines = List LogicalLine

-- A result with the lines that are left.
abbrev pub P : Type 0 → Type 0
P A = Lines → Result Error (A × Lines)

abbrev pub closed_by :
    SectionHead → Nodes → LogicalLine → Lines → Result Error CloseTag → Result Error (Node × Lines)
closed_by s body close rest (err e) = err e
closed_by s body close rest (ok (tag, trailing)) = ok (
  section
      (record s {
        close_indent = leading_whitespace close.raw;
        close_trailing = trailing;
        close_newline = close.newline;
      })
      body,
  rest,
)

-- The last part of `parseSection`, behind the body.
abbrev pub close_section : SectionHead → Result Error (Nodes × Lines) → Result Error (Node × Lines)
close_section s (err e) = err e
close_section s (ok (body, [])) = err missing_close
close_section s (ok (body, close ∷ rest)) =
    closed_by s body close rest (parse_close_tag (trim_left_blanks close.raw))

abbrev pub with_body :
    (Bytes → P Nodes) → Lines → Result Error SectionHead → Result Error (Node × Lines)
with_body inner rest (err e) = err e
with_body inner rest (ok s) = close_section s (inner s.name rest)

-- `inner` reads the body up to the tag that closes it.
unfoldable pub parse_section : (Bytes → P Nodes) → LogicalLine → P Node
unfolding parse_open_tag parse_close_tag leading_whitespace trim_left_blanks
parse_section inner l rest =
    with_body inner rest
      (parse_open_tag (leading_whitespace l.raw) (trim_left_blanks l.raw) l.newline)

abbrev pub add_node : Node → Result Error (Nodes × Lines) → Result Error (Nodes × Lines)
add_node n (err e) = err e
add_node n (ok (ns, rest)) = ok (cons n ns, rest)

abbrev pub then_nodes : Result Error (Node × Lines) → P Nodes → Result Error (Nodes × Lines)
then_nodes (err e) more = err e
then_nodes (ok (n, rest)) more = add_node n (more rest)

abbrev pub as_node : Lines → Result Error Directive → Result Error (Node × Lines)
as_node rest (err e) = err e
as_node rest (ok d) = ok (directive d, rest)

-- A tag that closes the section stays for `parseSection`. `strings.EqualFold` is on ASCII.
abbrev pub stop_at : Bytes → Lines → Result Error CloseTag → Result Error (Nodes × Lines)
stop_at close_tag ls (err e) = err e
stop_at close_tag ls (ok (tag, trailing)) =
    if is_nil close_tag
    then err unmatched_close
    else if equal (to_lower tag) (to_lower close_tag)
    then ok (nil, ls)
    else err unexpected_close

-- The branches of the loop of `parseBody`.
pub data LineKind : Type 0 where
  remark closing opening plain : LineKind

unfoldable pub line_kind : Bytes → LineKind
unfolding trim_space trim_left_blanks has_prefix
line_kind raw =
    if is_nil (trim_space raw)
    then remark
    else if has_prefix (trim_left_blanks raw) (codes "#")
    then remark
    else if has_prefix (trim_left_blanks raw) (codes "</")
    then closing
    else if has_prefix (trim_left_blanks raw) (codes "<")
    then opening
    else plain

abbrev pub kind_on : {A : Type 0} → LineKind → A → A → A → A → A
kind_on remark on_remark on_closing on_opening on_plain = on_remark
kind_on closing on_remark on_closing on_opening on_plain = on_closing
kind_on opening on_remark on_closing on_opening on_plain = on_opening
kind_on plain on_remark on_closing on_opening on_plain = on_plain

abbrev pub end_of_lines : Bytes → Result Error (Nodes × Lines)
end_of_lines [] = ok (nil, [])
end_of_lines (c ∷ tag) = err missing_close

-- An empty `close_tag` is the top of the file.
unfoldable pub parse_body : ℕ → Bytes → P Nodes
unfolding line_kind parse_close_tag parse_section parse_directive leading_whitespace
    trim_left_blanks equal to_lower
parse_body zero close_tag ls = err out_of_fuel
parse_body (suc fuel) close_tag [] = end_of_lines close_tag
parse_body (suc fuel) close_tag (l ∷ rest) =
    kind_on (line_kind l.raw)
      (add_node (comment (record { verbatim = l.raw; newline = l.newline }))
        (parse_body fuel close_tag rest))
      (stop_at close_tag (l ∷ rest) (parse_close_tag (trim_left_blanks l.raw)))
      (then_nodes (parse_section (parse_body fuel) l rest) (parse_body fuel close_tag))
      (then_nodes
        (as_node rest
          (parse_directive (leading_whitespace l.raw) (trim_left_blanks l.raw) l.newline))
        (parse_body fuel close_tag))

abbrev pub config_of : Result Error (Nodes × Lines) → Result Error Nodes
config_of (err e) = err e
config_of (ok (ns, rest)) = ok ns

unfoldable pub parse : Bytes → Result Error Nodes
unfolding logical_lines parse_body
parse src = config_of (parse_body (suc (length (logical_lines src))) [] (logical_lines src))
