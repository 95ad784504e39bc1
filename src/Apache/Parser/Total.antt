-- ===== src/Apache/Parser/Total.antt =====
-- The fuel of the parser of internal/plugins/apache/parser/parser.go is enough, and it reads every
-- line.
use go_certbot.Prelude.{
  ℕ, zero, suc, ◌+◌, ◌<◌, ◌≤◌, ◌≡◌, ◌≢◌, refl, false, List, [], ◌∷◌, Option, none, some, Bytes,
  length, take, drop, Result, ok, err, if-property, arith,
}
use go_certbot.Apache.Ast.{Directive, SectionHead, Node, Nodes}
use go_certbot.Apache.Lines.{LogicalLine, logical_lines}
use go_certbot.Apache.Words.{split_args, find_unquoted, leading_whitespace}
use go_certbot.Apache.Parser.{
  Error, out_of_fuel, is_nil, CloseTag, behind_tag, close_at, parse_close_tag, directive_of,
  directive_at, parse_directive, head_of, at_hash, opened_at, parse_open_tag, Lines, P, closed_by,
  close_section, with_body, parse_section, add_node, then_nodes, as_node, stop_at, line_kind,
  LineKind, remark, closing, opening, plain, kind_on, end_of_lines, parse_body, config_of, parse,
}
use go_certbot.Golib.Strings.Index.{index_byte, trim_left_blanks, trim_right_blanks}
use go_certbot.Golib.Strings.{equal, trim_space, to_lower}

-- An error that is not for want of fuel.
abbrev HasFuel : {A : Type 0} → Result Error A → Type 0
HasFuel (err e) = e ≢ out_of_fuel
HasFuel (ok a) = Unit {0}

behind_tag-HasFuel : (tag rest : Bytes) (i : Option ℕ) → HasFuel (behind_tag tag rest i)
behind_tag-HasFuel tag rest (some i) = tt
behind_tag-HasFuel tag rest none =
    if-property HasFuel (is_nil (trim_space rest)) (λ _. tt) (λ _ e. cc)

parse_close_tag-HasFuel : (s : Bytes) → HasFuel (parse_close_tag s)
unfolding parse_close_tag
parse_close_tag-HasFuel s = at_end (index_byte b'>' s)
  where
    at_end : (i : Option ℕ) → HasFuel (close_at s i)
    at_end none = λ e. cc
    at_end (some i) =
        if-property HasFuel (is_nil (trim_space (drop 2 (take i s)))) (λ _ e. cc)
          (λ _. behind_tag-HasFuel _ (drop (i + 1) s) _)

directive_of-HasFuel : (i t n : Bytes) (ws : List Bytes) → HasFuel (directive_of i t n ws)
directive_of-HasFuel i t n [] = λ e. cc
directive_of-HasFuel i t n (w ∷ ws) = tt

parse_directive-HasFuel :
    (indent content newline : Bytes) → HasFuel (parse_directive indent content newline)
unfolding parse_directive
parse_directive-HasFuel indent content newline = at_comment (find_unquoted b'#' false content)
  where
    at_comment : (i : Option ℕ) → HasFuel (directive_at indent content newline i)
    at_comment none = directive_of-HasFuel indent [] newline (split_args content)
    at_comment (some i) =
        directive_of-HasFuel indent _ newline (split_args (trim_right_blanks (take i content)))

head_of-HasFuel : (i t n : Bytes) (ws : List Bytes) → HasFuel (head_of i t n ws)
head_of-HasFuel i t n [] = λ e. cc
head_of-HasFuel i t n (w ∷ ws) = tt

parse_open_tag-HasFuel :
    (indent content newline : Bytes) → HasFuel (parse_open_tag indent content newline)
unfolding parse_open_tag
parse_open_tag-HasFuel indent content newline = at_end (find_unquoted b'>' false content)
  where
    at_end : (i : Option ℕ) → HasFuel (opened_at indent content newline i)
    at_end none = λ e. cc
    at_end (some i) =
        let rest = drop (i + 1) content in
        if-property HasFuel (is_nil (trim_space ((at_hash rest (index_byte b'#' rest)).0)))
          (λ _. head_of-HasFuel indent _ newline (split_args (drop 1 (take i content)))) (λ _ e. cc)

-- A result with at most `n` lines left, or an error that is not for want of fuel.
abbrev pub Leaves : {A : Type 0} → ℕ → Result Error (A × Lines) → Type 0
Leaves n (err e) = e ≢ out_of_fuel
Leaves n (ok (a, rest)) = length rest ≤ n

Leaves-more :
    {A : Type 0} (m n : ℕ) (r : Result Error (A × Lines)) → m ≤ n → Leaves m r → Leaves n r
Leaves-more m n (err e) le h = h
Leaves-more m n (ok (a, rest)) le h = omega (arith, h)

add_node-Leaves :
    (n : ℕ) (node : Node) (r : Result Error (Nodes × Lines))
    → Leaves n r
    → Leaves n (add_node node r)
add_node-Leaves n node (err e) h = h
add_node-Leaves n node (ok (ns, rest)) h = h

then_nodes-Leaves :
    (m : ℕ) (r : Result Error (Node × Lines)) (more : P Nodes)
    → Leaves m r
    → ((ls : Lines) → length ls ≤ m → Leaves (length ls) (more ls))
    → Leaves m (then_nodes r more)
then_nodes-Leaves m (err e) more h k = h
then_nodes-Leaves m (ok (n, rest)) more h k =
    add_node-Leaves m n (more rest) (Leaves-more (length rest) m (more rest) h (k rest h))

close_section-Leaves :
    (n : ℕ) (s : SectionHead) (r : Result Error (Nodes × Lines))
    → Leaves n r
    → Leaves n (close_section s r)
close_section-Leaves n s (err e) h = h
close_section-Leaves n s (ok (body, [])) h = λ e. cc
close_section-Leaves n s (ok (body, close ∷ rest)) h =
    closed (parse_close_tag (trim_left_blanks (close.raw)))
      (parse_close_tag-HasFuel (trim_left_blanks (close.raw)))
  where
    closed : (r : Result Error CloseTag) → HasFuel r → Leaves n (closed_by s body close rest r)
    closed (err e) g = g
    closed (ok (tag, trailing)) g = omega (arith, h)

parse_section-Leaves :
    (inner : Bytes → P Nodes) (l : LogicalLine) (rest : Lines)
    → ((tag : Bytes) → Leaves (length rest) (inner tag rest))
    → Leaves (length rest) (parse_section inner l rest)
unfolding parse_section
parse_section-Leaves inner l rest h =
    bodied (parse_open_tag (leading_whitespace (l.raw)) (trim_left_blanks (l.raw)) (l.newline))
      (parse_open_tag-HasFuel (leading_whitespace (l.raw)) (trim_left_blanks (l.raw)) (l.newline))
  where
    bodied :
        (r : Result Error SectionHead) → HasFuel r → Leaves (length rest) (with_body inner rest r)
    bodied (err e) g = g
    bodied (ok s) g = close_section-Leaves (length rest) s (inner (s.name) rest) (h (s.name))

stop_at-Leaves :
    (tag : Bytes) (ls : Lines) (r : Result Error CloseTag)
    → HasFuel r
    → Leaves (length ls) (stop_at tag ls r)
stop_at-Leaves tag ls (err e) g = g
stop_at-Leaves tag ls (ok (name, trailing)) g =
    if-property (Leaves (length ls)) (is_nil tag) (λ _ e. cc)
      (λ _.
        if-property (Leaves (length ls)) (equal (to_lower name) (to_lower tag)) (λ _. omega arith)
          (λ _ e. cc))

as_node-Leaves :
    (rest : Lines) (r : Result Error Directive) → HasFuel r → Leaves (length rest) (as_node rest r)
as_node-Leaves rest (err e) g = g
as_node-Leaves rest (ok d) g = omega arith

end_of_lines-Leaves : (tag : Bytes) → Leaves 0 (end_of_lines tag)
end_of_lines-Leaves [] = omega arith
end_of_lines-Leaves (c ∷ tag) = λ e. cc

kind_on-Leaves :
    (n : ℕ) (k : LineKind) (a b c d : Result Error (Nodes × Lines))
    → Leaves n a
    → Leaves n b
    → Leaves n c
    → Leaves n d
    → Leaves n (kind_on k a b c d)
kind_on-Leaves n remark a b c d p q r s = p
kind_on-Leaves n closing a b c d p q r s = q
kind_on-Leaves n opening a b c d p q r s = r
kind_on-Leaves n plain a b c d p q r s = s

pub parse_body-Leaves :
    (fuel : ℕ) (tag : Bytes) (ls : Lines)
    → length ls < fuel
    → Leaves (length ls) (parse_body fuel tag ls)
unfolding parse_body
parse_body-Leaves zero tag ls h = absurd (omega arith)
parse_body-Leaves (suc fuel) tag [] h = end_of_lines-Leaves tag
parse_body-Leaves (suc fuel) tag (l ∷ rest) h =
    let more =
      λ (ls : Lines) (le : length ls ≤ length rest). parse_body-Leaves fuel tag ls (omega arith) in
    kind_on-Leaves (suc (length rest)) (line_kind (l.raw)) _ _ _ _
      (add_node-Leaves _ _ _ (
        Leaves-more (length rest) _ (parse_body fuel tag rest) (omega arith)
          (more rest (omega arith))))
      (stop_at-Leaves tag (l ∷ rest) _ (parse_close_tag-HasFuel (trim_left_blanks (l.raw))))
      (Leaves-more (length rest) _ _ (omega arith) (
        then_nodes-Leaves (length rest) (parse_section (parse_body fuel) l rest)
          (parse_body fuel tag)
          (parse_section-Leaves (parse_body fuel) l rest
            (λ t. parse_body-Leaves fuel t rest (omega arith)))
          more))
      (Leaves-more (length rest) _ _ (omega arith) (
        then_nodes-Leaves (length rest) _ (parse_body fuel tag)
          (as_node-Leaves rest _ (
            parse_directive-HasFuel (leading_whitespace (l.raw)) (trim_left_blanks (l.raw))
              (l.newline)))
          more))

-- A result that leaves no line, or an error.
abbrev ReadsAll : {A : Type 0} → Result Error (A × Lines) → Type 0
ReadsAll (err e) = Unit {0}
ReadsAll (ok (a, rest)) = rest ≡ []

add_node-ReadsAll :
    (n : Node) (r : Result Error (Nodes × Lines)) → ReadsAll r → ReadsAll (add_node n r)
add_node-ReadsAll n (err e) h = tt
add_node-ReadsAll n (ok (ns, rest)) h = h

then_nodes-ReadsAll :
    (r : Result Error (Node × Lines)) (more : P Nodes)
    → ((ls : Lines) → ReadsAll (more ls))
    → ReadsAll (then_nodes r more)
then_nodes-ReadsAll (err e) more h = tt
then_nodes-ReadsAll (ok (n, rest)) more h = add_node-ReadsAll n (more rest) (h rest)

stop_at-ReadsAll : (ls : Lines) (r : Result Error CloseTag) → ReadsAll (stop_at [] ls r)
stop_at-ReadsAll ls (err e) = tt
stop_at-ReadsAll ls (ok c) = tt

kind_on-ReadsAll :
    (k : LineKind) (a b c d : Result Error (Nodes × Lines))
    → ReadsAll a
    → ReadsAll b
    → ReadsAll c
    → ReadsAll d
    → ReadsAll (kind_on k a b c d)
kind_on-ReadsAll remark a b c d p q r s = p
kind_on-ReadsAll closing a b c d p q r s = q
kind_on-ReadsAll opening a b c d p q r s = r
kind_on-ReadsAll plain a b c d p q r s = s

parse_body-ReadsAll : (fuel : ℕ) (ls : Lines) → ReadsAll (parse_body fuel [] ls)
unfolding parse_body
parse_body-ReadsAll zero ls = tt
parse_body-ReadsAll (suc fuel) [] = refl
parse_body-ReadsAll (suc fuel) (l ∷ rest) =
    kind_on-ReadsAll (line_kind (l.raw)) _ _ _ _
      (add_node-ReadsAll _ _ (parse_body-ReadsAll fuel rest)) (stop_at-ReadsAll (l ∷ rest) _)
      (then_nodes-ReadsAll _ _ (parse_body-ReadsAll fuel))
      (then_nodes-ReadsAll _ _ (parse_body-ReadsAll fuel))

-- For every source the parser ends within its fuel, and where it returns nodes it has read the file
-- to its last line, leaving no closing tag behind.
pub parse_terminates_at_end :
    (src : Bytes)
    → (parse src ≢ err out_of_fuel)
      × ((ns : Nodes)
          → parse src ≡ ok ns
          → parse_body (suc (length (logical_lines src))) [] (logical_lines src) ≡ ok (ns, []))
unfolding parse
parse_terminates_at_end src =
    let ls = logical_lines src in
    (
      ended _ (parse_body-Leaves (suc (length ls)) [] ls (omega arith)),
      λ ns e. read_all _ ns (parse_body-ReadsAll (suc (length ls)) ls) e,
    )
  where
    ended :
        (r : Result Error (Nodes × Lines))
        → Leaves (length (logical_lines src)) r
        → config_of r ≢ err out_of_fuel
    ended (err e) h = λ k. h (cc k)
    ended (ok (ns, rest)) h = λ k. cc

    read_all :
        (r : Result Error (Nodes × Lines)) (ns : Nodes)
        → ReadsAll r
        → config_of r ≡ ok ns
        → r ≡ ok (ns, [])
    read_all (err e) ns h k = cc
    read_all (ok (ms, rest)) ns h k = cc (h, k)
