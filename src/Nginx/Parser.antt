-- ===== src/Nginx/Parser.antt =====
-- internal/plugins/nginx/parser/parse.go. Each method is an action on the parser's state, which
-- also shows what an ignored error has left behind. The recursion is on fuel: one unit for each
-- round of the loop of `parseBody`, and `parse` gives one for each byte of the source and one more.
pub mod Fuel
pub mod OpenQuote
pub mod SwallowedEnd
use go_certbot.Prelude.{
  ◌≡◌, refl, ℕ, zero, suc, ◌+◌, Bool, true, false, not, ◌&&◌, List, [], ◌∷◌, ◌++◌, Option, none,
  some, Bytes, length, ◌==◌, if◌then◌else◌, Result, ok, err, Exec,
}
use go_certbot.Nginx.Lexer.{
  TokenKind, eof, word, quoted_string, open_brace, close_brace, semicolon, comment, Token, Lexer,
  Error, unexpected_eof, unexpected_close, expected_name, expected_close, expected_terminator,
  out_of_fuel, new_lexer, next,
}
use go_certbot.Nginx.Ast.{
  InternalComment, Directive, Comment, BlockHead, Node, Nodes, directive, block, remark, nil, cons,
  Config,
}

pub record ParserState : Type 0 where
  pub lex : Lexer
  pub pending : Option Token
  pub last_whitespace : Bytes

abbrev pub P : Type 0 → Type 0
P A = Exec ParserState Error A

infixl 5 ◌>>=◌ ◌>>◌
abbrev pub continue :
    {A B : Type 0} → Result Error A × ParserState → (A → P B) → Result Error B × ParserState
continue (ok a, s) f = f a s
continue (err e, s) f = (err e, s)

abbrev pub ◌>>=◌ : {A B : Type 0} → P A → (A → P B) → P B
◌>>=◌ m f s = continue (m s) f

abbrev pub ◌>>◌ : {A B : Type 0} → P A → P B → P B
m >> k = m >>= λ _. k

abbrev pub pure : {A : Type 0} → A → P A
pure a s = (ok a, s)

abbrev pub raise : {A : Type 0} → Error → P A
raise e s = (err e, s)

abbrev pub keep_pending :
    ParserState → Result Error Token × Lexer → Result Error Token × ParserState
keep_pending s (ok t, l) = (ok t, record s { lex = l; pending = some t })
keep_pending s (err e, l) = (err e, record s { lex = l })

abbrev pub pass_on : ParserState → Result Error Token × Lexer → Result Error Token × ParserState
pass_on s (r, l) = (r, record s { lex = l })

abbrev pub peek_from : Option Token → P Token
peek_from (some t) s = (ok t, s)
peek_from none s = keep_pending s (next s.lex)

abbrev pub take_from : Option Token → P Token
take_from (some t) s = (ok t, record s { pending = none })
take_from none s = pass_on s (next s.lex)

unfoldable pub peek : P Token
peek s = peek_from s.pending s

unfoldable pub take : P Token
take s = take_from s.pending s

-- The arguments of a directive, their whitespace and the comments between them.
pub record Args : Type 0 where
  pub values : List Bytes
  pub leading_ws : List Bytes
  pub comments : List InternalComment

abbrev pub add_arg : Args → Token → Args
add_arg a t = record a {
  values = a.values ++ (t.value ∷ []);
  leading_ws = a.leading_ws ++ (t.whitespace ∷ []);
}

abbrev pub add_comment : Args → Token → Args
add_comment a t = record a {
  comments =
      a.comments
      ++ (record { args_before = length a.values; whitespace = t.whitespace; value = t.value }
          ∷ []);
}

abbrev pub no_args : Args
no_args = record { values = []; leading_ws = []; comments = [] }

-- The branches of the inner loop of `parseBody`: an argument, a comment, or the end of the loop.
abbrev pub args_on : TokenKind → P Args → P Args → P Args → P Args
args_on word on_arg on_comment stop = on_arg
args_on quoted_string on_arg on_comment stop = on_arg
args_on comment on_arg on_comment stop = on_comment
args_on _ on_arg on_comment stop = stop

unfoldable pub parse_args : ℕ → Args → P Args
parse_args zero a = raise out_of_fuel
parse_args (suc fuel) a = do
  t ← peek
  args_on t.kind (do take; parse_args fuel (add_arg a t))
      (do take; parse_args fuel (add_comment a t)) (pure a)

unfoldable pub contains_newline : Bytes → Bool
contains_newline [] = false
contains_newline (c ∷ cs) = if c == b'\n' then true else contains_newline cs

abbrev pub is_comment : TokenKind → Bool
is_comment comment = true
is_comment _ = false

-- The look for a comment behind the `;`. An error of `peek` is ignored here, and its effect stays.
abbrev pub trailing_of : Result Error Token × ParserState → Result Error Bytes × ParserState
trailing_of (err e, s) = (ok [], s)
trailing_of (ok t, s) =
    (if is_comment t.kind && not (contains_newline t.whitespace)
        then (do take; pure (t.whitespace ++ t.value))
        else pure [])
      s

unfoldable pub parse_trailing : P Bytes
unfolding contains_newline peek take
parse_trailing s = trailing_of (peek s)

abbrev pub make_directive : Token → Args → Bytes → Node
make_directive name a trailing = directive (record {
  whitespace = name.whitespace;
  name = name.value;
  args = a.values;
  arg_leading_ws = a.leading_ws;
  semicolon = true;
  trailing_comment = trailing;
  internal_comments = a.comments;
})

abbrev pub make_block : Token → Args → Nodes → Token → Node
make_block name a body close =
    block
      (record {
        whitespace = name.whitespace;
        name = name.value;
        args = a.values;
        before_close = close.whitespace;
      })
      body

abbrev pub close_block : TokenKind → P Node → P Node
close_block close_brace done = done
close_block other done = raise (expected_close other)

abbrev pub terminator_on : TokenKind → Bytes → P Node → P Node → P Node
terminator_on semicolon name on_semicolon on_brace = on_semicolon
terminator_on open_brace name on_semicolon on_brace = on_brace
terminator_on other name on_semicolon on_brace = raise (expected_terminator name other)

-- Behind the name and the arguments: the `;`, or the block, whose body is read by `parse_inner`.
unfoldable pub parse_terminator : P Nodes → Token → Args → P Node
parse_terminator parse_inner name a = do
  closer ← take
  terminator_on closer.kind name.value
      (do trailing ← parse_trailing; pure (make_directive name a trailing))
      (do
        body ← parse_inner
        close ← take
        close_block close.kind (pure (make_block name a body close)))

abbrev pub named : TokenKind → P Node → P Node
named word go = go
named other go = raise (expected_name other)

-- One round of the loop of `parseBody` at a token that starts a directive or a block.
unfoldable pub parse_entry : ℕ → P Nodes → P Node
unfolding parse_terminator
parse_entry fuel parse_inner = do
  name ← take
  named name.kind (do a ← parse_args fuel no_args; parse_terminator parse_inner name a)

abbrev pub set_last : Bytes → P (Unit {0})
set_last ws s = (ok tt, record s { last_whitespace = ws })

abbrev pub end_of_source : Bool → Token → P Nodes
end_of_source true t = do take; set_last t.whitespace; pure nil
end_of_source false t = raise unexpected_eof

abbrev pub end_of_block : Bool → P Nodes
end_of_block true = raise unexpected_close
end_of_block false = pure nil

-- The branches of the loop of `parseBody`.
abbrev pub body_on : TokenKind → P Nodes → P Nodes → P Nodes → P Nodes → P Nodes
body_on eof on_eof on_close on_comment on_entry = on_eof
body_on close_brace on_eof on_close on_comment on_entry = on_close
body_on comment on_eof on_close on_comment on_entry = on_comment
body_on _ on_eof on_close on_comment on_entry = on_entry

unfoldable pub parse_body : ℕ → Bool → P Nodes
unfolding parse_entry
parse_body zero top = raise out_of_fuel
parse_body (suc fuel) top = do
  t ← peek
  body_on t.kind (end_of_source top t) (end_of_block top)
      (do
        take
        ns ← parse_body fuel top
        pure (cons (remark (record { whitespace = t.whitespace; value = t.value })) ns))
      (do n ← parse_entry fuel (parse_body fuel false); ns ← parse_body fuel top; pure (cons n ns))

abbrev pub start : Bytes → ParserState
start src = record { lex = new_lexer src; pending = none; last_whitespace = [] }

abbrev pub config_of : Result Error Nodes × ParserState → Result Error Config
config_of (ok ns, s) = ok (record { nodes = ns; trailing_whitespace = s.last_whitespace })
config_of (err e, s) = err e

unfoldable pub parse : Bytes → Result Error Config
unfolding parse_body parse_args peek take parse_trailing next
parse src = config_of (parse_body (suc (length src)) true (start src))

-- `parse` with its loops shut.
pub parse_lem :
    (src : Bytes) → parse src ≡ config_of (parse_body (suc (length src)) true (start src))
unfolding parse
parse_lem src = refl
