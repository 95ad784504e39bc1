-- ===== src/Nginx/Parser/OpenQuote.antt =====
-- The error of the look for a trailing comment is ignored, and the lexer has read on.
use go_certbot.Prelude.{◌≡◌, [], ◌++◌, none, Bytes, true, codes, ok, err}
use go_certbot.Nginx.Lexer.{quoted_body, close_quote, unterminated_string}
use go_certbot.Nginx.Ast.{Directive, directive, nil, cons}
use go_certbot.Nginx.Parser.{parse}

abbrev pub plain : Bytes → Directive
plain name = record {
  whitespace = [];
  name = name;
  args = [];
  arg_leading_ws = [];
  semicolon = true;
  trailing_comment = [];
  internal_comments = [];
}

-- For every text that a double quote opens and nothing closes: alone it is refused, and behind "a; "
-- it is dropped, and what stands before it is returned as the whole configuration.
pub parse-open_quote_ignored :
    (body : Bytes)
    → quoted_body b'"' body ≡ none
    → (parse (codes "a; \"" ++ body)
        ≡ ok
            (record { nodes = cons (directive (plain (codes "a"))) nil; trailing_whitespace = [] }))
      × (parse (codes "\"" ++ body) ≡ err (unterminated_string 0))
unfolding parse
parse-open_quote_ignored body h = (rw (h, close_quote), rw (h, close_quote))
