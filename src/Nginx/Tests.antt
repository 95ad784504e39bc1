-- ===== src/Nginx/Tests.antt =====
-- Runs of the nginx lexer and parser, and the witnesses of their theorems.
use go_certbot.Prelude.{
  [], ◌∷◌, ◌+◌, ◌++◌, ◌≡◌, ◌≢◌, ◌≤◌, ◌↔◌, refl, Bytes, codes, length, Result, ok, err, none, true,
  false,
}
use go_certbot.Golib.Strings.{equal}
use go_certbot.Nginx.Ast.{to_string, Config, Nodes, cons, nil, directive}
use go_certbot.Nginx.Names.Exact.{is_named, server_name_score_exact}
use go_certbot.Nginx.Names.{Compile, server_name_score, name_match_score, star_score, name_of}
use go_certbot.Nginx.Lexer.Next.{Outcome, next-Outcome}
use go_certbot.Nginx.Lexer.{
  next, Error, Lexer, out_of_fuel, expected_terminator, unterminated_string, eof, quoted_body,
}
use go_certbot.Nginx.Parser.Fuel.{parse_terminates}
use go_certbot.Nginx.Parser.OpenQuote.{plain, parse-open_quote_ignored}
use go_certbot.Nginx.Parser.SwallowedEnd.{commented, parse-swallowed_end}
use go_certbot.Nginx.Parser.{parse, contains_newline}

abbrev site : Bytes
site = codes "server {\n  listen 80; # plain\n  server_name a.b \"c d\";\n  # note\n}\n"

abbrev printed : Result Error Config → Bytes
printed (ok c) = to_string c
printed (err e) = []

parse-site : printed (parse site) ≡ site
unfolding parse to_string
parse-site = refl

parse_terminates_example : parse site ≢ err out_of_fuel
parse_terminates_example = parse_terminates site

abbrev lexer : Lexer
lexer = record { pos = 0; rest = codes "  listen 80;" }

next-Outcome_example : Outcome lexer (next lexer)
next-Outcome_example = next-Outcome lexer

no_newline : contains_newline (codes " c") ≡ false
unfolding contains_newline
no_newline = refl

parse-swallowed_end_example :
    (parse (codes "a b #" ++ (codes " c" ++ codes "\n;")) ≡ ok (commented (codes " c")))
    × (parse (to_string (commented (codes " c"))) ≡ err (expected_terminator (codes "a") eof))
parse-swallowed_end_example = parse-swallowed_end (codes " c") no_newline

unclosed : quoted_body b'"' (codes "b; c;") ≡ none
unfolding quoted_body
unclosed = refl

parse-open_quote_ignored_example :
    (parse (codes "a; \"" ++ codes "b; c;")
      ≡ ok (record { nodes = cons (directive (plain (codes "a"))) nil; trailing_whitespace = [] }))
    × (parse (codes "\"" ++ codes "b; c;") ≡ err (unterminated_string 0))
parse-open_quote_ignored_example = parse-open_quote_ignored (codes "b; c;") unclosed

abbrev no_patterns : Compile
no_patterns pattern = none

-- The body of a server with a wildcard and a name.
abbrev named_body : Nodes
named_body =
    cons
      (directive (record {
        whitespace = codes " ";
        name = codes "server_name";
        args = codes "*.b.com" ∷ codes "\"A.b.com\"" ∷ [];
        arg_leading_ws = [];
        semicolon = true;
        trailing_comment = [];
        internal_comments = [];
      }))
      nil

named_body-score : server_name_score no_patterns named_body (codes "a.b.com") ≡ 1007
unfolding server_name_score name_match_score star_score name_of equal
named_body-score = refl

server_name_score_exact_example :
    (1000 + length (codes "a.b.com")
      ≤ server_name_score no_patterns named_body (codes "a.b.com") + 1)
    ↔ (is_named (codes "a.b.com") named_body ≡ true)
server_name_score_exact_example =
    server_name_score_exact no_patterns named_body b'a' (codes ".b.com")
