-- ===== src/Apache/Tests.antt =====
-- Runs of the Apache parser, and the witnesses of its theorems.
use go_certbot.Prelude.{
  ℕ, [], ◌∷◌, ◌≡◌, ◌≢◌, refl, Bytes, codes, length, suc, Result, ok, err, All, Bool, true, false,
  ◌&&◌, not, ◌==◌,
}
use go_certbot.Apache.Ast.{Nodes, directive, section, comment, nil, cons, emit, to_string}
use go_certbot.Apache.Lines.{logical_lines}
use go_certbot.Apache.Parser.RoundTrip.{
  Canonical, none_left, line, verbatim, block, parse-to_string,
}
use go_certbot.Apache.Parser.Total.{parse_terminates_at_end}
use go_certbot.Apache.Parser.{
  Error, unexpected_close, out_of_fuel, line_kind, parse_close_tag, parse_directive, parse_section,
  parse_body, parse,
}
use go_certbot.Apache.Words.Plain.{IsPlain}
use go_certbot.Apache.Words.{leading_whitespace}
use go_certbot.Golib.Strings.Index.{is_blank, trim_left_blanks}
use go_certbot.Golib.Strings.{equal, has_prefix, has_suffix, to_lower, trim_space}

abbrev site : Bytes
site =
    codes
      "# a site\n<VirtualHost *:80>\n  ServerName  a.b \\\n c # here\n\n  Foo \"x \\\" > y\"\n</virtualhost>\nEnd"

abbrev printed : Result Error Nodes → Bytes
printed (ok ns) = to_string ns
printed (err e) = []

-- Blanks between arguments become one, and the name of a section is printed at both of its ends.
site-printed :
    printed (parse site)
    ≡ codes
        "# a site\n<VirtualHost *:80>\n  ServerName a.b c # here\n\n  Foo \"x \\\" > y\"\n</VirtualHost>\nEnd"
unfolding parse emit parse_section parse_close_tag parse_directive line_kind leading_whitespace
    trim_left_blanks equal to_lower
site-printed = refl

open_site : parse (codes "<A>\n<B>\n</A>\n") ≡ err unexpected_close
unfolding parse parse_section parse_close_tag line_kind leading_whitespace trim_left_blanks equal
    to_lower
open_site = refl

parse_terminates_at_end_example :
    (parse site ≢ err out_of_fuel)
    × ((ns : Nodes)
        → parse site ≡ ok ns
        → parse_body (suc (length (logical_lines site))) [] (logical_lines site) ≡ ok (ns, []))
parse_terminates_at_end_example = parse_terminates_at_end site

-- A site with one directive, and a comment behind it.
abbrev plain_nodes : Nodes
plain_nodes =
    cons
      (section
        (record {
          open_indent = [];
          name = codes "VirtualHost";
          args = codes "*:80" ∷ [];
          open_trailing = [];
          open_newline = codes "\n";
          close_indent = codes "\t";
          close_trailing = [];
          close_newline = codes "\n";
        })
        (cons
          (directive (record {
            indent = codes "  ";
            name = codes "Use";
            args = codes "a.b" ∷ codes "80" ∷ [];
            trailing_comment = [];
            newline = codes "\n";
          }))
          nil))
      (cons (comment (record { verbatim = codes " # end"; newline = codes "\n" })) nil)

byte-IsPlain :
    (c : ℕ)
    → (c == b'\\') ≡ false
    → (c == b'"') ≡ false
    → (c == b'#') ≡ false
    → (c == b'>') ≡ false
    → (c == b'\n') ≡ false
    → is_blank c ≡ false
    → IsPlain c
byte-IsPlain c p q r s t u =
    (record { no_backslash = p; no_quote = q; no_hash = r; no_close = s; no_newline = t }, u)

abbrev plain_test : ℕ → Bool
plain_test c =
    not (c == b'\\')
    && (not (c == b'"')
        && (not (c == b'#') && (not (c == b'>') && (not (c == b'\n') && not (is_blank c)))))

abbrev all_plain : Bytes → Bool
all_plain [] = true
all_plain (c ∷ s) = plain_test c && all_plain s

both : (a b : Bool) → (a && b) ≡ true → (a ≡ true) × (b ≡ true)
both true b h = (refl, h)
both false b h = absurd (cc h)

false_of_not : (b : Bool) → not b ≡ true → b ≡ false
false_of_not true h = absurd (cc h)
false_of_not false h = refl

-- The test for plain bytes, on a literal.
All-IsPlain : (s : Bytes) → all_plain s ≡ true → All IsPlain s
All-IsPlain [] h = tt
All-IsPlain (c ∷ s) h =
    let a = both _ _ h in
    let b = both _ _ (a.0) in
    let d = both _ _ (b.1) in
    let e = both _ _ (d.1) in
    let f = both _ _ (e.1) in
    let g = both _ _ (f.1) in
    (
      byte-IsPlain c (false_of_not _ (b.0)) (false_of_not _ (d.0)) (false_of_not _ (e.0))
          (false_of_not _ (f.0)) (false_of_not _ (g.0)) (false_of_not _ (g.1)),
      All-IsPlain s (a.1),
    )

plain_nodes-Canonical : Canonical plain_nodes
unfolding line_kind trim_space trim_left_blanks has_prefix has_suffix
plain_nodes-Canonical =
    block [] (codes "\t") (codes "VirtualHost") (codes "*:80" ∷ []) _ _ tt (refl, tt)
      (All-IsPlain (codes "VirtualHost") refl) (All-IsPlain (codes "*:80") refl, tt) refl refl refl
      (line (codes "  ") (codes "Use") (codes "a.b" ∷ codes "80" ∷ []) nil (refl, (refl, tt))
        (All-IsPlain (codes "Use") refl)
        (All-IsPlain (codes "a.b") refl, (All-IsPlain (codes "80") refl, tt)) refl none_left)
      (verbatim (codes " # end") nil (refl, (refl, (refl, (refl, (refl, (refl, tt)))))) refl refl
        none_left)

parse-to_string_example : parse (to_string plain_nodes) ≡ ok plain_nodes
parse-to_string_example = parse-to_string plain_nodes plain_nodes-Canonical
