-- ===== src/RenewalConf/Hooks.antt =====
-- What becomes of a value with a double quote in it, such as a hook command: `formatValue` and
-- `parse` of internal/storage/renewalconf/renewalconf.go.
use go_certbot.Prelude.{
  ◌≡◌, ◌≢◌, refl, ap, true, false, [], ◌∷◌, Bytes, length, length-append, arith,
}
use go_certbot.Golib.Strings.Index.{contains_byte}
use go_certbot.RenewalConf.Entry.{IsLine, parse_line-line}
use go_certbot.RenewalConf.Parse.{Scope, parse_line, store}
use go_certbot.RenewalConf.Save.{line_of}
use go_certbot.RenewalConf.Values.{format_value, in_quotes, is_quoted}

format_value-quoted :
    (v : Bytes)
    → is_quoted v ≡ false
    → contains_byte b',' v ≡ false
    → contains_byte b'"' v ≡ true
    → format_value v ≡ in_quotes b'\'' v
unfolding format_value contains_byte
format_value-quoted [] h c q = cc
format_value-quoted (b ∷ v) h c q = rw (h, c, q) refl

-- A value that holds a double quote and no comma, and does not stand in quotes itself, is written in
-- single quotes; where a line can hold that, the reader stores the value with those quotes, which
-- is another value than the one that was saved.
pub quoted_value_changes :
    (k v : Bytes) (s : Scope)
    → is_quoted v ≡ false
    → contains_byte b',' v ≡ false
    → contains_byte b'"' v ≡ true
    → IsLine k (in_quotes b'\'' v)
    → (parse_line (line_of k (format_value v)) s ≡ store k (in_quotes b'\'' v) s)
      × (in_quotes b'\'' v ≢ v)
quoted_value_changes k v s h c q line = (
  rw (format_value-quoted v h c q) (parse_line-line k (in_quotes b'\'' v) line s),
  λ e. omega (arith, ap length e, length-append v (b'\'' ∷ [])),
)
