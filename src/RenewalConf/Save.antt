-- ===== src/RenewalConf/Save.antt =====
-- The text that `Save` of internal/storage/renewalconf/renewalconf.go writes, with `emitKV`.
use go_certbot.Prelude.{List, [], ◌∷◌, ◌++◌, Option, none, some, Bytes, codes, if◌then◌else◌}
use go_certbot.Cli.Domains.{contains}
use go_certbot.Golib.Map.{Map, get}
use go_certbot.Golib.Strings.Sort.{sort_strings}
use go_certbot.RenewalConf.Values.{format_value}
use go_certbot.RenewalConf.{File, entries, nested_label, section_label}

-- A missing key reads as the empty string.
abbrev pub text_or_empty : Option Bytes → Bytes
text_or_empty none = []
text_or_empty (some v) = v

abbrev pub line_of : Bytes → Bytes → Bytes
line_of key value = key ++ (codes " = " ++ value)

unfoldable pub emit_keys : List Bytes → Map Bytes → Bytes
unfolding get format_value
emit_keys [] m = []
emit_keys (k ∷ ks) m =
    line_of k (format_value (text_or_empty (get k m))) ++ (b'\n' ∷ emit_keys ks m)

unfoldable pub leftovers : List Bytes → Map Bytes → List Bytes
unfolding contains
leftovers order [] = []
leftovers order ((k, v) ∷ m) =
    let rest = leftovers order m in if contains order k then rest else k ∷ rest

unfoldable pub emit_kv : List Bytes → Map Bytes → Bytes
unfolding emit_keys leftovers sort_strings
emit_kv order m = emit_keys order m ++ emit_keys (sort_strings (leftovers order m)) m

abbrev header : Bytes → Bytes → Bytes → Bytes
header before name behind = before ++ (name ++ (behind ++ b'\n' ∷ []))

unfoldable pub emit_nested : List Bytes → File → Bytes
unfolding emit_kv
emit_nested [] f = []
emit_nested (name ∷ names) f =
    header (codes "[[") name (codes "]]")
    ++ (emit_kv (entries (get (nested_label name) f.key_order)) (entries (get name f.nested))
        ++ emit_nested names f)

unfoldable pub emit_sections : List Bytes → File → Bytes
unfolding emit_kv
emit_sections [] f = []
emit_sections (name ∷ names) f =
    header (codes "[") name (codes "]")
    ++ (emit_kv (entries (get (section_label name) f.key_order)) (entries (get name f.sections))
        ++ emit_sections names f)

unfoldable pub save : File → Bytes
unfolding emit_kv emit_nested emit_sections
save f =
    emit_kv f.top_order f.top
    ++ (codes "[renewalparams]\n"
        ++ (emit_kv f.params_order f.renewal_params
            ++ (emit_nested f.nested_order f ++ emit_sections f.sections_order f)))
