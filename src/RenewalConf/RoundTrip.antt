-- ===== src/RenewalConf/RoundTrip.antt =====
-- `parse` behind `Save` of internal/storage/renewalconf/renewalconf.go.
use go_certbot.Prelude.{
  ℕ, ◌≤◌, ◌≡◌, refl, ap, ◌∙◌, false, List, [], ◌∷◌, ◌++◌, append_assoc, append-nil, Bytes, codes,
  length, ltb, ◌==◌, All, ok, arith,
}
use go_certbot.Cli.Domains.Distinct.{Distinct, or-false, differ}
use go_certbot.Cli.Domains.{contains}
use go_certbot.Golib.Map.Keys.{keys, is_some, set-new}
use go_certbot.Golib.Map.{Map, get, set, get-set}
use go_certbot.Golib.Strings.Ends.{Ends, IsVisible}
use go_certbot.Golib.Strings.Index.{Lacks, Lacks-contains_byte, contains_byte}
use go_certbot.Golib.Strings.Split.{split}
use go_certbot.Golib.Strings.{equal, has_prefix, has_suffix, trim_space}
use go_certbot.RenewalConf.Entry.{IsLine, line-Ends, line-Lacks, first_bytes, parse_line-line}
use go_certbot.RenewalConf.Parse.{
  Scope, params_section, is_nil, store, parse_line, parse_lines, and_then, drop_cr, max_line, parse,
  enter_section,
}
use go_certbot.RenewalConf.Save.{line_of, save, emit_nested, emit_sections}
use go_certbot.RenewalConf.Tracked.{text_of, emit_kv-text_of}
use go_certbot.RenewalConf.Values.{format_value}
use go_certbot.RenewalConf.{File, new_file, set_top, set_param, note_key}

split-line :
    (line rest : Bytes)
    → Lacks b'\n' line
    → split b'\n' (line ++ b'\n' ∷ rest) ≡ line ∷ split b'\n' rest
unfolding split
split-line [] rest h = refl
split-line (c ∷ line) rest h = rw (h.0, split-line line rest (h.1)) refl

visible_ne_cr : (c : ℕ) → IsVisible c → (c == 13) ≡ false
visible_ne_cr c h = ground arith

drop_cr-Ends : {line : Bytes} → Ends line → drop_cr line ≡ line
unfolding has_suffix has_prefix
drop_cr-Ends {line} e = rw (e.finishes) (rw (visible_ne_cr (e.last) (e.last_seen)) refl)

short : (n : ℕ) → n ≤ max_line → ltb max_line n ≡ false
short n h = ground arith

-- One line, where nothing is unusual about it.
parse_lines-step :
    (line : Bytes) (lines : List Bytes) (s : Scope)
    → is_nil line ≡ false
    → length line ≤ max_line
    → drop_cr line ≡ line
    → parse_lines (line ∷ lines) s ≡ and_then (parse_line line s) (λ t. parse_lines lines t)
unfolding parse_lines
parse_lines-step line lines s filled fits clean = rw (filled, short (length line) fits, clean) refl

-- Entries that `Save` writes as they are and that a line can hold.
abbrev pub Clean : Map Bytes → Type 0
Clean = All (λ e. IsLine (e.0) (e.1) × (format_value (e.1) ≡ e.1))

abbrev put_all : (Bytes → Bytes → File → File) → Map Bytes → File → File
put_all put [] f = f
put_all put ((k, v) ∷ m) f = put_all put m (put k v f)

-- A scope in which keys are written by `put`.
module _ (scope : File → Scope) (put : Bytes → Bytes → File → File)
    (stores : (k v : Bytes) (f : File) → store k v (scope f) ≡ ok (scope (put k v f))) where
  parse_lines-text_of :
      (m : Map Bytes) (rest : Bytes) (f : File)
      → Clean m
      → parse_lines (split b'\n' (text_of m rest)) (scope f)
        ≡ parse_lines (split b'\n' rest) (scope (put_all put m f))
  parse_lines-text_of [] rest f c = refl
  parse_lines-text_of ((k, v) ∷ m) rest f c =
      let line = c.0.0 in
      rw (c.0.1, split-line (line_of k v) (text_of m rest) (line-Lacks k v line))
        (parse_lines-step (line_of k v) (split b'\n' (text_of m rest)) (scope f)
            ((first_bytes k v line).0) (line.fits) (drop_cr-Ends (line-Ends k v line))
          ∙ rw (parse_line-line k v line (scope f), stores k v f)
              (parse_lines-text_of m rest (put k v f) (c.1)))

-- Keys that are not in a map, each once.
abbrev Fresh : Map Bytes → Map Bytes → Type 0
Fresh m n = All (λ e. is_some (get (e.0) m) ≡ false) n × Distinct (keys n)

Fresh-step : (k v : Bytes) (m n : Map Bytes) → Fresh m ((k, v) ∷ n) → Fresh (set k v m) n
unfolding contains
Fresh-step k v m n h = (spread n (h.0.1) (h.1.0), h.1.1)
  where
    spread :
        (n : Map Bytes)
        → All (λ e. is_some (get (e.0) m) ≡ false) n
        → contains (keys n) k ≡ false
        → All (λ e. is_some (get (e.0) (set k v m)) ≡ false) n
    spread [] a d = tt
    spread ((j, w) ∷ n) a d =
        let parts = or-false (equal j k) (contains (keys n) k) d in
        (rw (get-set k j v m, differ j k (parts.0)) (a.0), spread n (a.1) (parts.1))

-- A map and its order within a file, with the call that writes to them.
module _ (put : Bytes → Bytes → File → File) (lay : Map Bytes → List Bytes → File)
    (puts : (k v : Bytes) (m : Map Bytes) (order : List Bytes)
      → put k v (lay m order) ≡ lay (set k v m) (note_key k m order)) where
  put_all-lay :
      (n m : Map Bytes) (order : List Bytes)
      → Fresh m n
      → put_all put n (lay m order) ≡ lay (m ++ n) (order ++ keys n)
  put_all-lay [] m order h = rw (append-nil m, append-nil order) refl
  put_all-lay ((k, v) ∷ n) m order h = rw (puts k v m order) (
      put_all-lay n (set k v m) (note_key k m order) (Fresh-step k v m n h)
      ∙ rw
          (
            h.0.0,
            set-new k v m (h.0.0),
            append_assoc m ((k, v) ∷ []) n,
            append_assoc order (k ∷ []) (keys n),
          )
          refl)

abbrev pub file_of : Map Bytes → Map Bytes → File
file_of top params = record new_file {
  top = top;
  top_order = keys top;
  renewal_params = params;
  params_order = keys params;
}

in_top : File → Scope
in_top f = record { section = []; nested_name = []; file = f }

in_params : File → Scope
in_params f = record { section = params_section; nested_name = []; file = f }

params_line : Bytes
params_line = codes "[renewalparams]"

parse_lines-header :
    (lines : List Bytes) (f : File)
    → parse_lines (params_line ∷ lines) (in_top f) ≡ parse_lines lines (in_params f)
unfolding params_line in_top in_params parse_lines parse_line enter_section trim_space has_prefix
    has_suffix equal
parse_lines-header lines f = refl

-- The text that `Save` writes for such a file.
save-file_of :
    (top params : Map Bytes)
    → Distinct (keys top)
    → Distinct (keys params)
    → save (file_of top params) ≡ text_of top (params_line ++ b'\n' ∷ text_of params [])
unfolding save params_line emit_nested emit_sections
save-file_of top params d e =
    emit_kv-text_of (keys top) top _ (refl, d)
    ∙ ap (λ r. text_of top (params_line ++ b'\n' ∷ r))
        (emit_kv-text_of (keys params) params [] (refl, e))

store-top : (k v : Bytes) (f : File) → store k v (in_top f) ≡ ok (in_top (set_top k v f))
unfolding store in_top
store-top k v f = refl

store-params : (k v : Bytes) (f : File) → store k v (in_params f) ≡ ok (in_params (set_param k v f))
unfolding store in_params equal
store-params k v f = refl

absent : (m : Map Bytes) → All (λ e. is_some (get (e.0) (new_file.top)) ≡ false) m
unfolding get
absent [] = tt
absent (e ∷ m) = (refl, absent m)

put_all-file_of :
    (top params : Map Bytes)
    → Distinct (keys top)
    → Distinct (keys params)
    → put_all set_param params (put_all set_top top new_file) ≡ file_of top params
unfolding set_top set_param
put_all-file_of top params d e =
    ap (put_all set_param params) (
      put_all-lay set_top (λ m order. record new_file { top = m; top_order = order })
        (λ k v m order. refl) top [] [] (absent top, d))
    ∙ put_all-lay set_param
        (λ m order. record new_file {
          top = top;
          top_order = keys top;
          renewal_params = m;
          params_order = order;
        })
        (λ k v m order. refl) params [] [] (absent params, e)

params_line-Lacks : Lacks b'\n' params_line
unfolding params_line contains_byte
params_line-Lacks = Lacks-contains_byte b'\n' params_line refl

parse_lines-end : (f : File) → parse_lines (split b'\n' []) (in_params f) ≡ ok f
unfolding parse_lines split in_params
parse_lines-end f = refl

-- A file of the top keys and the renewal parameters alone, in which no key is there twice, with
-- entries that a line can hold and that `Save` writes as they are: what `Save` writes for it is read
-- back as the same file, orders included.
pub parse-save :
    (top params : Map Bytes)
    → Distinct (keys top)
    → Distinct (keys params)
    → Clean top
    → Clean params
    → parse (save (file_of top params)) ≡ ok (file_of top params)
unfolding parse in_top
parse-save top params d e c k =
    let written = params_line ++ b'\n' ∷ text_of params [] in
    let built = put_all set_top top new_file in
    ap (λ b. parse_lines (split b'\n' b) (in_top new_file)) (save-file_of top params d e)
    ∙ parse_lines-text_of in_top set_top store-top top written new_file c
    ∙ ap (λ ls. parse_lines ls (in_top built))
        (split-line params_line (text_of params []) params_line-Lacks)
    ∙ parse_lines-header (split b'\n' (text_of params [])) built
    ∙ parse_lines-text_of in_params set_param store-params params [] built k
    ∙ parse_lines-end (put_all set_param params built)
    ∙ ap ok (put_all-file_of top params d e)
