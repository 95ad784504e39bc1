-- ===== src/RenewalConf/Parse.antt =====
-- `parse` of internal/storage/renewalconf/renewalconf.go.
use go_certbot.Prelude.{
  ℕ, ◌+◌, ◌-◌, Bool, true, false, not, ◌&&◌, ◌||◌, List, [], ◌∷◌, Option, none, some, Bytes, codes,
  length, take, drop, ltb, if◌then◌else◌, Result, ok, err,
}
use go_certbot.Golib.Strings.Index.{index_byte}
use go_certbot.Golib.Strings.Split.{split}
use go_certbot.Golib.Strings.{equal, has_prefix, has_suffix, trim_space}
use go_certbot.RenewalConf.Values.{strip_inline_comment}
use go_certbot.RenewalConf.{
  File, new_file, set_top, set_param, open_nested, open_section, put_nested, put_section,
}

-- `nil_map` is Go's panic for a write to a map that is not there.
pub data ParseError : Type 0 where
  malformed : Bytes → ParseError
  line_too_long nil_map : ParseError

-- The variables of the loop.
pub record Scope : Type 0 where
  pub section : Bytes
  pub nested_name : Bytes
  pub file : File

abbrev pub params_section : Bytes
params_section = codes "renewalparams"

abbrev pub is_nil : Bytes → Bool
is_nil [] = true
is_nil (c ∷ s) = false

-- A header of two brackets.
unfoldable pub enter_nested : Bytes → Scope → Scope
enter_nested name s = record s { nested_name = name; file = open_nested name s.file }

-- A header of one bracket.
unfoldable pub enter_section : Bytes → Scope → Scope
enter_section name s =
    if equal name params_section
    then record s { section = name; nested_name = [] }
    else record s { section = name; nested_name = []; file = open_section name s.file }

abbrev pub with_file : Option File → Scope → Result ParseError Scope
with_file none s = err nil_map
with_file (some f) s = ok (record s { file = f })

-- The switch on the scope, for a key and its value.
unfoldable pub store : Bytes → Bytes → Scope → Result ParseError Scope
store key value s =
    if not (is_nil s.nested_name) && equal s.section params_section
    then with_file (put_nested s.nested_name key value s.file) s
    else if is_nil s.section
    then ok (record s { file = set_top key value s.file })
    else if equal s.section params_section
    then ok (record s { file = set_param key value s.file })
    else with_file (put_section s.section key value s.file) s

abbrev pub key_of : Bytes → ℕ → Bytes
key_of trimmed i = trim_space (take i trimmed)

abbrev pub value_of : Bytes → ℕ → Bytes
value_of trimmed i = strip_inline_comment (trim_space (drop (i + 1) trimmed))

abbrev pub assign : Bytes → Bytes → Option ℕ → Scope → Result ParseError Scope
assign line trimmed none s = err (malformed line)
assign line trimmed (some i) s = store (key_of trimmed i) (value_of trimmed i) s

-- `trimmed[k : len(trimmed)-k]`
abbrev pub between : ℕ → Bytes → Bytes
between k trimmed = take (length trimmed - (k + k)) (drop k trimmed)

-- One round of the loop.
unfoldable pub parse_line : Bytes → Scope → Result ParseError Scope
parse_line line s =
    let trimmed = trim_space line in
    if is_nil trimmed || has_prefix trimmed (codes "#")
    then ok s
    else if has_prefix trimmed (codes "[[") && has_suffix trimmed (codes "]]")
    then ok (enter_nested (trim_space (between 2 trimmed)) s)
    else if has_prefix trimmed (codes "[") && has_suffix trimmed (codes "]")
    then ok (enter_section (trim_space (between 1 trimmed)) s)
    else assign line trimmed (index_byte b'=' trimmed) s

-- `bufio.ScanLines`: the lines without their ends; what stands behind the last newline is a line
-- unless it is empty.
abbrev pub drop_cr : Bytes → Bytes
drop_cr line = if has_suffix line (codes "\r") then take (length line - 1) line else line

-- `bufio.MaxScanTokenSize`: a line has to fit in the buffer with its newline.
abbrev pub max_line : ℕ
max_line = 65535

abbrev pub and_then :
    Result ParseError Scope → (Scope → Result ParseError File) → Result ParseError File
and_then (err e) f = err e
and_then (ok s) f = f s

abbrev pub no_more : List Bytes → Bool
no_more [] = true
no_more (l ∷ ls) = false

unfoldable pub parse_lines : List Bytes → Scope → Result ParseError File
unfolding parse_line
parse_lines [] s = ok s.file
parse_lines (line ∷ lines) s =
    let parsed = and_then (parse_line (drop_cr line) s) λ t. parse_lines lines t in
    if is_nil line && no_more lines
    then ok s.file
    else if ltb max_line (length line)
    then err line_too_long
    else parsed

abbrev pub start : Scope
start = record { section = []; nested_name = []; file = new_file }

unfoldable pub parse : Bytes → Result ParseError File
unfolding parse_lines split
parse b = parse_lines (split b'\n' b) start
