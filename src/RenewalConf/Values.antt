-- ===== src/RenewalConf/Values.antt =====
-- The text of a value: `formatValue`, `unquote`, `stripInlineComment`, and the readers `Bool`, `Int`
-- and `List` of internal/storage/renewalconf/renewalconf.go.
use go_certbot.Prelude.{
  ℕ, ◌-◌, Bool, true, false, not, ◌&&◌, ◌||◌, List, [], ◌∷◌, ◌++◌, Option, none, some, Bytes, codes,
  length, take, drop, ◌==◌, if◌then◌else◌,
}
use go_certbot.Golib.Map.{Map, get}
use go_certbot.Golib.Strconv.{atoi}
use go_certbot.Golib.Strings.Index.{later, contains_byte, trim_right_blanks}
use go_certbot.Golib.Strings.Split.{split, join}
use go_certbot.Golib.Strings.{equal, trim_space, to_lower}
use go_certbot.Prelude.Int.{ℤ}

-- The last byte, behind the first.
abbrev pub last_byte : ℕ → Bytes → ℕ
last_byte c [] = c
last_byte c (d ∷ s) = last_byte d s

-- Two bytes at least, the same quote at both ends.
unfoldable pub is_quoted : Bytes → Bool
is_quoted [] = false
is_quoted (c ∷ []) = false
is_quoted (c ∷ d ∷ s) =
    (c == b'"' && last_byte d s == b'"') || (c == b'\'' && last_byte d s == b'\'')

abbrev keep_item : Bytes → List Bytes → List Bytes
keep_item [] items = items
keep_item (c ∷ s) items = (c ∷ s) ∷ items

-- The items of a list, trimmed, the empty ones left out.
unfoldable pub items_of : List Bytes → List Bytes
unfolding trim_space
items_of [] = []
items_of (p ∷ ps) = let rest = items_of ps in keep_item (trim_space p) rest

abbrev pub join_items : List Bytes → Bytes
join_items [] = join (codes ", ") []
join_items (item ∷ []) = item ++ codes ","
join_items (item ∷ more ∷ rest) = join (codes ", ") (item ∷ more ∷ rest)

abbrev pub needs_quotes : Bytes → Bool
needs_quotes v = contains_byte b'"' v || (contains_byte b'#' v || contains_byte b'\n' v)

abbrev pub in_quotes : ℕ → Bytes → Bytes
in_quotes q v = q ∷ v ++ q ∷ []

abbrev pub format_nonempty : Bytes → Bytes
format_nonempty v =
    if is_quoted v
    then v
    else if contains_byte b',' v
    then join_items (items_of (split b',' v))
    else if not (needs_quotes v) && equal v (trim_space v)
    then v
    else if not (contains_byte b'"' v)
    then in_quotes b'"' v
    else in_quotes b'\'' v

unfoldable pub format_value : Bytes → Bytes
unfolding is_quoted contains_byte items_of join split equal trim_space
format_value [] = []
format_value (c ∷ v) = format_nonempty (c ∷ v)

-- `v[1 : len(v)-1]`
abbrev pub inside : Bytes → Bytes
inside v = take (length v - 2) (drop 1 v)

unfoldable pub unquote : Bytes → Bytes
unfolding is_quoted trim_space
unquote v = let t = trim_space v in if is_quoted t then inside t else t

-- The index of the `#` that starts a comment. The Booleans are `inSingle` and `inDouble`; a
-- backslash takes the byte behind it along, if there is one.
unfoldable pub comment_at : Bool → Bool → Bytes → Option ℕ
comment_at single double [] = none
comment_at single double (c ∷ []) = if c == b'#' && (not single && not double) then some 0 else none
comment_at single double (c ∷ d ∷ s) =
    let escaped = later (later (comment_at single double s)) in
    let in_double = later (comment_at single (not double) (d ∷ s)) in
    let in_single = later (comment_at (not single) double (d ∷ s)) in
    let plain = later (comment_at single double (d ∷ s)) in
    if c == b'\\'
    then escaped
    else if c == b'"' && not single
    then in_double
    else if c == b'\'' && not double
    then in_single
    else if c == b'#' && (not single && not double)
    then some 0
    else plain

abbrev pub before_comment : Bytes → Option ℕ → Bytes
before_comment v none = v
before_comment v (some i) = trim_right_blanks (take i v)

unfoldable pub strip_inline_comment : Bytes → Bytes
unfolding comment_at trim_right_blanks
strip_inline_comment v = before_comment v (comment_at false false v)

abbrev is_one_of : List Bytes → Bytes → Bool
is_one_of [] v = false
is_one_of (w ∷ ws) v = equal w v || is_one_of ws v

abbrev bool_text : Bytes → Bool
bool_text = is_one_of (codes "true" ∷ codes "yes" ∷ codes "on" ∷ codes "1" ∷ [])

abbrev bool_of : Option Bytes → Bool × Bool
bool_of none = (false, false)
bool_of (some v) = (bool_text (to_lower (trim_space v)), true)

-- `Bool`: the value, and whether the key is present. Every text but the four for true is false.
unfoldable pub bool_param : Bytes → Map Bytes → Bool × Bool
unfolding get equal to_lower trim_space
bool_param name params = bool_of (get name params)

-- What `Int` returns: the number, `absent`, or `not_int` for its error.
pub data IntParam : Type 0 where
  absent not_int : IntParam
  int : ℤ → IntParam

abbrev int_of_text : Option ℤ → IntParam
int_of_text none = not_int
int_of_text (some n) = int n

abbrev int_of : Option Bytes → IntParam
int_of none = absent
int_of (some v) = int_of_text (atoi (trim_space v))

unfoldable pub int_param : Bytes → Map Bytes → IntParam
unfolding get atoi trim_space
int_param name params = int_of (get name params)

unfoldable pub list_items : List Bytes → List Bytes
unfolding unquote
list_items [] = []
list_items (p ∷ ps) = let rest = list_items ps in keep_item (trim_space (unquote p)) rest

abbrev list_of : Option Bytes → Option (List Bytes)
list_of none = none
list_of (some v) = some (list_items (split b',' v))

-- `List`: `none` is an absent key.
unfoldable pub list_param : Bytes → Map Bytes → Option (List Bytes)
unfolding get split list_items
list_param name params = list_of (get name params)
