-- ===== src/Nginx/Names.antt =====
-- `serverNameScore` and `nameMatchScore` of internal/plugins/nginx/configurator.go.
pub mod Exact
use go_certbot.Prelude.{
  ℕ, suc, ◌+◌, ◌-◌, Bool, true, false, not, ◌&&◌, ◌||◌, List, [], ◌∷◌, ◌++◌, reverse, Option, none,
  some, Bytes, codes, length, take, drop, ltb, ◌==◌, if◌then◌else◌,
}
use go_certbot.Golib.Strings.{equal, has_prefix, has_suffix, trim_prefix, to_lower}
use go_certbot.Nginx.Ast.{Directive, Node, Nodes, directive, block, remark, nil, cons}

-- `regexp.Compile`: the test that a pattern stands for.
abbrev pub Compile : Type 0
Compile = Bytes → Option (Bytes → Bool)

abbrev is_quote : ℕ → Bool
is_quote c = c == b'"' || c == b'\''

abbrev trim_left_quotes : Bytes → Bytes
trim_left_quotes [] = []
trim_left_quotes (c ∷ s) = let rest = trim_left_quotes s in if is_quote c then rest else c ∷ s

-- `strings.Trim` of both quotes, in lower case.
unfoldable pub name_of : Bytes → Bytes
unfolding to_lower
name_of raw = to_lower (reverse (trim_left_quotes (reverse (trim_left_quotes raw))))

-- A `*` behind the `~` is for a pattern without regard to case.
abbrev pub pattern_of : Bytes → Bytes
pattern_of name =
    let pat = trim_prefix name (codes "~") in
    if has_prefix pat (codes "*") then codes "(?i)" ++ trim_prefix pat (codes "*") else pat

abbrev pub match_score : Option (Bytes → Bool) → Bytes → ℕ
match_score none dom = 0
match_score (some re) dom = if re dom then 100 else 0

unfoldable pub regex_score : Compile → Bytes → Bytes → ℕ
unfolding has_prefix trim_prefix
regex_score compile name dom =
    if has_prefix name (codes "~") then match_score (compile (pattern_of name)) dom else 0

unfoldable pub end_score : Compile → Bytes → Bytes → ℕ
unfolding regex_score has_suffix
end_score compile name dom =
    if has_suffix name (codes ".*") && has_prefix dom (take (length name - 1) name)
    then 400 + length name
    else regex_score compile name dom

unfoldable pub dot_score : Compile → Bytes → Bytes → ℕ
unfolding end_score equal
dot_score compile name dom =
    if has_prefix name (codes ".") && (equal dom (drop 1 name) || has_suffix dom name)
    then 500 + length name
    else end_score compile name dom

unfoldable pub star_score : Compile → Bytes → Bytes → ℕ
unfolding dot_score
star_score compile name dom =
    if has_prefix name (codes "*.") && has_suffix dom (drop 1 name)
    then 500 + length name
    else dot_score compile name dom

-- The forms of a name, in the source's order.
unfoldable pub name_match_score : Compile → Bytes → Bytes → ℕ
unfolding star_score
name_match_score compile [] dom = 0
name_match_score compile (c ∷ s) dom =
    if equal (c ∷ s) dom then 1000 + length (c ∷ s) else star_score compile (c ∷ s) dom

-- `if score > best { best = score }`
abbrev pub raise : ℕ → ℕ → ℕ
raise best score = if ltb best score then score else best

unfoldable pub args_score : Compile → Bytes → ℕ → List Bytes → ℕ
unfolding name_match_score name_of
args_score compile dom best [] = best
args_score compile dom best (raw ∷ args) =
    args_score compile dom (raise best (name_match_score compile (name_of raw) dom)) args

abbrev pub node_score : Compile → Bytes → ℕ → Node → ℕ
node_score compile dom best (directive d) =
    if equal d.name (codes "server_name") then args_score compile dom best d.args else best
node_score compile dom best (block b body) = best
node_score compile dom best (remark c) = best

unfoldable pub score_from : Compile → Bytes → ℕ → Nodes → ℕ
unfolding args_score
score_from compile dom best nil = best
score_from compile dom best (cons n ns) = score_from compile dom (node_score compile dom best n) ns

unfoldable pub server_name_score : Compile → Nodes → Bytes → ℕ
unfolding score_from
server_name_score compile body dom = score_from compile dom 0 body
