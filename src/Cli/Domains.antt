-- ===== src/Cli/Domains.antt =====
-- `normalizeDomains` of internal/cmd/flags.go.
pub mod Distinct
use go_certbot.Prelude.{Bool, true, false, ◌||◌, List, [], ◌∷◌, ◌++◌, Bytes, codes, if◌then◌else◌}
use go_certbot.Golib.Strings.{equal, trim_space, to_lower, trim_suffix}

unfoldable pub contains : List Bytes → Bytes → Bool
contains [] s = false
contains (x ∷ xs) s = equal x s || contains xs s

-- One entry: trimmed, in lower case, without one trailing dot.
unfoldable pub normal : Bytes → Bytes
normal raw = trim_suffix (to_lower (trim_space raw)) (codes ".")

abbrev pub is_empty : Bytes → Bool
is_empty [] = true
is_empty (c ∷ s) = false

-- The loop, over the list built so far; `seen` holds exactly its elements.
unfoldable pub normalize_onto : List Bytes → List Bytes → List Bytes
unfolding contains
normalize_onto out [] = out
normalize_onto out (raw ∷ rest) =
    normalize_onto
      (if is_empty (normal raw) || contains out (normal raw) then out else out ++ normal raw ∷ [])
      rest

unfoldable pub normalize_domains : List Bytes → List Bytes
unfolding normalize_onto normal
normalize_domains domains = normalize_onto [] domains
