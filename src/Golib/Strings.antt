-- ===== src/Golib/Strings.antt =====
-- `strings`: prefixes, suffixes, trimming, splitting.
pub mod Scan
pub mod Split
pub mod Fields
pub mod Sort
pub mod Laws
pub mod Index
pub mod Ends
use go_certbot.Prelude.{
  ℕ, zero, suc, ◌+◌, Bool, true, false, not, ◌&&◌, ◌||◌, List, [], ◌∷◌, ◌++◌, map, reverse, Bytes,
  length, ltb, leb, ◌==◌, within, if◌then◌else◌, drop,
}
use go_certbot.Golib.Utf8.{space_width, last_space_width}
use Scan.{scan}

-- `a == b` on strings.
unfoldable pub equal : Bytes → Bytes → Bool
equal [] [] = true
equal (x ∷ xs) (y ∷ ys) = x == y && equal xs ys
equal _ _ = false

unfoldable pub has_prefix : Bytes → Bytes → Bool
has_prefix s [] = true
has_prefix [] (y ∷ ys) = false
has_prefix (x ∷ xs) (y ∷ ys) = x == y && has_prefix xs ys

unfoldable pub trim_prefix : Bytes → Bytes → Bytes
unfolding has_prefix
trim_prefix s p = if has_prefix s p then drop (length p) s else s

unfoldable pub has_suffix : Bytes → Bytes → Bool
unfolding has_prefix
has_suffix s p = has_prefix (reverse s) (reverse p)

unfoldable pub trim_suffix : Bytes → Bytes → Bytes
unfolding has_suffix
trim_suffix s p = if has_suffix s p then reverse (drop (length p) (reverse s)) else s

-- `strings.TrimSpace`.
unfoldable pub trim_space : Bytes → Bytes
unfolding scan space_width last_space_width
trim_space s =
    let left = (scan space_width (length s) s).1 in
    reverse (scan last_space_width (length left) (reverse left)).1

-- `strings.ToLower` on ASCII; a byte above 127 stays.
unfoldable pub lower_byte : ℕ → ℕ
lower_byte c = if within b'A' b'Z' c then c + 32 else c

unfoldable pub to_lower : Bytes → Bytes
unfolding lower_byte
to_lower = map lower_byte
