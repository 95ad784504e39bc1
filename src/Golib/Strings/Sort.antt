-- ===== src/Golib/Strings/Sort.antt =====
-- `sort.Strings`: the bytes decide, and a prefix comes first.
use go_certbot.Prelude.{
  Bool, true, false, ◌&&◌, ◌||◌, List, [], ◌∷◌, Bytes, ltb, ◌==◌, if◌then◌else◌,
}

unfoldable pub leb_string : Bytes → Bytes → Bool
leb_string [] b = true
leb_string (x ∷ a) [] = false
leb_string (x ∷ a) (y ∷ b) = ltb x y || (x == y && leb_string a b)

unfoldable pub insert_string : Bytes → List Bytes → List Bytes
unfolding leb_string
insert_string s [] = s ∷ []
insert_string s (t ∷ ts) = if leb_string s t then s ∷ t ∷ ts else t ∷ insert_string s ts

unfoldable pub sort_strings : List Bytes → List Bytes
unfolding insert_string
sort_strings [] = []
sort_strings (s ∷ ss) = insert_string s (sort_strings ss)
