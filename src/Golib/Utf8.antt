-- ===== src/Golib/Utf8.antt =====
-- `unicode/utf8` decoding and `unicode.IsSpace`.
use go_certbot.Prelude.{
  ℕ, zero, suc, ◌+◌, ◌-◌, ◌*◌, Bool, ◌&&◌, ◌||◌, [], ◌∷◌, Bytes, length, ltb, ◌==◌, within,
  if◌then◌else◌,
}

abbrev continuation : ℕ → Bool
continuation = within 0x80 0xBF

-- `utf8.RuneError` with the width that an invalid encoding has.
abbrev rune_error : ℕ × ℕ
rune_error = (0xFFFD, 1)

-- The range of the second byte, which excludes overlong forms, surrogates and runes out of range.
second_ok : ℕ → ℕ → Bool
second_ok a b =
    if a == 0xE0
    then within 0xA0 0xBF b
    else if a == 0xED
    then within 0x80 0x9F b
    else if a == 0xF0
    then within 0x90 0xBF b
    else if a == 0xF4
    then within 0x80 0x8F b
    else continuation b

decode_two : ℕ → Bytes → ℕ × ℕ
decode_two a (b ∷ _) = if continuation b then ((a - 0xC0) * 64 + (b - 0x80), 2) else rune_error
decode_two a _ = rune_error

decode_three : ℕ → Bytes → ℕ × ℕ
decode_three a (b ∷ c ∷ _) =
    if second_ok a b && continuation c
    then ((a - 0xE0) * 4096 + (b - 0x80) * 64 + (c - 0x80), 3)
    else rune_error
decode_three a _ = rune_error

decode_four : ℕ → Bytes → ℕ × ℕ
decode_four a (b ∷ c ∷ d ∷ _) =
    if second_ok a b && continuation c && continuation d
    then ((a - 0xF0) * 262144 + (b - 0x80) * 4096 + (c - 0x80) * 64 + (d - 0x80), 4)
    else rune_error
decode_four a _ = rune_error

-- `utf8.DecodeRuneInString`: the rune and its width.
unfoldable pub decode_rune : Bytes → ℕ × ℕ
unfolding second_ok decode_two decode_three decode_four
decode_rune [] = (0xFFFD, 0)
decode_rune (a ∷ rest) =
    if ltb a 0x80
    then (a, 1)
    else if within 0xC2 0xDF a
    then decode_two a rest
    else if within 0xE0 0xEF a
    then decode_three a rest
    else if within 0xF0 0xF4 a
    then decode_four a rest
    else rune_error

-- `unicode.IsSpace`.
unfoldable pub is_space : ℕ → Bool
is_space r =
    within 9 13 r
    || r == 0x20
    || r == 0x85
    || r == 0xA0
    || r == 0x1680
    || within 0x2000 0x200A r
    || within 0x2028 0x2029 r
    || r == 0x202F
    || r == 0x205F
    || r == 0x3000

abbrev whole : Bytes → ℕ × ℕ → ℕ × ℕ
whole suffix (r, w) = if w == length suffix then (r, w) else rune_error

-- The loop of `utf8.DecodeLastRuneInString` back to the start of a rune, four bytes at most; the
-- bytes still to the left are given last byte first.
last_from : ℕ → Bytes → Bytes → ℕ × ℕ
last_from zero suffix rest = whole suffix (decode_rune suffix)
last_from (suc k) suffix [] = whole suffix (decode_rune suffix)
last_from (suc k) suffix (b ∷ rest) =
    let more = last_from k (b ∷ suffix) rest in
    if continuation b then more else whole (b ∷ suffix) (decode_rune (b ∷ suffix))

-- `utf8.DecodeLastRuneInString` of a string given last byte first.
unfoldable pub decode_last : Bytes → ℕ × ℕ
unfolding last_from decode_rune
decode_last [] = (0xFFFD, 0)
decode_last (a ∷ rest) = if ltb a 0x80 then (a, 1) else last_from 3 (a ∷ []) rest

-- The width of a space at the front, 0 if there is none.
unfoldable pub space_width : Bytes → ℕ
unfolding decode_rune is_space
space_width [] = 0
space_width (a ∷ s) = let (r, w) = decode_rune (a ∷ s) in if is_space r then w else 0

-- The width of a space at the end of a string given last byte first.
unfoldable pub last_space_width : Bytes → ℕ
unfolding decode_last is_space
last_space_width [] = 0
last_space_width (a ∷ s) = let (r, w) = decode_last (a ∷ s) in if is_space r then w else 0
