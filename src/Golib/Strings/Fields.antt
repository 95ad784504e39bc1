-- ===== src/Golib/Strings/Fields.antt =====
-- `strings.Fields`: the words between runs of whitespace.
use go_certbot.Prelude.{ℕ, zero, suc, List, [], ◌∷◌, Bytes, length, if◌then◌else◌}
use go_certbot.Golib.Strings.Scan.{scan}
use go_certbot.Golib.Utf8.{decode_rune, is_space, space_width}

-- The width of a rune that is no space, 0 at a space or the end.
unfoldable pub word_width : Bytes → ℕ
unfolding decode_rune is_space
word_width [] = 0
word_width (c ∷ s) = let (r, w) = decode_rune (c ∷ s) in if is_space r then 0 else w

-- One word in each round; `s` stands behind its leading whitespace.
unfoldable pub fields_from : ℕ → Bytes → List Bytes
unfolding scan word_width space_width
fields_from zero s = []
fields_from (suc fuel) [] = []
fields_from (suc fuel) (c ∷ s) =
    let (word, rest) = scan word_width (length (c ∷ s)) (c ∷ s) in
    word ∷ fields_from fuel (scan space_width (length rest) rest).1

unfoldable pub fields : Bytes → List Bytes
unfolding fields_from
fields s = fields_from (length s) (scan space_width (length s) s).1
