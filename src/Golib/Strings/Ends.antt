-- ===== src/Golib/Strings/Ends.antt =====
-- Strings that begin and end with a visible ASCII byte, which `strings.TrimSpace` leaves alone.
use mathlib.Core.List.{reverse-append, reverse-reverse}
use go_certbot.Prelude.{
  ltb, length-append, ℕ, zero, suc, ◌≡◌, refl, ap, ◌∙◌, true, false, [], ◌∷◌, ◌++◌, append_assoc,
  reverse, Bytes, length, within, arith,
}
use go_certbot.Golib.Strings.Scan.{scan}
use go_certbot.Golib.Strings.{trim_space}
use go_certbot.Golib.Utf8.{decode_rune, decode_last, is_space, space_width, last_space_width}

abbrev pub IsVisible : ℕ → Type 0
IsVisible c = within 33 126 c ≡ true

pub record Ends (s : Bytes) : Type 0 where
  pub first : ℕ
  pub tail : Bytes
  pub begins : s ≡ first ∷ tail
  pub first_seen : IsVisible first
  pub last : ℕ
  pub front : Bytes
  pub finishes : reverse s ≡ last ∷ front
  pub last_seen : IsVisible last

ascii : (c : ℕ) → IsVisible c → ltb c 0x80 ≡ true
ascii c h = ground arith

not_space : (c : ℕ) → IsVisible c → is_space c ≡ false
unfolding is_space
not_space c h = ground arith

decode_rune-ascii : (c : ℕ) (s : Bytes) → ltb c 0x80 ≡ true → decode_rune (c ∷ s) ≡ (c, 1)
unfolding decode_rune
decode_rune-ascii c s h = rw h

decode_last-ascii : (c : ℕ) (s : Bytes) → ltb c 0x80 ≡ true → decode_last (c ∷ s) ≡ (c, 1)
unfolding decode_last
decode_last-ascii c s h = rw h

space_width-visible : (c : ℕ) (s : Bytes) → IsVisible c → space_width (c ∷ s) ≡ 0
unfolding space_width
space_width-visible c s h = rw (decode_rune-ascii c s (ascii c h)) (rw (not_space c h))

last_space_width-visible : (c : ℕ) (s : Bytes) → IsVisible c → last_space_width (c ∷ s) ≡ 0
unfolding last_space_width
last_space_width-visible c s h = rw (decode_last-ascii c s (ascii c h)) (rw (not_space c h))

scan_stopped :
    (width : Bytes → ℕ) (fuel : ℕ) (s : Bytes) → width s ≡ 0 → scan width fuel s ≡ ([], s)
unfolding scan
scan_stopped width zero s h = refl
scan_stopped width (suc fuel) s h = rw (h, scan)

scan-one :
    (width : Bytes → ℕ) (fuel c : ℕ) (s : Bytes)
    → width (c ∷ s) ≡ 1
    → width s ≡ 0
    → (scan width (suc fuel) (c ∷ s)).1 ≡ s
unfolding scan
scan-one width fuel c s h k = rw (h, scan) (rw (scan_stopped width fuel s k) refl)

space_width-blank : (s : Bytes) → space_width (b' ' ∷ s) ≡ 1
unfolding space_width decode_rune is_space
space_width-blank s = refl

last_space_width-blank : (s : Bytes) → last_space_width (b' ' ∷ s) ≡ 1
unfolding last_space_width decode_last is_space
last_space_width-blank s = refl

module _ {s : Bytes} (e : Ends s) where
  pub space_width-Ends : (t : Bytes) → space_width (s ++ t) ≡ 0
  space_width-Ends t = rw (e.begins) (space_width-visible (e.first) (e.tail ++ t) (e.first_seen))

  last_space_width-Ends : last_space_width (reverse s) ≡ 0
  last_space_width-Ends =
      rw (e.finishes) (last_space_width-visible (e.last) (e.front) (e.last_seen))

  space_width-Ends_self : space_width s ≡ 0
  space_width-Ends_self = rw (e.begins) (space_width-visible (e.first) (e.tail) (e.first_seen))

  pub trim_space-Ends : trim_space s ≡ s
  unfolding trim_space
  trim_space-Ends = rw (scan_stopped space_width (length s) s space_width-Ends_self) (
      rw (scan_stopped last_space_width (length s) (reverse s) last_space_width-Ends)
        (reverse-reverse s))

  pub trim_space-blank_Ends : trim_space (b' ' ∷ s) ≡ s
  unfolding trim_space
  trim_space-blank_Ends =
      rw (scan-one space_width (length s) b' ' s (space_width-blank s) space_width-Ends_self) (
        rw (scan_stopped last_space_width (length s) (reverse s) last_space_width-Ends)
          (reverse-reverse s))

  pub trim_space-Ends_blank : trim_space (s ++ b' ' ∷ []) ≡ s
  unfolding trim_space
  trim_space-Ends_blank =
      rw
        (scan_stopped space_width (length (s ++ b' ' ∷ [])) (s ++ b' ' ∷ [])
          (space_width-Ends (b' ' ∷ [])))
        (rw (reverse-append s (b' ' ∷ []), one_more)
          (ap reverse (
              scan-one last_space_width (length s) b' ' (reverse s)
                (last_space_width-blank (reverse s)) last_space_width-Ends)
            ∙ reverse-reverse s))
    where
      one_more : length (s ++ b' ' ∷ []) ≡ suc (length s)
      one_more = omega (arith, length-append s (b' ' ∷ []))

pub Ends-append : {s t : Bytes} (x : Bytes) → Ends s → Ends t → Ends (s ++ (x ++ t))
Ends-append {s} {t} x e f = record {
  first = e.first;
  tail = e.tail ++ (x ++ t);
  begins = ap (λ z. z ++ (x ++ t)) (e.begins);
  first_seen = e.first_seen;
  last = f.last;
  front = f.front ++ (reverse x ++ reverse s);
  finishes =
      reverse-append s (x ++ t)
      ∙ ap (λ z. z ++ reverse s) (reverse-append x t ∙ ap (λ z. z ++ reverse x) (f.finishes))
      ∙ append_assoc (f.last ∷ f.front) (reverse x) (reverse s);
  last_seen = f.last_seen;
}
