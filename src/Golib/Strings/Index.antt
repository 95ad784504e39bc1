-- ===== src/Golib/Strings/Index.antt =====
-- `strings.Index` for one byte, `strings.Contains` for one byte, and `strings.TrimLeft` and
-- `strings.TrimRight` of blanks and tabs.
use go_certbot.Prelude.{
  ℕ, suc, ◌≡◌, refl, Bool, true, false, ◌||◌, [], ◌∷◌, ◌++◌, reverse, Option, none, some, Bytes,
  length, All, ◌==◌, ==_refl, if◌then◌else◌,
}

abbrev pub later : Option ℕ → Option ℕ
later none = none
later (some i) = some (suc i)

unfoldable pub index_byte : ℕ → Bytes → Option ℕ
index_byte b [] = none
index_byte b (c ∷ s) = let rest = index_byte b s in if c == b then some 0 else later rest

unfoldable pub contains_byte : ℕ → Bytes → Bool
contains_byte b [] = false
contains_byte b (c ∷ s) = c == b || contains_byte b s

abbrev pub is_blank : ℕ → Bool
is_blank c = c == b' ' || c == b'\t'

-- `strings.TrimLeft(s, " \t")`.
unfoldable pub trim_left_blanks : Bytes → Bytes
trim_left_blanks [] = []
trim_left_blanks (c ∷ s) = let rest = trim_left_blanks s in if is_blank c then rest else c ∷ s

-- `strings.TrimRight(s, " \t")`.
unfoldable pub trim_right_blanks : Bytes → Bytes
unfolding trim_left_blanks
trim_right_blanks s = reverse (trim_left_blanks (reverse s))

-- A byte does not occur.
abbrev pub Lacks : ℕ → Bytes → Type 0
Lacks b = All (λ c. (c == b) ≡ false)

pub index_byte-append :
    (b : ℕ) (s t : Bytes) → Lacks b s → index_byte b (s ++ b ∷ t) ≡ some (length s)
unfolding index_byte
index_byte-append b [] t h = rw (==_refl b)
index_byte-append b (c ∷ s) t h = rw (h.0, index_byte-append b s t h.1)

pub index_byte-Lacks : (b : ℕ) (s : Bytes) → Lacks b s → index_byte b s ≡ none
unfolding index_byte
index_byte-Lacks b [] h = refl
index_byte-Lacks b (c ∷ s) h = rw (h.0, index_byte-Lacks b s h.1)

pub contains_byte-Lacks : (b : ℕ) (s : Bytes) → Lacks b s → contains_byte b s ≡ false
unfolding contains_byte
contains_byte-Lacks b [] h = refl
contains_byte-Lacks b (c ∷ s) h = rw (h.0) (contains_byte-Lacks b s h.1)

or_false : (x y : Bool) → (x || y) ≡ false → (x ≡ false) × (y ≡ false)
or_false false false h = (refl, refl)
or_false false true h = cc
or_false true y h = cc

-- The test for a byte, on a literal.
pub Lacks-contains_byte : (b : ℕ) (s : Bytes) → contains_byte b s ≡ false → Lacks b s
unfolding contains_byte
Lacks-contains_byte b [] h = tt
Lacks-contains_byte b (c ∷ s) h =
    let parts = or_false (c == b) (contains_byte b s) h in
    (parts.0, Lacks-contains_byte b s (parts.1))
