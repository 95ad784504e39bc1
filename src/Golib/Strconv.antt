-- ===== src/Golib/Strconv.antt =====
-- `strconv.Itoa` on numbers from 0, and `strconv.Atoi` with its 64-bit range.
use go_certbot.Prelude.{
  ℕ, zero, suc, ◌+◌, ◌-◌, ◌*◌, ◌/◌, ◌%◌, ◌^◌, ◌<◌, ◌≤◌, ◌≡◌, ap, Bool, true, false, [], ◌∷◌, Option,
  none, some, Bytes, ltb, leb, ◌==◌, within, if◌then◌else◌, Bool-cases, inl, inr, arith, ltb→lt,
  ◌∙◌, if-property,
}
use native.Mathlib.Nat.{zero-add}
use go_certbot.Prelude.Int.{ℤ, pos, negsuc}

-- The digits of `n` in front of `rest`.
itoa_onto : ℕ → ℕ → Bytes → Bytes
itoa_onto zero n rest = rest
itoa_onto (suc fuel) n rest =
    let more = itoa_onto fuel (n / 10) ((b'0' + n % 10) ∷ rest) in
    if ltb n 10 then (b'0' + n) ∷ rest else more

unfoldable pub itoa : ℕ → Bytes
unfolding itoa_onto
itoa n = itoa_onto (suc n) n []

-- `strconv.Itoa` on an `int`.
abbrev pub itoa_int : ℤ → Bytes
itoa_int (pos n) = itoa n
itoa_int (negsuc n) = b'-' ∷ itoa (suc n)

-- The value of a run of digits behind the value `n`; `none` at any other byte.
unfoldable pub parse_digits : ℕ → Bytes → Option ℕ
parse_digits n [] = some n
parse_digits n (c ∷ s) =
    let rest = parse_digits (n * 10 + (c - b'0')) s in if within b'0' b'9' c then rest else none

abbrev pub max_int : ℕ
max_int = 2 ^ 63 - 1

-- A sign and at least one digit, within the range of `int`.
abbrev pub signed : Bool → Option ℕ → Option ℤ
signed b none = none
signed false (some n) = if leb n max_int then some (pos n) else none
signed true (some zero) = some (pos 0)
signed true (some (suc n)) = if leb n max_int then some (negsuc n) else none

unsigned : Bool → Bytes → Option ℤ
unsigned b [] = none
unsigned b (c ∷ s) = signed b (parse_digits 0 (c ∷ s))

unfoldable pub atoi : Bytes → Option ℤ
unfolding unsigned parse_digits
atoi [] = none
atoi (c ∷ s) =
    if c == b'-'
    then unsigned true s
    else if c == b'+'
    then unsigned false s
    else unsigned false (c ∷ s)

digit : (d : ℕ) → d < 10 → within b'0' b'9' (b'0' + d) ≡ true
digit d h = ground arith

digit_value :
    (n d : ℕ) (rest : Bytes)
    → d < 10
    → parse_digits n ((b'0' + d) ∷ rest) ≡ parse_digits (n * 10 + d) rest
unfolding parse_digits
digit_value n d rest h = rw (digit d h) (ap (λ (k : ℕ). parse_digits k rest) (omega arith))

parse_digits-itoa_onto :
    (fuel n : ℕ) (rest : Bytes)
    → n < fuel
    → parse_digits 0 (itoa_onto fuel n rest) ≡ parse_digits n rest
unfolding itoa_onto parse_digits
parse_digits-itoa_onto zero n rest h = absurd (omega arith)
parse_digits-itoa_onto (suc fuel) n rest h = elim (Bool-cases (ltb n 10)) [
  | inl e ↦ rw e (digit_value 0 n rest (ltb→lt n 10 e) ∙ rw (zero-add n))
  | inr e ↦ rw e (
      parse_digits-itoa_onto fuel (n / 10) _ (ground arith)
      ∙ digit_value (n / 10) (n % 10) rest (omega arith)
      ∙ ap (λ (k : ℕ). parse_digits k rest) (omega arith))
]

pub parse_digits-itoa : (n : ℕ) → parse_digits 0 (itoa n) ≡ some n
unfolding itoa parse_digits
parse_digits-itoa n = parse_digits-itoa_onto (suc n) n [] (omega arith)

pub itoa_injective : (m n : ℕ) → itoa m ≡ itoa n → m ≡ n
itoa_injective m n h = cc (parse_digits-itoa m, parse_digits-itoa n, ap (parse_digits 0) h)

-- A decimal starts with a digit.
abbrev StartsWithDigit : Bytes → Type 0
StartsWithDigit [] = ⊥
StartsWithDigit (c ∷ s) = within b'0' b'9' c ≡ true

itoa_onto-StartsWithDigit :
    (fuel n : ℕ) (rest : Bytes) → n < fuel → StartsWithDigit (itoa_onto fuel n rest)
unfolding itoa_onto
itoa_onto-StartsWithDigit zero n rest h = absurd (omega arith)
itoa_onto-StartsWithDigit (suc fuel) n rest h = elim (Bool-cases (ltb n 10)) [
  | inl e ↦ rw e (digit n (ltb→lt n 10 e))
  | inr e ↦ rw e (itoa_onto-StartsWithDigit fuel (n / 10) _ (ground arith))
]

atoi_digits :
    (s : Bytes) (n : ℕ)
    → StartsWithDigit s
    → parse_digits 0 s ≡ some n
    → n ≤ max_int
    → atoi s ≡ some (pos n)
unfolding atoi
atoi_digits [] n d h le = absurd d
atoi_digits (c ∷ s) n d h le = rw (not_minus, not_plus, h, in_range)
  where
    not_minus : (c == b'-') ≡ false
    not_minus = ground arith

    not_plus : (c == b'+') ≡ false
    not_plus = ground arith

    in_range : leb n max_int ≡ true
    in_range = ground arith

pub atoi-itoa : (n : ℕ) → n ≤ max_int → atoi (itoa n) ≡ some (pos n)
unfolding itoa
atoi-itoa n h =
    atoi_digits (itoa n) n (itoa_onto-StartsWithDigit (suc n) n [] (omega arith))
      (parse_digits-itoa n) h

signed_range : (b : Bool) (o : Option ℕ) (n : ℕ) → signed b o ≡ some (pos n) → n ≤ max_int
signed_range b none n h = cc
signed_range false (some k) n h = ground arith
signed_range true (some zero) n h = ground arith
signed_range true (some (suc k)) n h = ground arith

unsigned_range : (b : Bool) (s : Bytes) (n : ℕ) → unsigned b s ≡ some (pos n) → n ≤ max_int
unfolding unsigned
unsigned_range b [] n h = cc
unsigned_range b (c ∷ s) n h = signed_range b _ n h

abbrev InRange : ℕ → Option ℤ → Type 0
InRange n r = r ≡ some (pos n) → n ≤ max_int

-- What `Atoi` returns is within the range of `int`.
pub atoi-le-max_int : (s : Bytes) (n : ℕ) → atoi s ≡ some (pos n) → n ≤ max_int
unfolding atoi
atoi-le-max_int [] n = λ h. cc
atoi-le-max_int (c ∷ s) n =
    if-property (InRange n) (c == b'-') (λ _. unsigned_range true s n)
      (λ _.
        if-property (InRange n) (c == b'+') (λ _. unsigned_range false s n)
          (λ _. unsigned_range false (c ∷ s) n))
