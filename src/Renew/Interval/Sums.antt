-- ===== src/Renew/Interval/Sums.antt =====
-- An interval of several amounts is their sum.
use go_certbot.Prelude.{
  ℕ, ◌+◌, ◌*◌, ◌^◌, ◌<◌, ◌≤◌, ◌≡◌, refl, ap, ◌∙◌, Bool, true, false, List, [], ◌∷◌, ◌++◌, some,
  Bytes, codes, if◌then◌else◌, ok, arith,
}
use go_certbot.Prelude.Int.{pos}
use go_certbot.Golib.Int64.{add_int64, add_int64_pos, mul_int64_pos}
use go_certbot.Golib.Strconv.{atoi, itoa, atoi-itoa}
use go_certbot.Golib.Strings.{trim_suffix}
use go_certbot.Renew.Interval.{second, hour, day, step_of, unit_of, add_amount, add_pairs}

pub data TimeUnit : Type 0 where
  seconds minutes hours days weeks months years : TimeUnit

abbrev singular : TimeUnit → Bytes
singular seconds = codes "second"
singular minutes = codes "minute"
singular hours = codes "hour"
singular days = codes "day"
singular weeks = codes "week"
singular months = codes "month"
singular years = codes "year"

-- A month is 30 days and a year 365.
abbrev pub size : TimeUnit → ℕ
size seconds = second
size minutes = 60 * second
size hours = hour
size days = day
size weeks = 7 * day
size months = 30 * day
size years = 365 * day

pub record Amount : Type 0 where
  pub count : ℕ
  pub unit : TimeUnit
  pub plural : Bool

abbrev pub unit_text : TimeUnit → Bool → Bytes
unit_text u plural = singular u ++ (if plural then codes "s" else [])

-- The words of an interval, and its length.
abbrev pub words : List Amount → List Bytes
words [] = []
words (a ∷ rest) = itoa a.count ∷ unit_text a.unit a.plural ∷ words rest

abbrev pub total : List Amount → ℕ
total [] = 0
total (a ∷ rest) = a.count * size a.unit + total rest

step_of-unit_text :
    (u : TimeUnit) (plural : Bool) → step_of (unit_of (unit_text u plural)) ≡ some (size u)
unfolding step_of trim_suffix
step_of-unit_text seconds true = refl
step_of-unit_text seconds false = refl
step_of-unit_text minutes true = refl
step_of-unit_text minutes false = refl
step_of-unit_text hours true = refl
step_of-unit_text hours false = refl
step_of-unit_text days true = refl
step_of-unit_text days false = refl
step_of-unit_text weeks true = refl
step_of-unit_text weeks false = refl
step_of-unit_text months true = refl
step_of-unit_text months false = refl
step_of-unit_text years true = refl
step_of-unit_text years false = refl

size_pos : (u : TimeUnit) → 1 ≤ size u
size_pos seconds = omega arith
size_pos minutes = omega arith
size_pos hours = omega arith
size_pos days = omega arith
size_pos weeks = omega arith
size_pos months = omega arith
size_pos years = omega arith

count-le : (n : ℕ) (u : TimeUnit) → n ≤ n * size u
count-le n u = grind (arith, size_pos u)

add_amount-words :
    (n : ℕ) (u : TimeUnit) (plural : Bool) (t : ℕ)
    → t + n * size u < 2 ^ 63
    → add_amount (atoi (itoa n)) (itoa n) (unit_of (unit_text u plural)) (pos t)
      ≡ ok (pos (t + n * size u))
add_amount-words n u plural t h =
    rw (atoi-itoa n (omega (arith, count-le n u)), step_of-unit_text u plural)
      (ap ok (
        ap (add_int64 (pos t)) (mul_int64_pos n (size u) (omega arith))
        ∙ add_int64_pos t (n * size u) h))

-- For every list of amounts that fit in a `time.Duration`, behind a total that leaves room for them,
-- the loop over their words, singular or plural, adds up the amounts.
pub add_pairs-words :
    (amounts : List Amount) (t : ℕ)
    → t + total amounts < 2 ^ 63
    → add_pairs (pos t) (words amounts) ≡ ok (pos (t + total amounts))
unfolding add_pairs
add_pairs-words [] t h = ap (λ (n : ℕ). ok (pos n)) (omega arith)
add_pairs-words (a ∷ rest) t h = rw (add_amount-words a.count a.unit a.plural t (omega arith)) (
    add_pairs-words rest (t + a.count * size a.unit) (omega arith)
    ∙ ap (λ (n : ℕ). ok (pos n)) (omega arith))
