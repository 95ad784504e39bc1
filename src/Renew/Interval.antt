-- ===== src/Renew/Interval.antt =====
-- `parseRenewBefore`: an interval in words, as a `time.Duration` of nanoseconds.
pub mod Sums
use go_certbot.Prelude.{
  ℕ, zero, suc, ◌*◌, ◌+◌, Bool, true, false, ◌||◌, List, [], ◌∷◌, ◌++◌, Option, none, some, Bytes,
  String, codes, if◌then◌else◌, Result, ok, err,
}
use go_certbot.Prelude.Int.{ℤ, pos}
use go_certbot.Golib.Int64.{add_int64, mul_int64}
use go_certbot.Golib.Strconv.{atoi}
use go_certbot.Golib.Strings.Fields.{fields}
use go_certbot.Golib.Strings.{equal, to_lower, trim_space, trim_suffix}

pub data IntervalError : Type 0 where
  empty_interval no_interval : IntervalError
  not_integer unknown_unit : Bytes → IntervalError

abbrev pub second : ℕ
second = 1000000000

abbrev pub hour : ℕ
hour = 3600 * second

abbrev pub day : ℕ
day = 24 * hour

abbrev is : Bytes → String → Bool
is s name = equal s (codes name)

-- The switch on a unit without its plural "s".
unfoldable pub step_of : Bytes → Option ℕ
unfolding equal
step_of unit =
    if is unit "second" || is unit "sec"
    then some second
    else if is unit "minute" || is unit "min"
    then some (60 * second)
    else if is unit "hour" || is unit "hr"
    then some hour
    else if is unit "day"
    then some day
    else if is unit "week"
    then some (7 * day)
    else if is unit "month"
    then some (30 * day)
    else if is unit "year"
    then some (365 * day)
    else none

abbrev unit_of : Bytes → Bytes
unit_of token = trim_suffix token (codes "s")

abbrev add_step : ℤ → Bytes → Option ℕ → ℤ → Result IntervalError ℤ
add_step n unit none total = err (unknown_unit unit)
add_step n unit (some step) total = ok (add_int64 total (mul_int64 n (pos step)))

abbrev add_amount : Option ℤ → Bytes → Bytes → ℤ → Result IntervalError ℤ
add_amount none amount unit total = err (not_integer amount)
add_amount (some n) amount unit total = add_step n unit (step_of unit) total

abbrev pub and_then : Result IntervalError ℤ → (ℤ → Result IntervalError ℤ) → Result IntervalError ℤ
and_then (ok t) f = f t
and_then (err e) f = err e

-- The loop over pairs of tokens; a last token without a unit is not read.
unfoldable pub add_pairs : ℤ → List Bytes → Result IntervalError ℤ
unfolding step_of atoi trim_suffix add_int64 mul_int64
add_pairs total [] = ok total
add_pairs total (amount ∷ []) = ok total
add_pairs total (amount ∷ unit ∷ rest) =
    and_then (add_amount (atoi amount) amount (unit_of unit) total) λ t. add_pairs t rest

abbrev pairs_or_error : List Bytes → Result IntervalError ℤ
pairs_or_error [] = err no_interval
pairs_or_error (amount ∷ []) = err no_interval
pairs_or_error (amount ∷ unit ∷ rest) = add_pairs (pos 0) (amount ∷ unit ∷ rest)

abbrev bare_or_pairs : Option ℤ → Bytes → Result IntervalError ℤ
bare_or_pairs (some n) s = ok (mul_int64 (mul_int64 n (pos 24)) (pos hour))
bare_or_pairs none s = pairs_or_error (fields s)

abbrev parse_text : Bytes → Result IntervalError ℤ
parse_text [] = err empty_interval
parse_text (c ∷ s) = bare_or_pairs (atoi (c ∷ s)) (c ∷ s)

unfoldable pub parse_renew_before : Bytes → Result IntervalError ℤ
unfolding add_pairs atoi fields to_lower trim_space mul_int64
parse_renew_before s = parse_text (trim_space (to_lower s))
