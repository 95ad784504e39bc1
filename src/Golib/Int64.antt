-- ===== src/Golib/Int64.antt =====
-- Go's `int64` on a 64-bit machine: arithmetic wraps, and division rounds towards 0.
use go_certbot.Prelude.{ℕ, suc, ◌+◌, ◌-◌, ◌*◌, ◌/◌, ◌%◌, ◌^◌, ◌<◌, ◌≡◌, ltb, if◌then◌else◌, arith}
use go_certbot.Prelude.Int.{ℤ, pos, negsuc, sub_ℕ, ◌+ℤ◌, ◌*ℤ◌}

-- The integer of a bit pattern.
unfoldable pub of_pattern : ℕ → ℤ
of_pattern m = if ltb m (2 ^ 63) then pos m else negsuc (2 ^ 64 - 1 - m)

unfoldable pub wrap : ℤ → ℤ
unfolding of_pattern
wrap (pos n) = of_pattern (n % 2 ^ 64)
wrap (negsuc n) = of_pattern (2 ^ 64 - 1 - n % 2 ^ 64)

unfoldable pub add_int64 : ℤ → ℤ → ℤ
unfolding wrap ◌+ℤ◌
add_int64 a b = wrap (a +ℤ b)

unfoldable pub mul_int64 : ℤ → ℤ → ℤ
unfolding wrap ◌*ℤ◌
mul_int64 a b = wrap (a *ℤ b)

unfoldable pub div_int64 : ℤ → ℕ → ℤ
div_int64 (pos n) k = pos (n / k)
div_int64 (negsuc n) k = sub_ℕ 0 (suc n / k)

-- `Time.Sub` stops at the ends of the range.
unfoldable pub saturate : ℤ → ℤ
saturate (pos n) = if ltb n (2 ^ 63) then pos n else pos (2 ^ 63 - 1)
saturate (negsuc n) = if ltb n (2 ^ 63) then negsuc n else negsuc (2 ^ 63 - 1)

pub wrap_pos : (n : ℕ) → n < 2 ^ 63 → wrap (pos n) ≡ pos n
unfolding wrap
wrap_pos n h = ground arith

pub add_int64_pos : (a b : ℕ) → a + b < 2 ^ 63 → add_int64 (pos a) (pos b) ≡ pos (a + b)
unfolding add_int64
add_int64_pos a b h = ground arith

pub mul_int64_pos : (a b : ℕ) → a * b < 2 ^ 63 → mul_int64 (pos a) (pos b) ≡ pos (a * b)
unfolding mul_int64
mul_int64_pos a b h = ground arith
