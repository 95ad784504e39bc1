-- ===== src/Renew/Due/Default.antt =====
-- The rule without a setting, in plain numbers.
use go_certbot.Prelude.{
  ℕ, ◌+◌, ◌*◌, ◌/◌, ◌^◌, ◌<◌, ◌≤◌, ◌≡◌, ◌∙◌, true, false, not, [], ltb, leb, if◌then◌else◌, arith,
}
use go_certbot.Prelude.Int.{ℤ, pos, ◌+ℤ◌, ltb_ℤ, ◌≤ℤ◌}
use go_certbot.Renew.Due.{Leaf, lifetime, due_after, needs_renewal}
use go_certbot.Renew.Interval.{day}

-- A certificate that starts at `b` and is valid for `life`.
abbrev pub leaf_of : ℕ → ℕ → Leaf
leaf_of b life = record { not_before = pos b; not_after = pos (b + life) }

abbrev pub due_ℕ : ℕ → ℕ
due_ℕ life = if ltb life (10 * day) then life / 2 else life * 2 / 3

lifetime-leaf_of : (b life : ℕ) → life < 2 ^ 63 → lifetime (leaf_of b life) ≡ pos life
unfolding lifetime
lifetime-leaf_of b life h = ground arith

due_after-pos : (life : ℕ) → 0 < life → life < 2 ^ 62 → due_after (pos life) ≡ pos (due_ℕ life)
unfolding due_after
due_after-pos life p h = ground arith

due_after_long : (life : ℕ) → 2 ^ 62 ≤ life → life < 2 ^ 63 → due_after (pos life) ≤ℤ pos 0
unfolding due_after
due_after_long life p h = ground arith

due_at : (b t k : ℕ) → not (ltb_ℤ (pos t) (pos b +ℤ pos k)) ≡ leb (b + k) t
unfolding ◌+ℤ◌
due_at b t k = ground arith

-- For a certificate that starts at `b` and is valid for `life` nanoseconds, more than 0 and less
-- than 2^62 (about 146 years), with no `renew_before_expiry`: it needs renewal at the time `t`
-- exactly from `b` plus half of `life` on, if `life` is under ten days, and from `b` plus two thirds
-- of it on otherwise.
pub needs_renewal_default :
    (b life t : ℕ)
    → 0 < life
    → life < 2 ^ 62
    → needs_renewal (pos t) [] (leaf_of b life) ≡ leb (b + due_ℕ life) t
unfolding needs_renewal
needs_renewal_default b life t p h =
    rw (lifetime-leaf_of b life (omega arith), due_after-pos life p h) (due_at b t (due_ℕ life))

-- For a certificate that starts at `b` and is valid for `life` nanoseconds, more than 1 and less
-- than 2^62, with no `renew_before_expiry`: it needs renewal at every time from its end on, and does
-- not at its start.
pub needs_renewal_ends :
    (b life t : ℕ)
    → 1 < life
    → life < 2 ^ 62
    → (b + life ≤ t → needs_renewal (pos t) [] (leaf_of b life) ≡ true)
      × (needs_renewal (pos b) [] (leaf_of b life) ≡ false)
needs_renewal_ends b life t p h = (
  λ e. needs_renewal_default b life t (omega arith) h ∙ ground arith,
  needs_renewal_default b life b (omega arith) h ∙ ground arith,
)

not_before_due : (b t : ℕ) (z : ℤ) → z ≤ℤ pos 0 → b ≤ t → not (ltb_ℤ (pos t) (pos b +ℤ z)) ≡ true
unfolding ◌+ℤ◌
not_before_due b t z h le = ground arith

-- A certificate valid for 2^62 nanoseconds or more, and less than 2^63 (292 years), needs renewal at
-- every time from its start on, with no `renew_before_expiry`: twice its lifetime does not fit in a
-- `time.Duration`.
pub needs_renewal_overflow :
    (b life t : ℕ)
    → 2 ^ 62 ≤ life
    → life < 2 ^ 63
    → b ≤ t
    → needs_renewal (pos t) [] (leaf_of b life) ≡ true
unfolding needs_renewal
needs_renewal_overflow b life t p h le =
    rw (lifetime-leaf_of b life h) (not_before_due b t _ (due_after_long life p h) le)
