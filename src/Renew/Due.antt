-- ===== src/Renew/Due.antt =====
-- `needsRenewal`, on the times of the leaf certificate in nanoseconds since the epoch.
pub mod Default
use go_certbot.Prelude.{
  ℕ, zero, suc, ◌+◌, ◌*◌, Bool, true, false, not, ◌&&◌, List, [], ◌∷◌, Bytes, if◌then◌else◌, Result,
  ok, err,
}
use go_certbot.Prelude.Int.{ℤ, pos, negsuc, ◌+ℤ◌, ◌-ℤ◌, ltb_ℤ}
use go_certbot.Golib.Int64.{mul_int64, div_int64, saturate}
use go_certbot.Renew.Interval.{IntervalError, day, parse_renew_before}

-- The validity period of a certificate.
pub record Leaf : Type 0 where
  pub not_before : ℤ
  pub not_after : ℤ

abbrev pub short_cert_cutoff : ℤ
short_cert_cutoff = pos (10 * day)

-- `cert.NotAfter.Sub(cert.NotBefore)`.
unfoldable pub lifetime : Leaf → ℤ
unfolding saturate ◌-ℤ◌
lifetime leaf = saturate (leaf.not_after -ℤ leaf.not_before)

-- The part of the lifetime after which a certificate is due, without a setting.
unfoldable pub due_after : ℤ → ℤ
unfolding mul_int64 div_int64
due_after life =
    if ltb_ℤ (pos 0) life && ltb_ℤ life short_cert_cutoff
    then div_int64 life 2
    else div_int64 (mul_int64 life (pos 2)) 3

unfoldable pub due_by_default : ℤ → Leaf → Bool
unfolding due_after lifetime ◌+ℤ◌
due_by_default now leaf = not (ltb_ℤ now (leaf.not_before +ℤ due_after (lifetime leaf)))

-- `renew_before_expiry`: empty is not set, and a text that does not parse is ignored.
abbrev due_with : ℤ → Leaf → Result IntervalError ℤ → Bool
due_with now leaf (ok before) = ltb_ℤ leaf.not_after (now +ℤ before)
due_with now leaf (err e) = due_by_default now leaf

unfoldable pub needs_renewal : ℤ → Bytes → Leaf → Bool
unfolding due_by_default ◌+ℤ◌
needs_renewal now [] leaf = due_by_default now leaf
needs_renewal now (c ∷ raw) leaf = due_with now leaf (parse_renew_before (c ∷ raw))
