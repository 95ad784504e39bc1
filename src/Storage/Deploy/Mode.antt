-- ===== src/Storage/Deploy/Mode.antt =====
-- The permission bits of a renewed private key, for every mode of nine bits.
use Prim.Native.Nat.{bit_and, bit_or}
use go_certbot.Prelude.{ℕ, zero, suc, ◌<◌, ◌≡◌, refl, Bool, true, ◌&&◌, some, ◌==◌, ==→eq, arith}
use go_certbot.Storage.Deploy.{compute_privkey_mode}

-- `p` at every number below `n`.
holds_below : ℕ → (ℕ → Bool) → Bool
holds_below zero p = true
holds_below (suc n) p = p n && holds_below n p

holds_below_at : (n : ℕ) (p : ℕ → Bool) (x : ℕ) → holds_below n p ≡ true → x < n → p x ≡ true
unfolding holds_below
holds_below_at zero p x h lt = absurd (omega arith)
holds_below_at (suc n) p x h lt = ground (arith, holds_below_at n p x)

-- The owner reads and writes; others neither write nor execute; group bits and others' read bit are
-- the prior ones.
abbrev keeps_bits : ℕ → Bool
keeps_bits prior =
    let mode = bit_or 0o600 (bit_and prior 0o074) in
    bit_and mode 0o600 == 0o600
    && (bit_and mode 0o103 == 0 && bit_and mode 0o074 == bit_and prior 0o074)

table : holds_below 512 keeps_bits ≡ true
unfolding holds_below
table = refl

-- For every prior mode of nine bits, the mode that `computePrivkeyMode` returns lets the owner read
-- and write, does not let the owner execute and no other user write or execute, and has the prior
-- mode's group bits and others' read bit. It is the mode that the new key is created with, from
-- which the system takes the bits of the umask.
pub privkey_mode_bits :
    (prior : ℕ)
    → prior < 512
    → (bit_and (compute_privkey_mode (some prior)) 0o600 ≡ 0o600)
      × (bit_and (compute_privkey_mode (some prior)) 0o103 ≡ 0)
      × (bit_and (compute_privkey_mode (some prior)) 0o074 ≡ bit_and prior 0o074)
unfolding compute_privkey_mode
privkey_mode_bits prior h =
    let all = holds_below_at 512 keeps_bits prior table h in
    (==→eq _ _ (ground arith), ==→eq _ _ (ground arith), ==→eq _ _ (ground arith))
