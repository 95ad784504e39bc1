-- ===== src/Storage/Write/Fuel.antt =====
-- The fuel of the loop of `validatePEMChain` of internal/storage/lineage.go.
use go_certbot.Prelude.{
  ℕ, zero, suc, ◌<◌, ◌≤◌, ◌≡◌, ◌≢◌, refl, Option, none, some, Bytes, codes, length, if-property,
  arith,
}
use go_certbot.Golib.Strings.{equal}
use go_certbot.Storage.Write.{
  Block, Pem, WriteError, out_of_fuel, validate_from, validate_pem_chain,
}

-- What `pem.Decode` leaves is shorter than what it was given.
module _ (pem : Pem)
    (shrinks : (s rest : Bytes) (b : Block)
      → pem.decode s ≡ some (b, rest)
      → length rest < length s) where
  abbrev Fits : ℕ → Option (Block × Bytes) → Type 0
  Fits n none = Unit {0}
  Fits n (some (b, rest)) = length rest < n

  fits : (n : ℕ) (s : Bytes) → length s ≤ n → Fits n (pem.decode s)
  fits n s le = on (pem.decode s) refl
    where
      on : (o : Option (Block × Bytes)) → pem.decode s ≡ o → Fits n o
      on none e = tt
      on (some (b, rest)) e = omega (arith, shrinks s rest b e, le)

  abbrev NotFuel : Option WriteError → Type 0
  NotFuel r = r ≢ some out_of_fuel

  validate_from-NotFuel :
      (fuel count : ℕ) (o : Option (Block × Bytes))
      → Fits fuel o
      → NotFuel (validate_from pem fuel count o)
  unfolding validate_from
  validate_from-NotFuel fuel zero none f = λ e. cc
  validate_from-NotFuel fuel (suc count) none f = λ e. cc
  validate_from-NotFuel zero count (some (b, rest)) f = absurd (omega (arith, f))
  validate_from-NotFuel (suc fuel) count (some (b, rest)) f =
      if-property NotFuel (equal (b.block_type) (codes "CERTIFICATE"))
        (λ _.
          if-property NotFuel (pem.is_certificate (b.body))
            (λ _.
              validate_from-NotFuel fuel (suc count) (pem.decode rest)
                (fits fuel rest (omega (arith, f))))
            (λ _ e. cc))
        (λ _ e. cc)

  -- One unit for each byte is enough.
  pub validate_pem_chain_ends : (full : Bytes) → validate_pem_chain pem full ≢ some out_of_fuel
  unfolding validate_pem_chain
  validate_pem_chain_ends full =
      validate_from-NotFuel (length full) 0 (pem.decode full)
        (fits (length full) full (omega arith))
