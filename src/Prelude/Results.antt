-- ===== src/Prelude/Results.antt =====
-- Go's `(value, error)` results, and operations that keep their state beside an error.

pub data Result {ℓ} (E A : Type ℓ) : Type ℓ where
  ok : A → Result E A
  err : E → Result E A

-- A method on a mutable receiver: what was written before an error stays written.
abbrev pub Exec {ℓ} : Type ℓ → Type ℓ → Type ℓ → Type ℓ
Exec S E A = S → Result E A × S
