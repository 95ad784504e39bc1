-- ===== src/Cleanup/Discard.antt =====
-- What a discarded handle leaves on the stack of internal/errorhandler/errorhandler.go.
use mathlib.Core.List.{reverse-append}
use go_certbot.Prelude.{
  ℕ, ◌+◌, ◌%◌, ◌^◌, ◌<◌, ◌≡◌, refl, List, [], ◌∷◌, ◌++◌, some, All, ◌==◌, arith, Bool-cases, inl,
  inr, false, tests, ==_refl,
}
use go_certbot.Cleanup.{Entry, Handler, register, discard, without, run_all, fns}

-- The ids on the stack are those of earlier calls.
abbrev pub Below {ℓ} : {F : Type ℓ} → ℕ → Entry F → Type 0
Below n e = e.id < n

module _ {ℓ} {F : Type ℓ} where
  without-append :
      (id : ℕ) (fn : F) (es : List (Entry F))
      → All (Below id) es
      → without id (es ++ record { id = id; fn = fn } ∷ []) ≡ es
  unfolding without
  without-append id fn [] h = rw (==_refl id)
  without-append id fn (e ∷ es) h = elim (Bool-cases (e.id == id)) [
    | inl d ↦ absurd (omega (tests, h.0, d))
    | inr d ↦ rw (d, without-append id fn es h.1)
  ]

  -- Where every id on the stack is at most the counter, and the counter does not wrap, discarding
  -- the handle of a registration at once leaves the callbacks that were there before, in their order.
  pub discard-register :
      (fn : F) (h : Handler F)
      → h.next_id + 1 < 2 ^ 64
      → All (Below (h.next_id + 1)) h.stack
      → (discard (register (some fn) h).0 (register (some fn) h).1).stack ≡ h.stack
  unfolding discard register
  discard-register fn h small below = rw (unwrapped, non_zero) (without-append _ fn h.stack below)
    where
      unwrapped : (h.next_id + 1) % 2 ^ 64 ≡ h.next_id + 1
      unwrapped = omega arith

      non_zero : (h.next_id + 1 == 0) ≡ false
      non_zero = ground arith

  -- The callback registered last is called first, before those that were on the stack, which keep
  -- their order; then the stack is empty, and a second run calls nothing.
  pub run_all-register :
      (fn : F) (h : Handler F)
      → ((run_all (register (some fn) h).1).0 ≡ fn ∷ (run_all h).0)
        × ((run_all (run_all h).1).0 ≡ [])
  unfolding run_all register fns
  run_all-register fn h = (rw (reverse-append h.stack _) refl, refl)
