-- ===== src/Cleanup.antt =====
-- internal/errorhandler/errorhandler.go: the stack of cleanup callbacks. A callback is a name of the
-- caller's; `none` is the nil function.
pub mod Discard
mod Tests
use go_certbot.Prelude.{
  ℕ, ◌+◌, ◌%◌, ◌^◌, Bool, true, false, List, [], ◌∷◌, ◌++◌, map, reverse, Option, none, some, ◌==◌,
  if◌then◌else◌,
}

pub record Entry {ℓ} (F : Type ℓ) : Type ℓ where
  pub id : ℕ
  pub fn : F

-- The package's variables. The counter is an `int`, kept as its bit pattern.
pub record Handler {ℓ} (F : Type ℓ) : Type ℓ where
  pub stack : List (Entry F)
  pub next_id : ℕ

module _ {ℓ} {F : Type ℓ} where
  -- `Register`: the handle is the id, 0 for nothing registered.
  unfoldable pub register : Option F → Handler F → ℕ × Handler F
  register none h = (0, h)
  register (some fn) h =
      let id = (h.next_id + 1) % 2 ^ 64 in
      (id, record h { stack = h.stack ++ record { id = id; fn = fn } ∷ []; next_id = id })

  unfoldable pub without : ℕ → List (Entry F) → List (Entry F)
  without id [] = []
  without id (e ∷ es) = let rest = without id es in if e.id == id then rest else e ∷ rest

  -- `Handle.Discard`.
  unfoldable pub discard : ℕ → Handler F → Handler F
  unfolding without
  discard id h = if id == 0 then h else record h { stack = without id h.stack }

  unfoldable pub fns : List (Entry F) → List F
  fns [] = []
  fns (e ∷ es) = e.fn ∷ fns es

  -- `RunAll`: the callbacks in the order of their calls; one that panics stops no other.
  unfoldable pub run_all : Handler F → List F × Handler F
  unfolding fns
  run_all h = (fns (reverse h.stack), record h { stack = [] })
