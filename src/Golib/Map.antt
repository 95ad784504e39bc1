-- ===== src/Golib/Map.antt =====
-- Go's maps with string keys, as association lists; the program never depends on their order.
pub mod Keys
use go_certbot.Prelude.{
  ◌≡◌, refl, false, List, [], ◌∷◌, Option, none, some, Bytes, if◌then◌else◌, Bool-cases, inl, inr,
  sym,
}
use go_certbot.Golib.Strings.Laws.{equal_iff}
use go_certbot.Golib.Strings.{equal}

abbrev pub Map {ℓ} : Type ℓ → Type ℓ
Map V = List (Bytes × V)

module _ {ℓ} {V : Type ℓ} where
  unfoldable pub get : Bytes → Map V → Option V
  get k [] = none
  get k ((j, v) ∷ m) = if equal j k then some v else get k m

  unfoldable pub set : Bytes → V → Map V → Map V
  set k v [] = (k, v) ∷ []
  set k v ((j, w) ∷ m) = if equal j k then (k, v) ∷ m else (j, w) ∷ set k v m

  unfoldable pub delete : Bytes → Map V → Map V
  delete k [] = []
  delete k ((j, v) ∷ m) = let rest = delete k m in if equal j k then rest else (j, v) ∷ rest

  -- A write is read back at its key, and changes no other key.
  pub get-set :
      (k j : Bytes) (v : V) (m : Map V)
      → get j (set k v m) ≡ (if equal k j then some v else get j m)
  unfolding get set
  get-set k j v [] = refl
  get-set k j v ((i, w) ∷ m) = elim (Bool-cases (equal i k)) [
    | inl e ↦ rw e (elim (Bool-cases (equal k j)) [
      | inl d ↦ rw d
      | inr d ↦ rw (d, (equal_iff i k).0 e) (rw d)
    ])
    | inr e ↦ rw e (elim (Bool-cases (equal i j)) [
      | inr d ↦ rw d (get-set k j v m)
      | inl d ↦ rw (d, ← (equal_iff i j).0 d) (rw (differ k i e))
    ])
  ]
    where
      differ : (a b : Bytes) → equal b a ≡ false → equal a b ≡ false
      differ a b h = elim (Bool-cases (equal a b)) [
        | inr d ↦ d
        | inl d ↦ cc (h, (equal_iff b a).1 (sym ((equal_iff a b).0 d)))
      ]
