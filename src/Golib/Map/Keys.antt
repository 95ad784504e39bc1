-- ===== src/Golib/Map/Keys.antt =====
-- The keys of a map, in the order of their first writes.
use go_certbot.Prelude.{
  ◌≡◌, refl, sym, ap, ◌∙◌, Bool, true, false, List, [], ◌∷◌, ◌++◌, Option, none, some, Bytes,
  if◌then◌else◌, Bool-cases, inl, inr,
}
use go_certbot.Cli.Domains.{contains}
use go_certbot.Golib.Map.{Map, get, set}
use go_certbot.Golib.Strings.Laws.{equal_iff}
use go_certbot.Golib.Strings.{equal}

module _ {V : Type 0} where
  abbrev pub keys : Map V → List Bytes
  keys [] = []
  keys ((k, v) ∷ m) = k ∷ keys m

  abbrev pub is_some : Option V → Bool
  is_some none = false
  is_some (some v) = true

  pub contains-keys : (k : Bytes) (m : Map V) → contains (keys m) k ≡ is_some (get k m)
  unfolding contains get
  contains-keys k [] = refl
  contains-keys k ((j, v) ∷ m) = elim (Bool-cases (equal j k)) [
    | inl e ↦ rw e
    | inr e ↦ rw e (contains-keys k m)
  ]

  pub set-new :
      (k : Bytes) (v : V) (m : Map V) → is_some (get k m) ≡ false → set k v m ≡ m ++ (k, v) ∷ []
  unfolding get set
  set-new k v [] h = refl
  set-new k v ((j, w) ∷ m) h = elim (Bool-cases (equal j k)) [
    | inl e ↦ absurd (taken e)
    | inr e ↦ rw e (ap (λ n. (j, w) ∷ n) (set-new k v m (rw e at h)))
  ]
    where
      taken : equal j k ≡ true → ⊥
      taken e = cc (rw e at h)

  pub keys-set :
      (k : Bytes) (v : V) (m : Map V)
      → keys (set k v m) ≡ (if is_some (get k m) then keys m else keys m ++ k ∷ [])
  unfolding get set
  keys-set k v [] = refl
  keys-set k v ((j, w) ∷ m) = elim (Bool-cases (equal j k)) [
    | inl e ↦ rw e (ap (λ i. i ∷ keys m) (sym ((equal_iff j k).0 e)))
    | inr e ↦ rw e (ap (λ ks. j ∷ ks) (keys-set k v m) ∙ push (is_some (get k m)))
  ]
    where
      push :
          (b : Bool)
          → ◌≡◌ {A = List Bytes}
              (j ∷ (if b then keys m else keys m ++ k ∷ []))
              (if b then j ∷ keys m else j ∷ (keys m ++ k ∷ []))
      push true = refl
      push false = refl

  pub keys-append : (m n : Map V) → keys (m ++ n) ≡ keys m ++ keys n
  keys-append [] n = refl
  keys-append ((k, v) ∷ m) n = ap (λ ks. k ∷ ks) (keys-append m n)
