-- ===== src/RenewalConf/Groups.antt =====
-- The orders of the sections of `File` of internal/storage/renewalconf/renewalconf.go, and of the
-- keys in each section.
use go_certbot.Prelude.{
  ◌≡◌, refl, sym, ap, ◌∙◌, false, List, [], ◌∷◌, ◌++◌, Option, none, some, Bytes, Bool-cases, inl,
  inr, if◌then◌else◌,
}
use go_certbot.Golib.Map.Keys.{is_some, keys-set}
use go_certbot.Golib.Map.{Map, get, set, get-set}
use go_certbot.Golib.Strings.Laws.{equal_iff}
use go_certbot.Golib.Strings.{equal}
use go_certbot.RenewalConf.Tracked.{Ordered, note_key-keys}
use go_certbot.RenewalConf.{entries, note_key, note_in, nested_label, section_label}

-- The order of the keys of each section lists them, once, and nothing else; a section that is not
-- there has none.
abbrev pub Grouped : (Bytes → Bytes) → Map (Map Bytes) → Map (List Bytes) → Type 0
Grouped label groups orders =
    (n : Bytes) → Ordered (entries (get (label n) orders)) (entries (get n groups))

get-note_in :
    (l j key : Bytes) (m : Map Bytes) (orders : Map (List Bytes))
    → entries (get j (note_in l key m orders))
      ≡ (if equal l j then note_key key m (entries (get l orders)) else entries (get j orders))
get-note_in l j key m orders = elim (Bool-cases (is_some (get key m))) [
  | inl e ↦ rw e (elim (Bool-cases (equal l j)) [
    | inl d ↦ rw (d, (equal_iff l j).0 d) refl
    | inr d ↦ rw d refl
  ])
  | inr e ↦
      rw (e, get-set l j (entries (get l orders) ++ key ∷ []) orders)
        (elim (Bool-cases (equal l j)) [ inl d ↦ rw d refl | inr d ↦ rw d refl ])
]

entries-none : {V : Type 0} (o : Option (List V)) → is_some o ≡ false → entries o ≡ []
entries-none none h = refl
entries-none (some m) h = absurd (cc h)

module _ (label : Bytes → Bytes) where
  pub put-Grouped :
      ((a b : Bytes) → equal (label a) (label b) ≡ equal a b)
      → (name key value : Bytes) (m : Map Bytes) (groups : Map (Map Bytes))
        (orders : Map (List Bytes))
      → get name groups ≡ some m
      → Grouped label groups orders
      → Grouped label (set name (set key value m) groups) (note_in (label name) key m orders)
  put-Grouped same name key value m groups orders h g n =
      rw
        (
          get-note_in (label name) (label n) key m orders,
          get-set name n (set key value m) groups,
          same name n,
        )
        (elim (Bool-cases (equal name n)) [
          | inl e ↦
              rw e
                (note_key-keys key value m (entries (get (label name) orders)) (rw h at (g name)))
          | inr e ↦ rw e (g n)
        ])

  pub other-Grouped :
      (other : Bytes → Bytes)
      → ((a b : Bytes) → equal (other a) (label b) ≡ false)
      → (name key : Bytes) (m : Map Bytes) (groups : Map (Map Bytes)) (orders : Map (List Bytes))
      → Grouped label groups orders
      → Grouped label groups (note_in (other name) key m orders)
  other-Grouped other apart name key m groups orders g n =
      rw (get-note_in (other name) (label n) key m orders, apart name n) (g n)

  pub open-Grouped :
      (name : Bytes) (groups : Map (Map Bytes)) (orders : Map (List Bytes))
      → is_some (get name groups) ≡ false
      → Grouped label groups orders
      → Grouped label (set name [] groups) orders
  open-Grouped name groups orders h g n =
      rw (get-set name n [] groups) (elim (Bool-cases (equal name n)) [
        | inl e ↦ rw e (
            rw
              (entries-none (get n groups)
                (ap (λ x. is_some (get x groups)) (sym ((equal_iff name n).0 e)) ∙ h))
              at (g n))
        | inr e ↦ rw e (g n)
      ])

-- A section that is opened is the last of the order.
pub opened-Ordered :
    (name : Bytes) (groups : Map (Map Bytes)) (order : List Bytes)
    → is_some (get name groups) ≡ false
    → Ordered order groups
    → Ordered (order ++ name ∷ []) (set name [] groups)
opened-Ordered name groups order h o =
    rw (ap (λ b. if b then order else order ++ name ∷ []) h) at
      (note_key-keys name [] groups order o)

pub written-Ordered :
    (name : Bytes) (m new_m : Map Bytes) (groups : Map (Map Bytes)) (order : List Bytes)
    → get name groups ≡ some m
    → Ordered order groups
    → Ordered order (set name new_m groups)
written-Ordered name m new_m groups order h o = rw (keys-set name new_m groups, h) o

pub nested_same : (a b : Bytes) → equal (nested_label a) (nested_label b) ≡ equal a b
unfolding equal
nested_same a b = refl

pub section_same : (a b : Bytes) → equal (section_label a) (section_label b) ≡ equal a b
unfolding equal
section_same a b = refl

pub nested_apart : (a b : Bytes) → equal (nested_label a) (section_label b) ≡ false
unfolding equal
nested_apart a b = refl

pub section_apart : (a b : Bytes) → equal (section_label a) (nested_label b) ≡ false
unfolding equal
section_apart a b = refl
