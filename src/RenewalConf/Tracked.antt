-- ===== src/RenewalConf/Tracked.antt =====
-- An order of keys against its map, and the text that `Save` of
-- internal/storage/renewalconf/renewalconf.go writes for the two.
use go_certbot.Prelude.{
  ◌≡◌, refl, ap, ◌∙◌, Bool, true, false, ◌||◌, List, [], ◌∷◌, ◌++◌, append-nil, append_assoc, Bytes,
  if-property, Bool-cases, inl, inr,
}
use go_certbot.Cli.Domains.Distinct.{Distinct, append-Distinct, or-false, differ}
use go_certbot.Cli.Domains.{contains}
use go_certbot.Golib.Map.Keys.{keys, is_some, contains-keys, keys-set}
use go_certbot.Golib.Map.{Map, get, set, delete}
use go_certbot.Golib.Strings.Laws.{equal_refl}
use go_certbot.Golib.Strings.Sort.{sort_strings}
use go_certbot.Golib.Strings.{equal}
use go_certbot.RenewalConf.Save.{emit_keys, leftovers, emit_kv, line_of}
use go_certbot.RenewalConf.Values.{format_value}
use go_certbot.RenewalConf.{note_key, without_key}

-- An order lists each key of its map, once, and nothing else.
abbrev pub Ordered : {V : Type 0} → List Bytes → Map V → Type 0
Ordered order m = (order ≡ keys m) × Distinct (keys m)

pub note_key-keys :
    {V : Type 0} (k : Bytes) (v : V) (m : Map V) (order : List Bytes)
    → Ordered order m
    → Ordered (note_key k m order) (set k v m)
note_key-keys k v m order o = elim (Bool-cases (is_some (get k m))) [
  | inl e ↦ rw (keys-set k v m, e) o
  | inr e ↦
      rw (keys-set k v m, e)
        (ap (λ ks. ks ++ k ∷ []) (o.0), append-Distinct (keys m) k (contains-keys k m ∙ e) (o.1))
]

contains-without_key :
    (j k : Bytes) (ks : List Bytes) → contains ks j ≡ false → contains (without_key k ks) j ≡ false
unfolding contains without_key
contains-without_key j k [] h = refl
contains-without_key j k (i ∷ ks) h =
    let parts = or-false (equal i j) (contains ks j) h in
    if-property (λ l. contains l j ≡ false) (equal i k) (λ e. contains-without_key j k ks (parts.1))
      (λ e. rw (parts.0) (contains-without_key j k ks (parts.1)))

pub without_key-Distinct : (k : Bytes) (ks : List Bytes) → Distinct ks → Distinct (without_key k ks)
unfolding without_key
without_key-Distinct k [] d = tt
without_key-Distinct k (i ∷ ks) d =
    if-property Distinct (equal i k) (λ e. without_key-Distinct k ks (d.1))
      (λ e. (contains-without_key i k ks (d.0), without_key-Distinct k ks (d.1)))

pub keys-delete : (k : Bytes) (m : Map Bytes) → keys (delete k m) ≡ without_key k (keys m)
unfolding delete without_key
keys-delete k [] = refl
keys-delete k ((j, v) ∷ m) = elim (Bool-cases (equal j k)) [
  | inl e ↦ rw e (keys-delete k m)
  | inr e ↦ rw e (ap (λ ks. j ∷ ks) (keys-delete k m))
]

-- The lines of a map, in the order of its keys.
abbrev pub text_of : Map Bytes → Bytes → Bytes
text_of [] rest = rest
text_of ((k, v) ∷ m) rest = line_of k (format_value v) ++ (b'\n' ∷ text_of m rest)

-- Keys that stand first in a map do not hide those behind.
emit_keys-skip :
    (k v : Bytes) (ks : List Bytes) (m : Map Bytes)
    → contains ks k ≡ false
    → emit_keys ks ((k, v) ∷ m) ≡ emit_keys ks m
unfolding emit_keys get contains
emit_keys-skip k v [] m h = refl
emit_keys-skip k v (i ∷ ks) m h =
    let parts = or-false (equal i k) (contains ks k) h in
    rw (differ i k (parts.0), emit_keys-skip k v ks m (parts.1)) refl

emit_keys-text_of :
    (m : Map Bytes) (rest : Bytes)
    → Distinct (keys m)
    → emit_keys (keys m) m ++ rest ≡ text_of m rest
unfolding emit_keys get
emit_keys-text_of [] rest d = refl
emit_keys-text_of ((k, v) ∷ m) rest d =
    rw (equal_refl k, emit_keys-skip k v (keys m) m (d.0))
      (append_assoc (line_of k (format_value v)) (b'\n' ∷ emit_keys (keys m) m) rest
        ∙ ap (λ x. line_of k (format_value v) ++ (b'\n' ∷ x)) (emit_keys-text_of m rest (d.1)))

leftovers-none :
    (order : List Bytes) (m : Map Bytes)
    → ((k : Bytes) → contains (keys m) k ≡ true → contains order k ≡ true)
    → leftovers order m ≡ []
unfolding leftovers contains
leftovers-none order [] h = refl
leftovers-none order ((k, v) ∷ m) h =
    rw (h k (rw (equal_refl k) refl))
      (leftovers-none order m (λ j e. h j (rw e (or_true (equal k j)))))
  where
    or_true : (b : Bool) → (b || true) ≡ true
    or_true true = refl
    or_true false = refl

-- What `Save` writes for a map with its order: each entry, once.
pub emit_kv-text_of :
    (order : List Bytes) (m : Map Bytes) (rest : Bytes)
    → Ordered order m
    → emit_kv order m ++ rest ≡ text_of m rest
unfolding emit_kv emit_keys sort_strings
emit_kv-text_of order m rest o =
    rw (o.0, leftovers-none (keys m) m (λ k e. e), append-nil (emit_keys (keys m) m))
      (emit_keys-text_of m rest (o.1))
