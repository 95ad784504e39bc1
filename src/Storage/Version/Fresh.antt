-- ===== src/Storage/Version/Fresh.antt =====
-- A new version never names a file that is there.
use go_certbot.Prelude.{
  ℕ, ◌+◌, ◌≤◌, ◌≡◌, ◌≢◌, refl, sym, ap, ◌∙◌, List, [], ◌∷◌, ◌++◌, Option, none, some, Bytes, All,
  if-property, arith, append_assoc, ◌⊎◌, inl, inr, ltb, Bool-cases,
}
use native.Mathlib.Nat.{le_trans}
use go_certbot.Prelude.Int.{ℤ, pos, negsuc}
use go_certbot.Golib.Strings.Laws.{has_suffix-append, trim_suffix-append}
use go_certbot.Golib.Strings.{has_prefix, trim_prefix, has_suffix}
use go_certbot.Golib.Strconv.{atoi, itoa, max_int, atoi-itoa, atoi-le-max_int}
use go_certbot.Storage.Version.{
  Kind, cert, privkey, chain, fullchain, stem_of, extension, version_text,
  archive_version_from_name, raise_to, parsed_or_zero, version_of_text, highest_from, succ_int,
  next_version, archive_name,
}

-- The kinds are told apart whatever follows them.
version_text-stem : (kind : Kind) (text : Bytes) → version_text (stem_of kind ++ text) ≡ some text
unfolding version_text has_prefix trim_prefix
version_text-stem cert text = refl
version_text-stem privkey text = refl
version_text-stem chain text = refl
version_text-stem fullchain text = refl

version_of_text-atoi : (s : Bytes) → version_of_text (some s) ≡ parsed_or_zero (atoi s)
unfolding atoi
version_of_text-atoi [] = refl
version_of_text-atoi (c ∷ s) = refl

-- The name of a file of an archive version that fits in an `int` parses back to the version, for
-- each of the four kinds.
pub version-archive_name :
    (kind : Kind) (v : ℕ) → v ≤ max_int → archive_version_from_name (archive_name kind v) ≡ pos v
version-archive_name kind v h =
    unfold archive_name in
    rw (sym (append_assoc (stem_of kind) (itoa v) extension)) (
      unfold archive_version_from_name in
      rw (has_suffix-append, trim_suffix-append, version_text-stem kind (itoa v))
        (version_of_text-atoi (itoa v) ∙ rw (atoi-itoa v h)))

raise_to-ge : (h : ℕ) (z : ℤ) → h ≤ raise_to h z
unfolding raise_to
raise_to-ge h (pos n) = ground arith
raise_to-ge h (negsuc n) = omega arith

raise_to-ge_self : (h n : ℕ) → n ≤ raise_to h (pos n)
unfolding raise_to
raise_to-ge_self h n = ground arith

highest_from-ge : (h : ℕ) (names : List Bytes) → h ≤ highest_from h names
unfolding highest_from
highest_from-ge h [] = omega arith
highest_from-ge h (name ∷ names) = omega (
  arith,
  highest_from-ge (raise_to h (archive_version_from_name name)) names,
  raise_to-ge h (archive_version_from_name name),
)

abbrev pub IsAtMost : ℕ → Bytes → Type 0
IsAtMost h name = (k : ℕ) → archive_version_from_name name ≡ pos k → k ≤ h

-- Every version in the directory is at most the highest.
pub highest_from-IsAtMost :
    (h : ℕ) (names : List Bytes) → All (IsAtMost (highest_from h names)) names
unfolding highest_from
highest_from-IsAtMost h [] = tt
highest_from-IsAtMost h (name ∷ names) =
    let start = raise_to h (archive_version_from_name name) in
    (
      λ k e. le_trans (raise_to-ge_of k e) (highest_from-ge start names),
      highest_from-IsAtMost start names,
    )
  where
    raise_to-ge_of :
        (k : ℕ)
        → archive_version_from_name name ≡ pos k
        → k ≤ raise_to h (archive_version_from_name name)
    raise_to-ge_of k e = rw e (raise_to-ge_self h k)

-- Some name of the list is of this version.
abbrev pub HasVersion : ℕ → List Bytes → Type 0
HasVersion v [] = ⊥
HasVersion v (name ∷ names) = (archive_version_from_name name ≡ pos v) ⊎ HasVersion v names

raise_to-either : (h : ℕ) (z : ℤ) → (raise_to h z ≡ h) ⊎ (z ≡ pos (raise_to h z))
unfolding raise_to
raise_to-either h (pos n) = elim (Bool-cases (ltb h n)) [
  | inl e ↦ inr (rw e refl)
  | inr e ↦ inl (rw e refl)
]
raise_to-either h (negsuc n) = inl refl

-- The highest version is the one at the start, or one of the directory.
pub highest_from-HasVersion :
    (h : ℕ) (names : List Bytes)
    → (highest_from h names ≡ h) ⊎ HasVersion (highest_from h names) names
unfolding highest_from
highest_from-HasVersion h [] = inl refl
highest_from-HasVersion h (name ∷ names) =
    let z = archive_version_from_name name in
    elim (highest_from-HasVersion (raise_to h z) names) [
      | inr b ↦ inr (inr b)
      | inl e ↦ elim (raise_to-either h z) [
        | inl d ↦ inl (e ∙ d)
        | inr d ↦ inr (inl (d ∙ ap pos (sym e)))
      ]
    ]

parsed_range :
    (r : Option ℤ) (n : ℕ)
    → (r ≡ some (pos n) → n ≤ max_int)
    → parsed_or_zero r ≡ pos n
    → n ≤ max_int
parsed_range none n h e = ground arith
parsed_range (some z) n h e = h (ap some e)

version_of_text-le : (o : Option Bytes) (n : ℕ) → version_of_text o ≡ pos n → n ≤ max_int
version_of_text-le none n e = ground arith
version_of_text-le (some []) n e = ground arith
version_of_text-le (some (c ∷ s)) n e = parsed_range (atoi (c ∷ s)) n (atoi-le-max_int (c ∷ s) n) e

version-le-max_int : (name : Bytes) (n : ℕ) → archive_version_from_name name ≡ pos n → n ≤ max_int
unfolding archive_version_from_name
version-le-max_int name n =
    if-property (λ (z : ℤ). z ≡ pos n → n ≤ max_int) (has_suffix name extension)
      (λ _. version_of_text-le _ n) (λ _ e. ground arith)

raise_to-le :
    (h : ℕ) (z : ℤ) → h ≤ max_int → ((n : ℕ) → z ≡ pos n → n ≤ max_int) → raise_to h z ≤ max_int
unfolding raise_to
raise_to-le h (pos n) le f = ground (arith, f n refl)
raise_to-le h (negsuc n) le f = le

highest_from-le : (h : ℕ) (names : List Bytes) → h ≤ max_int → highest_from h names ≤ max_int
unfolding highest_from
highest_from-le h [] le = le
highest_from-le h (name ∷ names) le =
    highest_from-le (raise_to h (archive_version_from_name name)) names
      (raise_to-le h _ le (version-le-max_int name))

succ_int-pos : (h v : ℕ) → h ≤ max_int → succ_int h ≡ pos v → (v ≡ h + 1) × (v ≤ max_int)
unfolding succ_int
succ_int-pos h v le e = (ground arith, ground arith)

pub All-map :
    {A : Type 0} (P Q : A → Type 0) → ((a : A) → P a → Q a) → (xs : List A) → All P xs → All Q xs
All-map P Q f [] h = tt
All-map P Q f (x ∷ xs) h = (f x h.0, All-map P Q f xs h.1)

-- Where `NextVersion` returns a positive version for a directory, none of the four files of that
-- version is in the directory, whatever names are in it.
pub next_version_fresh :
    (names : List Bytes) (v : ℕ) (kind : Kind)
    → next_version (some names) ≡ pos v
    → All (λ name. name ≢ archive_name kind v) names
unfolding next_version
next_version_fresh names v kind e =
    let h = highest_from 0 names in
    let known = succ_int-pos h v (highest_from-le 0 names (omega arith)) e in
    All-map (IsAtMost h) _
      (λ name below same. absurd (
        omega (
          arith,
          known.0,
          below v (ap archive_version_from_name same ∙ version-archive_name kind v known.1),
        )))
      names (highest_from-IsAtMost 0 names)
