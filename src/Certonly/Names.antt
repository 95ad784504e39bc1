-- ===== src/Certonly/Names.antt =====
-- `nextDuplicateCertName` and `mergeExistingKeyType` of internal/verbs/certonly.go.
use go_certbot.Prelude.{
  ℕ, zero, suc, ◌+◌, ◌-◌, ◌≤◌, ◌<◌, ◌==◌, ==→eq, arith, ◌≡◌, ◌⊎◌, inl, inr, Bool, true, false, not,
  ◌&&◌, [], ◌∷◌, ◌++◌, Option, none, some, Bytes, codes, length, if◌then◌else◌, Bool-cases,
}
use go_certbot.Golib.Map.{Map, get}
use go_certbot.Golib.Strconv.{itoa}
use go_certbot.Golib.Strings.{equal}

abbrev pub zeros : ℕ → Bytes
zeros zero = []
zeros (suc n) = b'0' ∷ zeros n

-- `%04d`
abbrev pub padded : ℕ → Bytes
padded i = zeros (4 - length (itoa i)) ++ itoa i

unfoldable pub candidate : Bytes → ℕ → Bytes
candidate base zero = base
candidate base (suc i) = base ++ (codes "-" ++ padded (suc i))

-- `for i := 0; i < 1000; i++`, with `rounds` left; `is_missing` is whether `os.Stat` of the renewal
-- configuration of a name says that it does not exist.
unfoldable pub candidate_from : (Bytes → Bool) → Bytes → ℕ → ℕ → Bytes
unfolding candidate
candidate_from is_missing base zero i = base ++ codes "-dddd"
candidate_from is_missing base (suc rounds) i =
    let later = candidate_from is_missing base rounds (i + 1) in
    if is_missing (candidate base i) then candidate base i else later

unfoldable pub next_duplicate_cert_name : (Bytes → Bool) → Bytes → Bytes
unfolding candidate_from
next_duplicate_cert_name is_missing base = candidate_from is_missing base 1000 0

-- The part of the configuration that `mergeExistingKeyType` reads and writes.
pub record KeyOptions : Type 0 where
  pub key_type : Bytes
  pub elliptic_curve : Bytes
  pub key_type_set : Bool
  pub elliptic_curve_set : Bool

abbrev pub value_or : Bytes → Option Bytes → Bytes
value_or old none = old
value_or old (some []) = old
value_or old (some (c ∷ v)) = c ∷ v

abbrev merge_curve : Map Bytes → KeyOptions → KeyOptions
merge_curve params k =
    if equal k.key_type (codes "ecdsa") && not k.elliptic_curve_set
    then record k {
      elliptic_curve = value_or k.elliptic_curve (get (codes "elliptic_curve") params);
    }
    else k

abbrev merge_params : Map Bytes → KeyOptions → KeyOptions
merge_params params k =
    merge_curve params (record k { key_type = value_or k.key_type (get (codes "key_type") params) })

-- `none` is a renewal configuration that does not load; otherwise its `RenewalParams`.
unfoldable pub merge_existing_key_type : Option (Map Bytes) → KeyOptions → KeyOptions
unfolding get equal
merge_existing_key_type none k = k
merge_existing_key_type (some params) k = if k.key_type_set then k else merge_params params k

at_or_after :
    (is_missing : Bytes → Bool) (base : Bytes) (i k : ℕ)
    → is_missing (candidate base i) ≡ false
    → i ≤ k
    → (i + 1 ≤ k → is_missing (candidate base k) ≡ false)
    → is_missing (candidate base k) ≡ false
at_or_after is_missing base i k e lo later = elim (Bool-cases (i == k)) [
  | inl d ↦ rw (← ==→eq i k d) e
  | inr d ↦ later (ground arith)
]

candidate_from_free :
    (is_missing : Bytes → Bool) (base : Bytes) (rounds i : ℕ)
    → (is_missing (candidate_from is_missing base rounds i) ≡ true)
      ⊎ ((k : ℕ) → i ≤ k → k < i + rounds → is_missing (candidate base k) ≡ false)
unfolding candidate_from
candidate_from_free is_missing base zero i = inr (λ k lo hi. absurd (omega arith))
candidate_from_free is_missing base (suc rounds) i =
    elim (Bool-cases (is_missing (candidate base i))) [
      | inl e ↦ rw e (inl e)
      | inr e ↦ rw e (elim (candidate_from_free is_missing base rounds (i + 1)) [
        | inl f ↦ inl f
        | inr g ↦
            inr (λ k lo hi. at_or_after is_missing base i k e lo (λ above. g k above (omega arith)))
      ])
    ]

-- The name for a second certificate has no renewal configuration, so that no certificate is
-- overwritten, unless all of the 1000 candidates have one.
pub next_duplicate_cert_name_free :
    (is_missing : Bytes → Bool) (base : Bytes)
    → (is_missing (next_duplicate_cert_name is_missing base) ≡ true)
      ⊎ ((k : ℕ) → k < 1000 → is_missing (candidate base k) ≡ false)
unfolding next_duplicate_cert_name
next_duplicate_cert_name_free is_missing base = elim (candidate_from_free is_missing base 1000 0) [
  | inl e ↦ inl e
  | inr f ↦ inr (λ k hi. f k (omega arith) (omega arith))
]
