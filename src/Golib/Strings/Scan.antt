-- ===== src/Golib/Strings/Scan.antt =====
-- The loop that takes runes off the front of a string while a test of the front gives a width.
use go_certbot.Prelude.{
  ℕ, zero, suc, ◌≤◌, ◌≡◌, refl, ap, ◌∙◌, [], ◌∷◌, ◌++◌, Bytes, length, take, drop, append_assoc,
  take-append-drop, length-drop, arith, ◌⊎◌, inl, inr,
}

-- What was taken, and what is left. `width` is 0 where the loop stops.
unfoldable pub scan : (Bytes → ℕ) → ℕ → Bytes → Bytes × Bytes
scan width zero s = ([], s)
scan width (suc fuel) s = elim (width s) [
  | zero ↦ ([], s)
  | suc w ↦ let (taken, left) = scan width fuel (drop (suc w) s) in (take (suc w) s ++ taken, left)
]

ℕ-cases : (n : ℕ) → (n ≡ zero) ⊎ ((k : ℕ) × (n ≡ suc k))
ℕ-cases zero = inl refl
ℕ-cases (suc k) = inr (k, refl)

module _ (width : Bytes → ℕ) where
  -- Nothing is lost or reordered.
  pub scan-append : (fuel : ℕ) (s : Bytes) → (scan width fuel s).0 ++ (scan width fuel s).1 ≡ s
  unfolding scan
  scan-append zero s = refl
  scan-append (suc fuel) s = elim (ℕ-cases (width s)) [
    | inl e ↦ rw (e, scan)
    | inr (k, e) ↦
        rw (e, scan)
          (append_assoc (take (suc k) s) _ _
            ∙ ap (◌++◌ (take (suc k) s)) (scan-append fuel (drop (suc k) s))
            ∙ take-append-drop (suc k) s)
  ]

  -- With fuel for each byte the loop ends by its test.
  pub scan_stops :
      (width [] ≡ 0) → (fuel : ℕ) (s : Bytes) → length s ≤ fuel → width (scan width fuel s).1 ≡ 0
  unfolding scan
  scan_stops nil zero [] h = nil
  scan_stops nil zero (c ∷ s) h = absurd (omega arith)
  scan_stops nil (suc fuel) s h = elim (ℕ-cases (width s)) [
    | inl e ↦ rw (e, scan) e
    | inr (k, e) ↦
        rw (e, scan) (scan_stops nil fuel (drop (suc k) s) (omega (arith, length-drop (suc k) s)))
  ]

  pub length-scan : (fuel : ℕ) (s : Bytes) → length (scan width fuel s).1 ≤ length s
  unfolding scan
  length-scan zero s = omega arith
  length-scan (suc fuel) s = elim (ℕ-cases (width s)) [
    | inl e ↦ rw (e, scan) (omega arith)
    | inr (k, e) ↦
        rw (e, scan) (omega (arith, length-drop (suc k) s, length-scan fuel (drop (suc k) s)))
  ]
