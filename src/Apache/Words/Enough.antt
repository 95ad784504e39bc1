-- ===== src/Apache/Words/Enough.antt =====
-- The fuel of `splitArgs` of internal/plugins/apache/parser/parser.go.
use go_certbot.Prelude.{
  ℕ, zero, suc, ◌≤◌, ◌≡◌, refl, ap, Bool, true, false, List, [], ◌∷◌, Bytes, length, ◌==◌,
  if◌then◌else◌, if-property, arith,
}
use go_certbot.Apache.Words.{quoted, bare, word, split_word, split_from, split_args}
use go_certbot.Golib.Strings.Index.{is_blank, trim_left_blanks}

abbrev Rest : ℕ → Bytes × Bytes → Type 0
Rest n r = length (r.1) ≤ n

length-quoted : (s : Bytes) → Rest (length s) (quoted s)
unfolding quoted
length-quoted [] = omega arith
length-quoted (c ∷ []) = omega arith
length-quoted (c ∷ d ∷ s) =
    if-property (Rest (length (c ∷ d ∷ s))) (c == b'\\') (λ _. omega (arith, length-quoted s))
      (λ _.
        if-property (Rest (length (c ∷ d ∷ s))) (c == b'"') (λ _. omega arith)
          (λ _. omega (arith, length-quoted (d ∷ s))))

length-bare : (s : Bytes) → Rest (length s) (bare s)
unfolding bare
length-bare [] = omega arith
length-bare (c ∷ s) =
    if-property (Rest (length (c ∷ s))) (is_blank c) (λ _. omega arith)
      (λ _. omega (arith, length-bare s))

length-word : (c : ℕ) (s : Bytes) → Rest (length s) (word c s)
unfolding word
length-word c s =
    if-property (Rest (length s)) (c == b'"') (λ _. length-quoted s) (λ _. length-bare s)

length-trim_left_blanks : (s : Bytes) → length (trim_left_blanks s) ≤ length s
unfolding trim_left_blanks
length-trim_left_blanks [] = omega arith
length-trim_left_blanks (c ∷ s) =
    shorter (is_blank c) (trim_left_blanks s) (c ∷ s) (length (c ∷ s))
      (omega (arith, length-trim_left_blanks s)) (omega arith)
  where
    shorter :
        (b : Bool) (x y : Bytes) (n : ℕ)
        → length x ≤ n
        → length y ≤ n
        → length (if b then x else y) ≤ n
    shorter true x y n h k = h
    shorter false x y n h k = k

split_word-more :
    (more more' : Bytes → List Bytes) (t : Bytes)
    → ((r : Bytes) → suc (length r) ≤ length t → more r ≡ more' r)
    → split_word more t ≡ split_word more' t
unfolding split_word
split_word-more more more' [] h = refl
split_word-more more more' (c ∷ t) h =
    ap (λ ws. (word c t).0 ∷ ws) (h ((word c t).1) (omega (arith, length-word c t)))

-- Any fuel from the length of the text on gives the same words.
split_from_enough :
    (f g : ℕ) (s : Bytes) → length s ≤ f → length s ≤ g → split_from f s ≡ split_from g s
unfolding split_from
split_from_enough zero zero s h k = refl
split_from_enough zero (suc g) [] h k = unfold split_word trim_left_blanks in refl
split_from_enough zero (suc g) (c ∷ s) h k = absurd (omega (arith, h))
split_from_enough (suc f) zero [] h k = unfold split_word trim_left_blanks in refl
split_from_enough (suc f) zero (c ∷ s) h k = absurd (omega (arith, k))
split_from_enough (suc f) (suc g) s h k =
    split_word-more (split_from f) (split_from g) (trim_left_blanks s) (λ r le.
      split_from_enough f g r (omega (arith, le, length-trim_left_blanks s, h))
        (omega (arith, le, length-trim_left_blanks s, k)))

pub split_args_enough : (fuel : ℕ) (s : Bytes) → length s ≤ fuel → split_from fuel s ≡ split_args s
unfolding split_args
split_args_enough fuel s h = split_from_enough fuel (length s) s h (omega arith)
