-- ===== src/RenewalConf/Entry.antt =====
-- A line that `Save` writes for a key and its value, as `parse` of
-- internal/storage/renewalconf/renewalconf.go reads it.
use go_certbot.Prelude.{
  ℕ, suc, ◌+◌, ◌≤◌, ◌≡◌, refl, sym, ap, ◌∙◌, Bool, true, false, not, ◌&&◌, [], ◌∷◌, ◌++◌,
  append_assoc, Option, none, some, Bytes, codes, length, take, drop, ◌==◌, if◌then◌else◌, arith,
}
use go_certbot.Golib.Strings.Ends.{
  Ends, Ends-append, trim_space-Ends, trim_space-Ends_blank, trim_space-blank_Ends,
}
use go_certbot.Golib.Strings.Index.{index_byte, Lacks, index_byte-append}
use go_certbot.Golib.Strings.Laws.{take-append, drop-append_suc}
use go_certbot.Golib.Strings.{has_prefix, trim_space}
use go_certbot.RenewalConf.Parse.{Scope, is_nil, store, parse_line, max_line, key_of, value_of}
use go_certbot.RenewalConf.Save.{line_of}
use go_certbot.RenewalConf.Values.{comment_at, strip_inline_comment}

-- A key and a value that a line can hold: no spaces at their ends, no newline, no `=` in the key and
-- no `#` in the value, a key that does not start a comment or a header, and a line that the reader's
-- buffer holds.
pub record IsLine (k v : Bytes) : Type 0 where
  pub key_ends : Ends k
  pub value_ends : Ends v
  pub key_one_line : Lacks b'\n' k
  pub value_one_line : Lacks b'\n' v
  pub no_equals : Lacks b'=' k
  pub no_hash : Lacks b'#' v
  pub not_comment : (key_ends.first == b'#') ≡ false
  pub not_header : (key_ends.first == b'[') ≡ false
  pub fits : length (line_of k v) ≤ max_line

all_none :
    (a b c : Bool)
    → ◌≡◌ {A = Option ℕ} (if a then none else if b then none else if c then none else none) none
all_none true b c = refl
all_none false true c = refl
all_none false false true = refl
all_none false false false = refl

comment_at-Lacks :
    (single double : Bool) (v : Bytes) → Lacks b'#' v → comment_at single double v ≡ none
unfolding comment_at
comment_at-Lacks single double [] h = refl
comment_at-Lacks single double (c ∷ []) h = rw (h.0) refl
comment_at-Lacks single double (c ∷ d ∷ s) h =
    rw
      (
        h.0,
        comment_at-Lacks single double s (h.1.1),
        comment_at-Lacks single (not double) (d ∷ s) (h.1),
        comment_at-Lacks (not single) double (d ∷ s) (h.1),
        comment_at-Lacks single double (d ∷ s) (h.1),
      )
      (all_none (c == b'\\') (c == b'"' && not single) (c == b'\'' && not double))

strip_inline_comment-Lacks : (v : Bytes) → Lacks b'#' v → strip_inline_comment v ≡ v
unfolding strip_inline_comment
strip_inline_comment-Lacks v h = rw (comment_at-Lacks false false v h) refl

Lacks-append : (b : ℕ) (s t : Bytes) → Lacks b s → Lacks b t → Lacks b (s ++ t)
Lacks-append b [] t h k = k
Lacks-append b (c ∷ s) t h k = (h.0, Lacks-append b s t (h.1) k)

-- The first byte decides these prefixes.
has_prefix-byte :
    (c : ℕ) (s : Bytes) (d : ℕ) (p : Bytes) → (c == d) ≡ false → has_prefix (c ∷ s) (d ∷ p) ≡ false
unfolding has_prefix
has_prefix-byte c s d p h = rw h

module _ (k v : Bytes) (e : IsLine k v) where
  pub line-Ends : Ends (line_of k v)
  line-Ends = Ends-append (codes " = ") (e.key_ends) (e.value_ends)

  pub line-Lacks : Lacks b'\n' (line_of k v)
  line-Lacks =
      Lacks-append b'\n' k (codes " = " ++ v) (e.key_one_line)
        (refl, (refl, (refl, e.value_one_line)))

  equals_at : index_byte b'=' (line_of k v) ≡ some (length (k ++ b' ' ∷ []))
  equals_at =
      ap (index_byte b'=') (sym (append_assoc k (b' ' ∷ []) (codes "= " ++ v)))
      ∙ index_byte-append b'=' (k ++ b' ' ∷ []) (b' ' ∷ v)
          (Lacks-append b'=' k (b' ' ∷ []) (e.no_equals) (refl, tt))

  key_of-line : key_of (line_of k v) (length (k ++ b' ' ∷ [])) ≡ k
  key_of-line =
      ap trim_space (
        ap (take (length (k ++ b' ' ∷ []))) (sym (append_assoc k (b' ' ∷ []) (codes "= " ++ v)))
        ∙ take-append (k ++ b' ' ∷ []) (codes "= " ++ v))
      ∙ trim_space-Ends_blank (e.key_ends)

  value_of-line : value_of (line_of k v) (length (k ++ b' ' ∷ [])) ≡ v
  value_of-line =
      ap (λ s. strip_inline_comment (trim_space s))
        (rw (one_more (length (k ++ b' ' ∷ []))) (
          ap (drop (suc (length (k ++ b' ' ∷ []))))
            (sym (append_assoc k (b' ' ∷ []) (codes "= " ++ v)))
          ∙ drop-append_suc (k ++ b' ' ∷ []) b'=' (b' ' ∷ v)))
      ∙ ap strip_inline_comment (trim_space-blank_Ends (e.value_ends))
      ∙ strip_inline_comment-Lacks v (e.no_hash)
    where
      one_more : (n : ℕ) → n + 1 ≡ suc n
      one_more n = omega arith

  pub line-begins : line_of k v ≡ e.key_ends.first ∷ (e.key_ends.tail ++ (codes " = " ++ v))
  line-begins = ap (λ s. s ++ (codes " = " ++ v)) (e.key_ends.begins)

  pub first_bytes :
      (is_nil (line_of k v) ≡ false)
      × (has_prefix (line_of k v) (codes "#") ≡ false)
      × (has_prefix (line_of k v) (codes "[[") ≡ false)
      × (has_prefix (line_of k v) (codes "[") ≡ false)
  first_bytes = rw line-begins (
    refl,
    has_prefix-byte _ _ b'#' [] (e.not_comment),
    has_prefix-byte _ _ b'[' (codes "[") (e.not_header),
    has_prefix-byte _ _ b'[' [] (e.not_header),
  )

  pub parse_line-line : (s : Scope) → parse_line (line_of k v) s ≡ store k v s
  unfolding parse_line
  parse_line-line s = rw (trim_space-Ends line-Ends) (
      rw (first_bytes.0, first_bytes.1, first_bytes.2, first_bytes.3, equals_at)
        (rw (key_of-line, value_of-line) refl))
