-- ===== src/Hooks/Command.antt =====
-- `Validate`, `PostEnv` and `truncatedJoin` of internal/hooks/hooks.go.
use go_certbot.Golib.Utf8.{space_width, decode_rune, is_space}
use go_certbot.Golib.Strings.Scan.{scan}
use go_certbot.Golib.Strings.Fields.{fields_from}
use go_certbot.Prelude.{
  zero, suc, ap, append-nil, drop, take-append-drop, ltb→lt, Bool-cases, ℕ, ◌*◌, ◌≤◌, ◌≡◌, refl,
  inl, inr, Bool, true, false, List, [], ◌∷◌, ◌++◌, Bytes, codes, length, take, ltb, leb, Option,
  none, some, ◌<◌, ◌≢◌, if◌then◌else◌, length-take, arith,
}
use go_certbot.Golib.Strings.Fields.{fields}
use go_certbot.Golib.Strings.Split.{join}

-- A call of a hook function: it returns an error or not, or it panics.
pub data Verdict : Type 0 where
  accepted refused panics : Verdict

-- The program is looked up in PATH first; an absolute path may also be an executable file.
abbrev look_up : (Bytes → Bool) → (Bytes → Bool) → Bytes → Verdict
look_up in_path is_abs_executable prog =
    if in_path prog then accepted else if is_abs_executable prog then accepted else refused

-- `strings.Fields(command)[0]` panics where there is no word.
abbrev validate_words : (Bytes → Bool) → (Bytes → Bool) → List Bytes → Verdict
validate_words in_path is_abs_executable [] = panics
validate_words in_path is_abs_executable (prog ∷ args) = look_up in_path is_abs_executable prog

-- `in_path` is `exec.LookPath`; `is_abs_executable` is `filepath.IsAbs`, `os.Stat` and
-- `isExecutable` together.
unfoldable pub validate : (Bytes → Bool) → (Bytes → Bool) → Bytes → Verdict
unfolding fields
validate in_path is_abs_executable [] = accepted
validate in_path is_abs_executable (c ∷ command) =
    validate_words in_path is_abs_executable (fields (c ∷ command))

abbrev pub spaces : ℕ → Bytes
spaces zero = []
spaces (suc n) = b' ' ∷ spaces n

scan-spaces : (fuel n : ℕ) → n ≤ fuel → (scan space_width fuel (spaces n)).1 ≡ []
unfolding scan space_width decode_rune is_space
scan-spaces zero zero h = refl
scan-spaces zero (suc n) h = absurd (omega arith)
scan-spaces (suc fuel) zero h = refl
scan-spaces (suc fuel) (suc n) h = scan-spaces fuel n (omega arith)

length-spaces : (n : ℕ) → length (spaces n) ≡ n
length-spaces zero = refl
length-spaces (suc n) = ap suc (length-spaces n)

fields-spaces : (n : ℕ) → fields (b' ' ∷ spaces n) ≡ []
unfolding fields fields_from
fields-spaces n =
    rw (scan-spaces (length (spaces (suc n))) (suc n) (omega (arith, length-spaces n))) refl

-- `s[:n]`: `none` is the panic for a bound behind the end.
unfoldable pub slice_to : ℕ → Bytes → Option Bytes
slice_to n s = if leb n (length s) then some (take n s) else none

unfoldable pub truncated_join : List Bytes → ℕ → Option Bytes
unfolding join slice_to
truncated_join items max_bytes =
    let s = join (codes " ") items in
    if ltb max_bytes (length s) then slice_to max_bytes s else some s

abbrev pub max_env : ℕ
max_env = 16 * 1024

abbrev env_lines : Option Bytes → Option Bytes → Option (List Bytes)
env_lines (some renewed) (some failed) =
    some ((codes "RENEWED_DOMAINS=" ++ renewed) ∷ (codes "FAILED_DOMAINS=" ++ failed) ∷ [])
env_lines _ _ = none

-- `none` is a panic of `truncatedJoin`.
unfoldable pub post_env : List Bytes → List Bytes → Option (List Bytes)
unfolding truncated_join
post_env renewed failed = env_lines (truncated_join renewed max_env) (truncated_join failed max_env)

-- A command of nothing but spaces, one at least, makes the check of the command panic.
pub validate-blank :
    (in_path is_abs_executable : Bytes → Bool) (blanks : ℕ)
    → validate in_path is_abs_executable (b' ' ∷ spaces blanks) ≡ panics
unfolding validate
validate-blank in_path is_abs_executable blanks = rw (fields-spaces blanks) refl

-- The start of a text that a limit leaves: all of it where it fits, and else as much as does.
pub record Fits (limit : ℕ) (s t : Bytes) : Type 0 where
  pub cut : Bytes
  pub parts : t ++ cut ≡ s
  pub whole : length s ≤ limit → t ≡ s
  pub full : limit < length s → length t ≡ limit

leb_of : (a b : ℕ) → a ≤ b → leb a b ≡ true
leb_of a b h = ground arith

short : (a b : ℕ) → ltb a b ≡ false → a < b → ⊥
short a b e h = ground arith

cut_at :
    (limit : ℕ) (s : Bytes)
    → (t : Bytes) × ((if ltb limit (length s) then slice_to limit s else some s) ≡ some t)
      × Fits limit s t
unfolding slice_to
cut_at limit s = elim (Bool-cases (ltb limit (length s))) [
  | inl e ↦
      let long = ltb→lt limit (length s) e in
      (
        take limit s,
        rw (e, leb_of limit (length s) (omega (arith, long))) refl,
        record {
          cut = drop limit s;
          parts = take-append-drop limit s;
          whole = λ h. absurd (omega (arith, long, h));
          full = λ h. length-take limit s (omega (arith, long));
        },
      )
  | inr e ↦ (
    s,
    rw e refl,
    record {
      cut = [];
      parts = append-nil s;
      whole = λ h. refl;
      full = λ h. absurd (short limit (length s) e h);
    },
  )
]

-- The text of an environment variable of the post hook is there for all names and all limits, with
-- no panic: it is all of the names, joined by spaces, where they fit, and otherwise a start of
-- that text which is exactly as long as the limit.
pub truncated_join-Fits :
    (items : List Bytes) (limit : ℕ)
    → (t : Bytes) × (truncated_join items limit ≡ some t) × Fits limit (join (codes " ") items) t
unfolding truncated_join
truncated_join-Fits items limit = cut_at limit (join (codes " ") items)

-- So the post hook always gets its two variables.
pub post_env_total : (renewed failed : List Bytes) → post_env renewed failed ≢ none
unfolding post_env
post_env_total renewed failed h =
    let a = truncated_join-Fits renewed max_env in
    let b = truncated_join-Fits failed max_env in cc (rw (a.1, b.1) at h)
