-- ===== src/Apache/Lines/Whole.antt =====
-- A line with no newline in it and no backslash at its end, in `logicalLines` of
-- internal/plugins/apache/parser/parser.go.
use go_certbot.Prelude.{◌≡◌, refl, false, [], ◌∷◌, ◌++◌, Bytes, codes}
use go_certbot.Apache.Lines.{physical_lines, join_continued, logical_lines}
use go_certbot.Golib.Strings.Index.{Lacks}
use go_certbot.Golib.Strings.{has_suffix}

physical_lines-line :
    (s rest : Bytes)
    → Lacks b'\n' s
    → physical_lines (s ++ b'\n' ∷ rest)
      ≡ record { raw = s; newline = codes "\n" } ∷ physical_lines rest
unfolding physical_lines
physical_lines-line [] rest h = refl
physical_lines-line (c ∷ s) rest h = rw (h.0, physical_lines-line s rest (h.1)) refl

pub logical_lines-line :
    (s rest : Bytes)
    → Lacks b'\n' s
    → has_suffix s (codes "\\") ≡ false
    → logical_lines (s ++ b'\n' ∷ rest)
      ≡ record { raw = s; newline = codes "\n" } ∷ logical_lines rest
unfolding logical_lines join_continued
logical_lines-line s rest h e = rw (physical_lines-line s rest h, e) refl
