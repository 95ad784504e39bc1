-- ===== src/Apache/Lines.antt =====
-- `logicalLines` of internal/plugins/apache/parser/parser.go.
pub mod Whole
use go_certbot.Prelude.{List, [], ◌∷◌, ◌++◌, Bytes, codes, ◌==◌, ℕ, if◌then◌else◌}
use go_certbot.Golib.Strings.{has_suffix, trim_suffix}

pub record LogicalLine : Type 0 where
  pub raw : Bytes
  pub newline : Bytes

abbrev pub first_onto : ℕ → List LogicalLine → List LogicalLine
first_onto c [] = record { raw = c ∷ []; newline = [] } ∷ []
first_onto c (l ∷ ls) = record l { raw = c ∷ l.raw } ∷ ls

-- The lines that the loop cuts off the source: the last one may have no newline.
unfoldable pub physical_lines : Bytes → List LogicalLine
physical_lines [] = []
physical_lines (c ∷ s) =
    let rest = physical_lines s in
    if c == b'\n' then record { raw = []; newline = codes "\n" } ∷ rest else first_onto c rest

abbrev pending_line : Bytes → List LogicalLine
pending_line [] = []
pending_line (c ∷ s) = record { raw = c ∷ s; newline = [] } ∷ []

-- The lines with a backslash at their end are put before the next one.
unfoldable pub join_continued : Bytes → List LogicalLine → List LogicalLine
unfolding has_suffix trim_suffix
join_continued pending [] = pending_line pending
join_continued pending (l ∷ ls) =
    let joined = join_continued (pending ++ (trim_suffix l.raw (codes "\\") ++ codes " ")) ls in
    let after = join_continued [] ls in
    if has_suffix l.raw (codes "\\")
    then joined
    else record { raw = pending ++ l.raw; newline = l.newline } ∷ after

unfoldable pub logical_lines : Bytes → List LogicalLine
unfolding physical_lines join_continued
logical_lines s = join_continued [] (physical_lines s)
