-- ===== src/Storage/Version.antt =====
-- The version numbers of archive files: `archiveVersionFromName`, `NextVersion`, `archiveSet` of
-- internal/storage/lineage.go. A directory is the list of the names in it.
pub mod Fresh
use go_certbot.Prelude.{
  ℕ, zero, suc, ◌+◌, Bool, true, false, List, [], ◌∷◌, ◌++◌, Option, none, some, Bytes, codes, ltb,
  ◌==◌, if◌then◌else◌,
}
use go_certbot.Prelude.Int.{ℤ, pos, negsuc}
use go_certbot.Golib.Strings.{has_prefix, has_suffix, trim_prefix, trim_suffix}
use go_certbot.Golib.Strconv.{atoi, itoa, max_int}

-- The four files of a version.
pub data Kind : Type 0 where
  cert privkey chain fullchain : Kind

abbrev pub stem_of : Kind → Bytes
stem_of cert = codes "cert"
stem_of privkey = codes "privkey"
stem_of chain = codes "chain"
stem_of fullchain = codes "fullchain"

abbrev pub extension : Bytes
extension = codes ".pem"

-- What stands between the kind and the extension, tested in the source's order.
unfoldable pub version_text : Bytes → Option Bytes
version_text stem =
    if has_prefix stem (stem_of fullchain)
    then some (trim_prefix stem (stem_of fullchain))
    else if has_prefix stem (stem_of privkey)
    then some (trim_prefix stem (stem_of privkey))
    else if has_prefix stem (stem_of chain)
    then some (trim_prefix stem (stem_of chain))
    else if has_prefix stem (stem_of cert)
    then some (trim_prefix stem (stem_of cert))
    else none

abbrev pub parsed_or_zero : Option ℤ → ℤ
parsed_or_zero none = pos 0
parsed_or_zero (some n) = n

-- An empty text is no number for `Atoi` either.
abbrev pub version_of_text : Option Bytes → ℤ
version_of_text none = pos 0
version_of_text (some []) = pos 0
version_of_text (some (c ∷ s)) = parsed_or_zero (atoi (c ∷ s))

unfoldable pub archive_version_from_name : Bytes → ℤ
unfolding version_text
archive_version_from_name name =
    if has_suffix name extension
    then version_of_text (version_text (trim_suffix name extension))
    else pos 0

-- `if n > highest { highest = n }`, for `highest` from 0.
unfoldable pub raise_to : ℕ → ℤ → ℕ
raise_to highest (pos n) = if ltb highest n then n else highest
raise_to highest (negsuc n) = highest

unfoldable pub highest_from : ℕ → List Bytes → ℕ
unfolding raise_to
highest_from highest [] = highest
highest_from highest (name ∷ names) =
    highest_from (raise_to highest (archive_version_from_name name)) names

-- `highest + 1`, which wraps at the largest `int`.
unfoldable pub succ_int : ℕ → ℤ
succ_int n = if n == max_int then negsuc max_int else pos (n + 1)

-- `NextVersion`: `none` is a directory that does not exist.
unfoldable pub next_version : Option (List Bytes) → ℤ
unfolding highest_from succ_int archive_version_from_name
next_version none = pos 1
next_version (some names) = succ_int (highest_from 0 names)

-- The name of the file of a version: one field of `archiveSet`, without its directory.
unfoldable pub archive_name : Kind → ℕ → Bytes
archive_name kind version = stem_of kind ++ (itoa version ++ extension)
