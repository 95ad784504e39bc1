-- ===== src/Storage/Write/Served.antt =====
-- What a reader of the live directory sees of `Write` of internal/storage/lineage.go.
use go_certbot.Prelude.{
  ℕ, ◌≡◌, ◌⊎◌, inl, inr, refl, sym, ap, ◌∙◌, Bool, [], ◌∷◌, ◌++◌, Option, none, some, Bytes, codes,
  if◌then◌else◌, append_assoc, Bool-cases,
}
use go_certbot.Golib.Map.{get}
use go_certbot.Golib.Strings.Laws.{has_prefix-append, trim_prefix-append}
use go_certbot.Golib.Strings.{has_prefix, trim_prefix}
use go_certbot.Prelude.Int.{pos}
use go_certbot.Storage.Version.{Kind}
use go_certbot.Storage.Write.Crash.{write-Safe}
use go_certbot.Storage.Write.Steps.{contents_of, pem_of, IsComplete, Safe}
use go_certbot.Storage.Write.{
  Call, StoredFile, Tree, files, Pem, Pems, archive_file, link_target, split_leaf, free_version,
  write,
}

abbrev pub archive_prefix : Bytes → Bytes
archive_prefix cert_name = codes "../../archive/" ++ (cert_name ++ b'/' ∷ [])

abbrev pub follow : Bytes → Tree → Option Bytes → Option Bytes
follow cert_name t none = none
follow cert_name t (some target) =
    if has_prefix target (archive_prefix cert_name)
    then contents_of (get (trim_prefix target (archive_prefix cert_name)) (files t))
    else none

-- The contents of the file that a link leads to, where it leads into the archive.
unfoldable pub served : Bytes → Tree → Kind → Option Bytes
unfolding get has_prefix trim_prefix
served cert_name t kind = follow cert_name t (t.live.link kind)

kept_contents :
    (o o' : Option StoredFile) (c : Bytes)
    → ((f : StoredFile) → o ≡ some f → o' ≡ some f)
    → contents_of o ≡ some c
    → contents_of o' ≡ some c
kept_contents none o' c h e = absurd (cc e)
kept_contents (some f) o' c h e = rw (h f refl) e

module _ (cert_name : Bytes) (v : ℕ) (p : Pems) (before t : Tree)
    (s : Safe before cert_name v p t) where
  follow-kept :
      (link : Option Bytes) (c : Bytes)
      → follow cert_name before link ≡ some c
      → follow cert_name t link ≡ some c
  follow-kept none c e = absurd (cc e)
  follow-kept (some target) c e = elim (Bool-cases (has_prefix target (archive_prefix cert_name))) [
    | inl b ↦
        rw b
          (kept_contents _ _ c (s.kept (trim_prefix target (archive_prefix cert_name))) (rw b at e))
    | inr b ↦ absurd (cc (rw b at e))
  ]

  follow-link_target :
      (k : Kind)
      → IsComplete v p t
      → follow cert_name t (some (link_target cert_name k (pos v))) ≡ some (pem_of p k)
  unfolding link_target
  follow-link_target k h =
      let file = archive_file k (pos v) in
      ap (λ l. follow cert_name t (some l)) (whole file)
      ∙ rw
          (
            has_prefix-append (archive_prefix cert_name) file,
            trim_prefix-append (archive_prefix cert_name) file,
          )
          (h k)
    where
      whole :
          (file : Bytes)
          → codes "../../archive/" ++ (cert_name ++ (b'/' ∷ file))
            ≡ archive_prefix cert_name ++ file
      whole file =
          ap (λ x. codes "../../archive/" ++ x) (sym (append_assoc cert_name (b'/' ∷ []) file))
          ∙ sym (append_assoc (codes "../../archive/") (cert_name ++ b'/' ∷ []) file)

  served-Safe :
      (k : Kind) (c : Bytes)
      → served cert_name before k ≡ some c
      → (served cert_name t k ≡ some c) ⊎ (served cert_name t k ≡ some (pem_of p k))
  unfolding served
  served-Safe k c e = elim (s.links k) [
    | inl same ↦ inl (ap (follow cert_name t) same ∙ follow-kept (before.live.link k) c e)
    | inr (linked, complete) ↦ inr (ap (follow cert_name t) linked ∙ follow-link_target k complete)
  ]

-- A reader that follows a live link to some contents before a write follows it, at any point of the
-- write, and after it, whatever calls fail, to the same contents or to those of that kind that the
-- write was to store. The next version is assumed to fit in an `int`.
pub served-write :
    (pem : Pem) (succeeds : Call → Bool) (cert_name full : Bytes) (chain_pem : Option Bytes)
    (key : Bytes) (before : Tree) (v : ℕ) (p : Pems) (k : Kind) (c : Bytes)
    → free_version before ≡ pos v
    → split_leaf pem full chain_pem key ≡ some p
    → served cert_name before k ≡ some c
    → (served cert_name ((write pem succeeds cert_name full chain_pem key before).1) k ≡ some c)
      ⊎ (served cert_name ((write pem succeeds cert_name full chain_pem key before).1) k
          ≡ some (pem_of p k))
served-write pem succeeds cert_name full chain_pem key before v p k c h e old =
    served-Safe cert_name v p before _
      (write-Safe pem succeeds cert_name full chain_pem key before v p h e) k c old
