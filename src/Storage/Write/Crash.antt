-- ===== src/Storage/Write/Crash.antt =====
-- `Write` of internal/storage/lineage.go as a whole, where any call may fail or the program stops.
use go_certbot.Prelude.{
  ℕ, ◌≡◌, ◌≢◌, inl, inr, refl, Bool, true, [], ◌∷◌, Option, none, some, Bytes, All, Bool-cases,
}
use go_certbot.Golib.Map.Keys.{keys}
use go_certbot.Golib.Map.{Map, get}
use go_certbot.Golib.Strings.Laws.{equal_iff}
use go_certbot.Golib.Strings.{equal}
use go_certbot.Prelude.Int.{pos}
use go_certbot.Storage.Version.Fresh.{next_version_fresh}
use go_certbot.Storage.Version.{Kind, archive_name, next_version}
use go_certbot.Storage.Write.Steps.{Safe, Deployed, Outcome}
use go_certbot.Storage.Write.Linked.{write_version-Outcome}
use go_certbot.Storage.Write.{
  Call, WriteError, failed, StoredFile, Tree, files_of, Pem, Pems, continue, archive_file,
  validate_pem_chain, split_leaf, free_version, names_of, write_version, write_pems, write,
}

get-absent : {V : Type 0} (k : Bytes) (m : Map V) → All (λ name. name ≢ k) (keys m) → get k m ≡ none
unfolding get
get-absent k [] h = refl
get-absent k ((j, x) ∷ m) h = elim (Bool-cases (equal j k)) [
  | inl e ↦ absurd (h.0 ((equal_iff j k).0 e))
  | inr e ↦ rw e (get-absent k m (h.1))
]

free_version-fresh :
    (archive : Option (Map StoredFile)) (v : ℕ) (k : Kind)
    → next_version (names_of archive) ≡ pos v
    → get (archive_file k (pos v)) (files_of archive) ≡ none
unfolding archive_file archive_name get
free_version-fresh none v k h = refl
free_version-fresh (some m) v k h =
    get-absent (archive_name k v) m (next_version_fresh (keys m) v k h)

write_version_at :
    (succeeds : Call → Bool) (cert_name : Bytes) (before : Tree) (v : ℕ) (p : Pems)
    → free_version before ≡ pos v
    → Outcome before cert_name v p succeeds
        (write_version succeeds cert_name (free_version before) p before)
unfolding free_version
write_version_at succeeds cert_name before v p h = rw h (
    write_version-Outcome before cert_name v p succeeds
      (λ k. free_version-fresh (before.archive) v k h))

-- A chain that is refused changes nothing.
Outcome-Safe :
    (succeeds : Call → Bool) (cert_name : Bytes) (before : Tree) (v : ℕ) (p : Pems)
    (r : Option WriteError × Tree)
    → Outcome before cert_name v p succeeds r
    → Safe before cert_name v p (r.1)
Outcome-Safe succeeds cert_name before v p (none, t) h = record {
  kept = h.kept;
  links = λ k. inr (h.linked k, h.complete);
}
Outcome-Safe succeeds cert_name before v p (some e, t) h = h.1

module _ (pem : Pem) (succeeds : Call → Bool) (cert_name full : Bytes) (chain_pem : Option Bytes)
    (key : Bytes) (before : Tree) (v : ℕ) (p : Pems) where
  abbrev pub written : Option WriteError × Tree
  written = write pem succeeds cert_name full chain_pem key before

  checked :
      (o : Option WriteError)
      → free_version before ≡ pos v
      → Safe before cert_name v p
          ((continue (o, before) (write_pems succeeds cert_name (some p))).1)
  checked (some e) h = record { kept = λ name f g. g; links = λ k. inl refl }
  checked none h =
      Outcome-Safe succeeds cert_name before v p _
        (write_version_at succeeds cert_name before v p h)

  -- Whatever calls on the file system fail, and wherever the program stops, every file of the archive
  -- keeps its contents and mode, and each link points where it did before or to its file of a version
  -- that has all four files, with the contents that were to be stored. The next version is assumed to
  -- fit in an `int`.
  pub write-Safe :
      free_version before ≡ pos v
      → split_leaf pem full chain_pem key ≡ some p
      → Safe before cert_name v p (written.1)
  unfolding write
  write-Safe h e = rw e (checked (validate_pem_chain pem full) h)

  no_failure :
      (r : Option WriteError × Tree)
      → ((c : Call) → succeeds c ≡ true)
      → Outcome before cert_name v p succeeds r
      → (r.0 ≡ none) × Deployed before cert_name v p (r.1)
  no_failure (none, t) a h = (refl, h)
  no_failure (some (failed c), t) a h = absurd (cc (h.0, a c))
  no_failure (some _, t) a h = absurd (h.0)

  -- Where the chain is valid, it splits into the leaf and the rest, the next version fits in an
  -- `int`, and every call on the file system succeeds, `Write` succeeds: it does not take a version
  -- whose key is there. The new version has the four files, every link points at it, and every file
  -- that was there is as it was.
  pub write-Deployed :
      validate_pem_chain pem full ≡ none
      → split_leaf pem full chain_pem key ≡ some p
      → free_version before ≡ pos v
      → ((c : Call) → succeeds c ≡ true)
      → (written.0 ≡ none) × Deployed before cert_name v p (written.1)
  unfolding write
  write-Deployed valid e h a =
      rw (e, valid)
        (no_failure (write_version succeeds cert_name (free_version before) p before) a
          (write_version_at succeeds cert_name before v p h))
