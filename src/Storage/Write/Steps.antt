-- ===== src/Storage/Write/Steps.antt =====
-- The steps of `Write` of internal/storage/lineage.go: what one of them, and a sequence of them, does
-- or leaves behind when a call fails.
use go_certbot.Prelude.{ℕ, ◌≡◌, ◌⊎◌, Bool, false, Option, none, some, Bytes, if-property}
use go_certbot.Golib.Map.{get}
use go_certbot.Prelude.Int.{pos}
use go_certbot.Storage.Version.{Kind, cert, privkey, chain, fullchain}
use go_certbot.Storage.Write.{
  Call, WriteError, failed, StoredFile, Tree, files, call, continue, ◌then_do◌, Step, archive_file,
  link_target, Pems,
}

abbrev pub contents_of : Option StoredFile → Option Bytes
contents_of none = none
contents_of (some f) = some f.contents

abbrev pub pem_of : Pems → Kind → Bytes
pem_of p cert = p.leaf
pem_of p privkey = p.key
pem_of p chain = p.chain_pem
pem_of p fullchain = p.full

-- The four files of a version are in the archive, with these contents.
abbrev pub IsComplete : ℕ → Pems → Tree → Type 0
IsComplete v p t =
    (k : Kind) → contents_of (get (archive_file k (pos v)) (files t)) ≡ some (pem_of p k)

abbrev pub IsLinked : Bytes → ℕ → Kind → Tree → Type 0
IsLinked cert_name v k t = t.live.link k ≡ some (link_target cert_name k (pos v))

-- No file that was there is gone or changed.
abbrev pub KeepsFiles : Tree → Tree → Type 0
KeepsFiles before t =
    (name : Bytes) (file : StoredFile)
    → get name (files before) ≡ some file
    → get name (files t) ≡ some file

-- Each link is as before, or points into a version that is complete.
pub record Safe (before : Tree) (cert_name : Bytes) (v : ℕ) (p : Pems) (t : Tree) : Type 0 where
  pub kept : KeepsFiles before t
  pub links :
      (k : Kind)
      → (t.live.link k ≡ before.live.link k) ⊎ (IsLinked cert_name v k t × IsComplete v p t)

-- A version is complete and every link points at it.
pub record Deployed (before : Tree) (cert_name : Bytes) (v : ℕ) (p : Pems) (t : Tree) : Type 0 where
  pub kept : KeepsFiles before t
  pub complete : IsComplete v p t
  pub linked : (k : Kind) → IsLinked cert_name v k t

abbrev pub Failed : (Call → Bool) → WriteError → Type 0
Failed succeeds (failed c) = succeeds c ≡ false
Failed succeeds _ = ⊥

-- No error and a version that is deployed, or the error of a call that failed and a safe tree.
abbrev pub Outcome : Tree → Bytes → ℕ → Pems → (Call → Bool) → Option WriteError × Tree → Type 0
Outcome before cert_name v p succeeds (none, t) = Deployed before cert_name v p t
Outcome before cert_name v p succeeds (some e, t) = Failed succeeds e × Safe before cert_name v p t

module _ (before : Tree) (cert_name : Bytes) (v : ℕ) (p : Pems) (succeeds : Call → Bool) where
  -- A step ends with `Q`, or with the error of a call that failed and a tree that is safe.
  abbrev pub Ran : (Tree → Type 0) → Option WriteError × Tree → Type 0
  Ran Q (none, t) = Q t
  Ran Q (some e, t) = Failed succeeds e × Safe before cert_name v p t

  abbrev pub Does : (Tree → Type 0) → Step → (Tree → Type 0) → Type 0
  Does P s Q = (t : Tree) → P t → Ran Q (s t)

  pub after :
      (Q R : Tree → Type 0) (r : Option WriteError × Tree) (next : Step)
      → Ran Q r
      → Does Q next R
      → Ran R (continue r next)
  after Q R (none, t) next h d = d t h
  after Q R (some e, t) next h d = h

  pub Does-then_do :
      (P Q R : Tree → Type 0) (s next : Step)
      → Does P s Q
      → Does Q next R
      → Does P (s then_do next) R
  Does-then_do P Q R s next a b t h = after Q R (s t) next (a t h) b

  pub Does-call :
      (P Q : Tree → Type 0) (c : Call) (effect : Tree → Tree)
      → ((t : Tree) → P t → Q (effect t))
      → ((t : Tree) → P t → Safe before cert_name v p t)
      → Does P (call succeeds c effect) Q
  Does-call P Q c effect h safe t x =
      if-property (Ran Q) (succeeds c) (λ _. h t x) (λ e. (e, safe t x))
