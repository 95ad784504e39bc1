-- ===== src/Storage/Deploy/Links.antt =====
-- What `EnsureDeployed` leaves in the live directory.
use go_certbot.Prelude.{
  ℕ, zero, suc, ◌≡◌, refl, ap, ◌∙◌, true, List, Option, none, some, Bytes, if◌then◌else◌,
  Bool-cases, inl, inr, arith, All, ◌⊎◌,
}
use go_certbot.Golib.Strings.Laws.{equal_iff}
use go_certbot.Storage.Version.{Kind, cert, privkey, chain, fullchain, highest_from}
use go_certbot.Storage.Version.Fresh.{
  IsAtMost, HasVersion, highest_from-IsAtMost, highest_from-HasVersion,
}
use go_certbot.Storage.Deploy.{
  Live, same_kind, is_target, recover_from, recover_round, deploy_version, relink_all,
  recover_previous_links, target, relink, ensure_deployed,
}

pub same_kind→eq : (kind k : Kind) → same_kind kind k ≡ true → kind ≡ k
same_kind→eq kind k h = ground arith

is_target→eq : (o : Option Bytes) (want : Bytes) → is_target o want ≡ true → o ≡ some want
is_target→eq none want h = cc
is_target→eq (some got) want h = ap some ((equal_iff got want).0 h)

-- A round sets the link of its kind and no other.
relink-link :
    (cert_name : Bytes) (v : ℕ) (kind k : Kind) (live : Live)
    → (relink cert_name v kind live).link k
      ≡ (if same_kind kind k then some (target cert_name kind v) else live.link k)
unfolding relink
relink-link cert_name v kind k live =
    elim (Bool-cases (is_target (live.link kind) (target cert_name kind v))) [
      | inr e ↦ rw e
      | inl e ↦ rw e (elim (Bool-cases (same_kind kind k)) [
        | inr d ↦ rw d
        | inl d ↦ rw (d, ← same_kind→eq kind k d) (is_target→eq _ _ e)
      ])
    ]

relink-previous :
    (cert_name : Bytes) (v : ℕ) (kind k : Kind) (live : Live)
    → (relink cert_name v kind live).previous k ≡ live.previous k
unfolding relink
relink-previous cert_name v kind k live =
    elim (Bool-cases (is_target (live.link kind) (target cert_name kind v))) [
      | inr e ↦ rw e
      | inl e ↦ rw e
    ]

-- A round of the recovery removes the `previous` link of its kind.
recover_round-previous :
    (kind k : Kind) (live : Live)
    → (recover_round kind live).previous k ≡ (if same_kind kind k then none else live.previous k)
unfolding recover_round
recover_round-previous kind k live = on (live.previous kind) refl
  where
    on :
        (o : Option Bytes)
        → live.previous kind ≡ o
        → (recover_from o kind live).previous k
          ≡ (if same_kind kind k then none else live.previous k)
    on (some t) e = refl
    on none e = elim (Bool-cases (same_kind kind k)) [
      | inr d ↦ rw d
      | inl d ↦ rw (d, ← same_kind→eq kind k d) e
    ]

abbrev pub or_else : Option Bytes → Option Bytes → Option Bytes
or_else none o = o
or_else (some t) o = some t

recover_round-link :
    (kind k : Kind) (live : Live)
    → (recover_round kind live).link k
      ≡ (if same_kind kind k then or_else (live.previous k) (live.link k) else live.link k)
unfolding recover_round
recover_round-link kind k live = on (live.previous kind) refl
  where
    on :
        (o : Option Bytes)
        → live.previous kind ≡ o
        → (recover_from o kind live).link k
          ≡ (if same_kind kind k then or_else (live.previous k) (live.link k) else live.link k)
    on (some t) e = elim (Bool-cases (same_kind kind k)) [
      | inr d ↦ rw d
      | inl d ↦ rw (d, ← same_kind→eq kind k d, e)
    ]
    on none e = elim (Bool-cases (same_kind kind k)) [
      | inr d ↦ rw d
      | inl d ↦ rw (d, ← same_kind→eq kind k d, e)
    ]

ruleset rounds = (recover_round-previous, recover_round-link)

recover-previous : (live : Live) (k : Kind) → (recover_previous_links live).previous k ≡ none
unfolding recover_previous_links
recover-previous live cert = simp rounds
recover-previous live privkey = simp rounds
recover-previous live chain = simp rounds
recover-previous live fullchain = simp rounds

recover-link :
    (live : Live) (k : Kind)
    → (recover_previous_links live).link k ≡ or_else (live.previous k) (live.link k)
unfolding recover_previous_links
recover-link live cert = simp rounds
recover-link live privkey = simp rounds
recover-link live chain = simp rounds
recover-link live fullchain = simp rounds

deployed-link :
    (cert_name : Bytes) (v : ℕ) (k : Kind) (live : Live)
    → (deploy_version cert_name (suc v) live).1.link k ≡ some (target cert_name k (suc v))
unfolding relink_all
deployed-link cert_name v cert live = simp relink-link
deployed-link cert_name v privkey live = simp relink-link
deployed-link cert_name v chain live = simp relink-link
deployed-link cert_name v fullchain live = simp relink-link

deployed-previous :
    (cert_name : Bytes) (v : ℕ) (k : Kind) (live : Live)
    → (deploy_version cert_name v live).1.previous k ≡ live.previous k
unfolding relink_all
deployed-previous cert_name zero k live = refl
deployed-previous cert_name (suc v) k live = simp relink-previous

-- What `EnsureDeployed` promises for a directory with these names.
-- The target of a link: the file of the highest version; with none, the target that an interrupted
-- update has set aside, if any, and else the one that was there.
abbrev pub wanted : Bytes → Kind → Live → ℕ → Option Bytes
wanted cert_name k live zero = or_else (live.previous k) (live.link k)
wanted cert_name k live (suc v) = some (target cert_name k (suc v))

abbrev pub returned_version : Bytes → List Bytes → Live → ℕ
returned_version cert_name names live = (ensure_deployed cert_name (some names) live).0

pub record UpToDate (cert_name : Bytes) (names : List Bytes) (live : Live) (k : Kind) : Type 0 where
  pub at_most : All (IsAtMost (returned_version cert_name names live)) names
  pub attained :
      (returned_version cert_name names live ≡ 0)
      ⊎ HasVersion (returned_version cert_name names live) names
  pub none_left : (ensure_deployed cert_name (some names) live).1.previous k ≡ none
  pub linked :
      (ensure_deployed cert_name (some names) live).1.link k
      ≡ wanted cert_name k live (returned_version cert_name names live)

deploy_version-linked :
    (cert_name : Bytes) (v : ℕ) (k : Kind) (live : Live)
    → (deploy_version cert_name v (recover_previous_links live)).1.link k
      ≡ wanted cert_name k live v
deploy_version-linked cert_name zero k live = recover-link live k
deploy_version-linked cert_name (suc v) k live = deployed-link cert_name v k _

deploy_version-returned :
    (cert_name : Bytes) (v : ℕ) (live : Live) → (deploy_version cert_name v live).0 ≡ v
deploy_version-returned cert_name zero live = refl
deploy_version-returned cert_name (suc v) live = refl

pub returned-highest :
    (cert_name : Bytes) (names : List Bytes) (live : Live)
    → returned_version cert_name names live ≡ highest_from 0 names
unfolding ensure_deployed
returned-highest cert_name names live = deploy_version-returned cert_name (highest_from 0 names) _

ensure_deployed-linked :
    (cert_name : Bytes) (names : List Bytes) (live : Live) (k : Kind)
    → (ensure_deployed cert_name (some names) live).1.link k
      ≡ wanted cert_name k live (highest_from 0 names)
unfolding ensure_deployed
ensure_deployed-linked cert_name names live k =
    deploy_version-linked cert_name (highest_from 0 names) k live

ensure_deployed-none_left :
    (cert_name : Bytes) (names : List Bytes) (live : Live) (k : Kind)
    → (ensure_deployed cert_name (some names) live).1.previous k ≡ none
unfolding ensure_deployed
ensure_deployed-none_left cert_name names live k =
    deployed-previous cert_name (highest_from 0 names) k _ ∙ recover-previous live k

-- For every archive directory, live directory and kind, `EnsureDeployed` returns a version that no
-- file of the archive exceeds and that some file of the archive has, or 0; it leaves no `previous_`
-- link, and has the link of the kind point at the file of the returned version, or, where that is
-- 0, at the target of the `previous_` link, or where there is none, where it pointed before.
pub ensure_deployed-UpToDate :
    (cert_name : Bytes) (names : List Bytes) (live : Live) (k : Kind)
    → UpToDate cert_name names live k
ensure_deployed-UpToDate cert_name names live k =
    let e = returned-highest cert_name names live in
    record {
      at_most = rw e (highest_from-IsAtMost 0 names);
      attained = rw e (highest_from-HasVersion 0 names);
      none_left = ensure_deployed-none_left cert_name names live k;
      linked = rw e (ensure_deployed-linked cert_name names live k);
    }
