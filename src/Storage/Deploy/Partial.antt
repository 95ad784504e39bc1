-- ===== src/Storage/Deploy/Partial.antt =====
-- A version that an interrupted `Write` has left in part: its certificate is there and its private
-- key is not.
use go_certbot.Prelude.{
  ℕ, zero, suc, ◌<◌, ◌≤◌, ◌≡◌, ◌≢◌, refl, ap, ◌∙◌, List, [], ◌∷◌, some, Bytes, All, arith,
}
use go_certbot.Prelude.Int.{ℤ, pos, negsuc}
use go_certbot.Golib.Strconv.{max_int}
use go_certbot.Storage.Version.Fresh.{
  IsAtMost, highest_from-IsAtMost, version-archive_name, All-map,
}
use go_certbot.Storage.Version.{
  Kind, cert, privkey, raise_to, highest_from, archive_version_from_name, archive_name,
}
use go_certbot.Storage.Deploy.Links.{wanted, returned-highest, ensure_deployed-UpToDate}
use go_certbot.Storage.Deploy.{Live, target, ensure_deployed}

raise_to_stays : (h : ℕ) (z : ℤ) → ((k : ℕ) → z ≡ pos k → k ≤ h) → raise_to h z ≡ h
unfolding raise_to
raise_to_stays h (pos n) f = ground (arith, f n refl)
raise_to_stays h (negsuc n) f = refl

highest_from_stays :
    (h : ℕ) (names : List Bytes) → All (IsAtMost h) names → highest_from h names ≡ h
unfolding highest_from
highest_from_stays h [] a = refl
highest_from_stays h (name ∷ names) a = rw (raise_to_stays h _ a.0) (highest_from_stays h names a.1)

highest-cons :
    (names : List Bytes) (n : ℕ)
    → highest_from 0 names < n
    → n ≤ max_int
    → highest_from 0 (archive_name cert n ∷ names) ≡ n
unfolding highest_from
highest-cons names n lt le =
    rw (version-archive_name cert n le, raised)
      (highest_from_stays n names (
        All-map (IsAtMost (highest_from 0 names)) (IsAtMost n)
          (λ name below k e. omega (arith, below k e)) names (highest_from-IsAtMost 0 names)))
  where
    raised : raise_to 0 (pos n) ≡ n
    raised = unfold raise_to in ground arith

wanted_pos :
    (cert_name : Bytes) (k : Kind) (live : Live) (n : ℕ)
    → 0 < n
    → wanted cert_name k live n ≡ some (target cert_name k n)
wanted_pos cert_name k live zero h = absurd (omega arith)
wanted_pos cert_name k live (suc n) h = refl

abbrev first : Bytes → ℕ
first [] = 0
first (c ∷ s) = c

privkey-ne-cert : (n : ℕ) → archive_name cert n ≢ archive_name privkey n
unfolding archive_name
privkey-ne-cert n h = absurd (omega (arith, ap first h))

-- Let the certificate of a version above all others be in the archive, and nothing else of that
-- version. Then `EnsureDeployed` has the link of the private key point at the key of that version,
-- and no file of that name is in the archive.
pub ensure_deployed_partial :
    (cert_name : Bytes) (names : List Bytes) (live : Live) (n : ℕ)
    → highest_from 0 names < n
    → n ≤ max_int
    → ((ensure_deployed cert_name (some (archive_name cert n ∷ names)) live).1.link privkey
        ≡ some (target cert_name privkey n))
      × All (λ name. name ≢ archive_name privkey n) (archive_name cert n ∷ names)
ensure_deployed_partial cert_name names live n lt le = (
  (ensure_deployed-UpToDate cert_name (archive_name cert n ∷ names) live privkey).linked
      ∙ rw
          (
            returned-highest cert_name (archive_name cert n ∷ names) live,
            highest-cons names n lt le,
          )
          (wanted_pos cert_name privkey live n (omega arith)),
  (
    privkey-ne-cert n,
    All-map (IsAtMost (highest_from 0 names)) _
        (λ name below same. absurd (
          omega (
            arith,
            below n (ap archive_version_from_name same ∙ version-archive_name privkey n le),
          )))
        names (highest_from-IsAtMost 0 names),
  ),
)
