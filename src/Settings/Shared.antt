-- ===== src/Settings/Shared.antt =====
-- The maps of the DNS plugins in `renewOne` of internal/verbs/renew.go: `merged := *cli` copies the
-- headers of the maps, so that the writes of `mergeFromRenewalConf` for one certificate are in the
-- maps of the run.
use go_certbot.Prelude.{
  ◌≡◌, refl, ◌∙◌, Bool, true, false, not, ◌&&◌, ◌||◌, List, [], ◌∷◌, Option, none, some, Bytes,
  codes, if-property, Bool-cases, inl, inr,
}
use go_certbot.Golib.Map.Keys.{is_some}
use go_certbot.Golib.Map.{Map, get, set, get-set}
use go_certbot.Golib.Strconv.{atoi}
use go_certbot.Golib.Strings.Laws.{equal_iff}
use go_certbot.Golib.Strings.{equal, has_prefix, trim_prefix}
use go_certbot.Prelude.Int.{ℤ}
use go_certbot.RenewalConf.{File}
use go_certbot.Settings.Merged.{
  text, empty_text, no_items, merge_fields, merge_sans, with_sans, merge_webroot,
  merge_ip_addresses, merge_dns, dns_suffix, with_seconds, credentials_of, propagation_of,
  merge_old_key_type, merge_from_renewal_conf,
}
use go_certbot.Settings.{Settings}

-- The run's settings for the next certificate: the maps as the merge for the one before has left
-- them, the rest as it was.
unfoldable pub shared_after : Settings → Settings → Settings
shared_after merged cli = record cli {
  dns_credentials = merged.dns_credentials;
  dns_propagation_seconds = merged.dns_propagation_seconds;
}

-- The settings of two certificates that one run renews, one behind the other.
unfoldable pub merge_two :
    (Bytes → Bool)
    → (Bytes → Option (List Bytes × List Bytes))
    → File
    → File
    → Settings
    → Settings × Settings
unfolding shared_after merge_from_renewal_conf
merge_two by_user cert_sans first second cli =
    let merged = (merge_from_renewal_conf by_user cert_sans first cli).0 in
    (merged, (merge_from_renewal_conf by_user cert_sans second (shared_after merged cli)).0)

-- A plugin that has a value keeps it.
abbrev KeepsCredentials : Bytes → Bytes → Settings → Settings → Type 0
KeepsCredentials plugin file s t =
    empty_text file ≡ false
    → get plugin (s.dns_credentials) ≡ some file
    → get plugin (t.dns_credentials) ≡ some file

abbrev KeepsSeconds : Bytes → ℤ → Settings → Settings → Type 0
KeepsSeconds plugin n s t =
    get plugin (s.dns_propagation_seconds) ≡ some n
    → get plugin (t.dns_propagation_seconds) ≡ some n

record Keeps (s t : Settings) : Type 0 where
  credentials : (plugin file : Bytes) → KeepsCredentials plugin file s t
  seconds : (plugin : Bytes) (n : ℤ) → KeepsSeconds plugin n s t

Keeps-refl : (s : Settings) → Keeps s s
Keeps-refl s = record { credentials = λ p f e h. h; seconds = λ p n h. h }

Keeps-trans : {s t u : Settings} → Keeps s t → Keeps t u → Keeps s u
Keeps-trans a b = record {
  credentials = λ p f e h. b.credentials p f e (a.credentials p f e h);
  seconds = λ p n h. b.seconds p n (a.seconds p n h);
}

-- A write at a key that has no value.
get-set_free :
    {V : Type 0} (j k : Bytes) (v w : V) (m : Map V)
    → (get k m ≡ some w → ⊥)
    → get j m ≡ some w
    → get j (set k v m) ≡ some w
get-set_free j k v w m free h = get-set k j v m ∙ elim (Bool-cases (equal k j)) [
  | inl e ↦ absurd (free (rw ((equal_iff k j).0 e) h))
  | inr e ↦ rw e h
]

module _ (s : Settings) where
  Keeps-with_seconds :
      (p : Bytes) (o : Option ℤ)
      → is_some (get p (s.dns_propagation_seconds)) ≡ false
      → Keeps s (with_seconds p o s)
  Keeps-with_seconds p none h = Keeps-refl s
  Keeps-with_seconds p (some n) h = record {
    credentials = λ q f e g. g;
    seconds = λ q k g. get-set_free q p n k _ (λ e. taken k e) g;
  }
    where
      taken : (k : ℤ) → get p (s.dns_propagation_seconds) ≡ some k → ⊥
      taken k e = cc (rw e at h)

  Keeps-dns_suffix : (r v : Bytes) → Keeps s (dns_suffix r v s)
  Keeps-dns_suffix r v =
      if-property (Keeps s) (not (empty_text (credentials_of r)))
        (λ _.
          if-property (Keeps s) (empty_text (text (get (credentials_of r) (s.dns_credentials))))
            (λ e. record {
              credentials =
                  λ q f x g. get-set_free q (credentials_of r) v f _ (λ d. taken f e d x) g;
              seconds = λ q k g. g;
            })
            (λ _. Keeps-refl s))
        (λ _.
          if-property (Keeps s)
            (not (empty_text (propagation_of r))
              && not (is_some (get (propagation_of r) (s.dns_propagation_seconds))))
            (λ e. Keeps-with_seconds _ (atoi v) (free _ _ e)) (λ _. Keeps-refl s))
    where
      taken :
          (f : Bytes)
          → empty_text (text (get (credentials_of r) (s.dns_credentials))) ≡ true
          → get (credentials_of r) (s.dns_credentials) ≡ some f
          → empty_text f ≡ false
          → ⊥
      taken f e d x = cc (x, rw d at e)

      free : (a b : Bool) → (not a && not b) ≡ true → b ≡ false
      free true b e = absurd (cc e)
      free false true e = absurd (cc e)
      free false false e = refl

Keeps-merge_dns : (m : Map Bytes) (s : Settings) → Keeps s (merge_dns m s)
unfolding merge_dns
Keeps-merge_dns [] s = Keeps-refl s
Keeps-merge_dns ((k, v) ∷ m) s =
    Keeps-trans
      (if-property (Keeps s) (not (empty_text v) && has_prefix k (codes "dns_"))
        (λ _. Keeps-dns_suffix s (trim_prefix k (codes "dns_")) v) (λ _. Keeps-refl s))
      (Keeps-merge_dns m _)

-- The steps before the loop over the parameters leave the maps alone.
abbrev SameMaps : Settings → Settings → Type 0
SameMaps s t =
    (t.dns_credentials ≡ s.dns_credentials)
    × (t.dns_propagation_seconds ≡ s.dns_propagation_seconds)

Keeps-SameMaps : {s t : Settings} → SameMaps s t → Keeps s t
Keeps-SameMaps e = record { credentials = λ p f x h. rw (e.0) h; seconds = λ p n h. rw (e.1) h }

module _ (s : Settings) where
  with_sans-SameMaps : (o : Option (List Bytes × List Bytes)) → SameMaps s (with_sans o s)
  with_sans-SameMaps none = (refl, refl)
  with_sans-SameMaps (some (dns, ips)) = (refl, refl)

  merge_sans-SameMaps :
      (by_user : Bytes → Bool) (sans : Bytes → Option (List Bytes × List Bytes)) (conf : File)
      → SameMaps s (merge_sans by_user sans conf s)
  unfolding merge_sans
  merge_sans-SameMaps by_user sans conf =
      if-property (SameMaps s)
        (not (by_user (codes "domain"))
          && (no_items (s.domains) && not (empty_text (text (get (codes "cert") (conf.top))))))
        (λ _. with_sans-SameMaps _) (λ _. (refl, refl))

  merge_webroot-SameMaps :
      (by_user : Bytes → Bool) (conf : File) → SameMaps s (merge_webroot by_user conf s)
  unfolding merge_webroot
  merge_webroot-SameMaps by_user conf =
      if-property (SameMaps s) (by_user (codes "webroot-map") || by_user (codes "webroot-path"))
        (λ _. (refl, refl)) (λ _. (refl, refl))

  merge_old_key_type-SameMaps : (conf : File) → SameMaps s (merge_old_key_type conf s)
  unfolding merge_old_key_type
  merge_old_key_type-SameMaps conf =
      if-property (SameMaps s)
        (empty_text (text (get (codes "key_type") (conf.renewal_params)))
          && empty_text (s.key_type))
        (λ _. (refl, refl)) (λ _. (refl, refl))

before_dns :
    (by_user : Bytes → Bool) (sans : Bytes → Option (List Bytes × List Bytes)) (conf : File)
    (s : Settings)
    → SameMaps s (
        merge_ip_addresses by_user conf
          (merge_webroot by_user conf (merge_sans by_user sans conf (merge_fields by_user conf s))))
unfolding merge_ip_addresses merge_fields
before_dns by_user sans conf s =
    let fields = merge_fields by_user conf s in
    let named = merge_sans-SameMaps fields by_user sans conf in
    let rooted = merge_webroot-SameMaps (merge_sans by_user sans conf fields) by_user conf in
    (rooted.0 ∙ named.0, rooted.1 ∙ named.1)

Keeps-merge_from_renewal_conf :
    (by_user : Bytes → Bool) (sans : Bytes → Option (List Bytes × List Bytes)) (conf : File)
    (s : Settings)
    → Keeps s ((merge_from_renewal_conf by_user sans conf s).0)
unfolding merge_from_renewal_conf
Keeps-merge_from_renewal_conf by_user sans conf s =
    Keeps-trans (Keeps-SameMaps (before_dns by_user sans conf s)) (
      Keeps-trans (Keeps-merge_dns (conf.renewal_params) _)
        (Keeps-SameMaps (merge_old_key_type-SameMaps _ conf)))

-- When one run renews two certificates, the credentials file that the first uses for a DNS plugin is
-- also what the second uses, whatever the configuration of the second says. The number of seconds
-- that the run's settings have for a plugin before any configuration is read, which is the plugin's
-- default where the user gave none, is what both use.
pub merge_two_shared :
    (by_user : Bytes → Bool) (sans : Bytes → Option (List Bytes × List Bytes)) (first second : File)
    (cli : Settings) (plugin file : Bytes) (n : ℤ)
    → empty_text file ≡ false
    → get plugin ((merge_two by_user sans first second cli).0.dns_credentials) ≡ some file
    → get plugin (cli.dns_propagation_seconds) ≡ some n
    → (get plugin ((merge_two by_user sans first second cli).1.dns_credentials) ≡ some file)
      × (get plugin ((merge_two by_user sans first second cli).0.dns_propagation_seconds) ≡ some n)
      × (get plugin ((merge_two by_user sans first second cli).1.dns_propagation_seconds) ≡ some n)
unfolding merge_two shared_after
merge_two_shared by_user sans first second cli plugin file n e h d =
    let merged = (merge_from_renewal_conf by_user sans first cli).0 in
    let kept = (Keeps-merge_from_renewal_conf by_user sans first cli).seconds plugin n d in
    let after = Keeps-merge_from_renewal_conf by_user sans second (shared_after merged cli) in
    (after.credentials plugin file e h, kept, after.seconds plugin n kept)
