-- ===== src/Settings/Core.antt =====
-- The settings that only `merge_fields` changes, in `mergeFromRenewalConf` of
-- internal/verbs/renew.go.
use go_certbot.Prelude.{
  ◌≡◌, refl, ◌∙◌, Bool, not, ◌&&◌, ◌||◌, List, [], ◌∷◌, Option, none, some, Bytes, codes,
  if-property,
}
use go_certbot.Golib.Map.Keys.{is_some}
use go_certbot.Golib.Map.{Map, get}
use go_certbot.Golib.Strings.{has_prefix, trim_prefix}
use go_certbot.Golib.Strconv.{atoi}
use go_certbot.Prelude.Int.{ℤ}
use go_certbot.RenewalConf.{File}
use go_certbot.Settings.Merged.{
  text, empty_text, no_items, merge_fields, merge_sans, with_sans, merge_webroot,
  merge_ip_addresses, merge_dns, dns_suffix, with_seconds, credentials_of, propagation_of,
  merge_old_key_type, merge_from_renewal_conf,
}
use go_certbot.Settings.{Settings}

pub record Core : Type 0 where
  pub server : Bytes
  pub account : Bytes
  pub authenticator : Bytes
  pub must_staple : Bool
  pub autorenew : Bool
  pub reuse_key : Bool
  pub pre_hook : Bytes
  pub post_hook : Bytes

abbrev pub core : Settings → Core
core s = record {
  server = s.server;
  account = s.account;
  authenticator = s.authenticator;
  must_staple = s.must_staple;
  autorenew = s.autorenew;
  reuse_key = s.reuse_key;
  pre_hook = s.pre_hook;
  post_hook = s.post_hook;
}

module _ (s : Settings) where
  core-with_seconds : (p : Bytes) (n : Option ℤ) → core (with_seconds p n s) ≡ core s
  core-with_seconds p none = refl
  core-with_seconds p (some n) = refl

  core-dns_suffix : (r v : Bytes) → core (dns_suffix r v s) ≡ core s
  core-dns_suffix r v =
      if-property (λ t. core t ≡ core s) (not (empty_text (credentials_of r)))
        (λ _.
          if-property (λ t. core t ≡ core s)
            (empty_text (text (get (credentials_of r) (s.dns_credentials)))) (λ _. refl)
            (λ _. refl))
        (λ _.
          if-property (λ t. core t ≡ core s)
            (not (empty_text (propagation_of r))
              && not (is_some (get (propagation_of r) (s.dns_propagation_seconds))))
            (λ _. core-with_seconds _ (atoi v)) (λ _. refl))

  core-with_sans : (o : Option (List Bytes × List Bytes)) → core (with_sans o s) ≡ core s
  core-with_sans none = refl
  core-with_sans (some (dns, ips)) = refl

  core-merge_sans :
      (by_user : Bytes → Bool) (sans : Bytes → Option (List Bytes × List Bytes)) (conf : File)
      → core (merge_sans by_user sans conf s) ≡ core s
  unfolding merge_sans
  core-merge_sans by_user sans conf =
      if-property (λ t. core t ≡ core s)
        (not (by_user (codes "domain"))
          && (no_items (s.domains) && not (empty_text (text (get (codes "cert") (conf.top))))))
        (λ _. core-with_sans _) (λ _. refl)

  core-merge_webroot :
      (by_user : Bytes → Bool) (conf : File) → core (merge_webroot by_user conf s) ≡ core s
  unfolding merge_webroot
  core-merge_webroot by_user conf =
      if-property (λ t. core t ≡ core s)
        (by_user (codes "webroot-map") || by_user (codes "webroot-path")) (λ _. refl) (λ _. refl)

  core-merge_old_key_type : (conf : File) → core (merge_old_key_type conf s) ≡ core s
  unfolding merge_old_key_type
  core-merge_old_key_type conf =
      if-property (λ t. core t ≡ core s)
        (empty_text (text (get (codes "key_type") (conf.renewal_params)))
          && empty_text (s.key_type))
        (λ _. refl) (λ _. refl)

core-merge_dns : (m : Map Bytes) (s : Settings) → core (merge_dns m s) ≡ core s
unfolding merge_dns
core-merge_dns [] s = refl
core-merge_dns ((k, v) ∷ m) s =
    core-merge_dns m _
    ∙ if-property (λ t. core t ≡ core s) (not (empty_text v) && has_prefix k (codes "dns_"))
        (λ _. core-dns_suffix s (trim_prefix k (codes "dns_")) v) (λ _. refl)

pub core-merge_from_renewal_conf :
    (by_user : Bytes → Bool) (sans : Bytes → Option (List Bytes × List Bytes)) (conf : File)
    (s : Settings)
    → core ((merge_from_renewal_conf by_user sans conf s).0) ≡ core (merge_fields by_user conf s)
unfolding merge_from_renewal_conf merge_ip_addresses
core-merge_from_renewal_conf by_user sans conf s =
    core-merge_old_key_type _ conf
    ∙ core-merge_dns (conf.renewal_params) _
    ∙ core-merge_webroot _ by_user conf
    ∙ core-merge_sans _ by_user sans conf
