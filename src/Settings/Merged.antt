-- ===== src/Settings/Merged.antt =====
-- `mergeFromRenewalConf` of internal/verbs/renew.go.
use go_certbot.Prelude.{
  Bool, true, false, not, ◌&&◌, ◌||◌, List, [], ◌∷◌, Option, none, some, Bytes, codes,
  if◌then◌else◌,
}
use go_certbot.Golib.Map.Keys.{is_some}
use go_certbot.Golib.Map.{Map, get, set, delete}
use go_certbot.Golib.Strconv.{atoi}
use go_certbot.Golib.Strings.{equal, has_prefix, trim_prefix, has_suffix, trim_suffix}
use go_certbot.Prelude.Int.{ℤ}
use go_certbot.RenewalConf.Values.{
  bool_param, IntParam, absent, not_int, int, int_param, list_param,
}
use go_certbot.RenewalConf.{File}
use go_certbot.Settings.{Settings}

abbrev pub empty_text : Bytes → Bool
empty_text [] = true
empty_text (c ∷ s) = false

-- A missing key reads as the empty string.
abbrev pub text : Option Bytes → Bytes
text none = []
text (some v) = v

-- `if v := …; v != "" && !blocked { field = v }`
abbrev pub restored : Bool → Bytes → Bytes → Bytes
restored blocked [] old = old
restored blocked (c ∷ v) old = if blocked then old else c ∷ v

abbrev pub restored_bool : Bool → Bool × Bool → Bool → Bool
restored_bool blocked (v, present) old = if present && not blocked then v else old

abbrev pub restored_int : Bool → IntParam → ℤ → ℤ
restored_int blocked absent old = old
restored_int blocked not_int old = old
restored_int blocked (int n) old = if blocked then old else n

abbrev pub restored_list : Bool → Option (List Bytes) → List Bytes → List Bytes
restored_list blocked none old = old
restored_list blocked (some l) old = if blocked then old else l

abbrev pub no_items : {A : Type 0} → List A → Bool
no_items [] = true
no_items (x ∷ xs) = false

-- The names of the certificate, for a run that has none.
abbrev pub with_sans : Option (List Bytes × List Bytes) → Settings → Settings
with_sans none s = s
with_sans (some (dns, ips)) s = record s {
  domains = dns;
  ip_addresses = if no_items s.ip_addresses then ips else s.ip_addresses;
}

unfoldable pub merge_sans :
    (Bytes → Bool) → (Bytes → Option (List Bytes × List Bytes)) → File → Settings → Settings
unfolding get
merge_sans by_user cert_sans conf s =
    if not (by_user (codes "domain"))
      && (no_items s.domains && not (empty_text (text (get (codes "cert") conf.top))))
    then with_sans (cert_sans (text (get (codes "cert") conf.top))) s
    else s

abbrev entries_of : Option (Map Bytes) → Map Bytes
entries_of none = []
entries_of (some m) = m

unfoldable pub merge_webroot : (Bytes → Bool) → File → Settings → Settings
unfolding list_param get
merge_webroot by_user conf s =
    if by_user (codes "webroot-map") || by_user (codes "webroot-path") then s else record s {
      webroot_path =
          restored_list false (list_param (codes "webroot_path") conf.renewal_params)
            s.webroot_path;
      webroot_map =
          if not (no_items (entries_of (get (codes "webroot_map") conf.nested)))
            && no_items s.webroot_map
          then entries_of (get (codes "webroot_map") conf.nested)
          else s.webroot_map;
    }

abbrev nonempty_list : Option (List Bytes) → Option (List Bytes)
nonempty_list none = none
nonempty_list (some []) = none
nonempty_list (some (x ∷ xs)) = some (x ∷ xs)

-- One key of the loop over the parameters: the flat keys of the DNS plugins.
abbrev pub credentials_of : Bytes → Bytes
credentials_of rest =
    if has_suffix rest (codes "_credentials") then trim_suffix rest (codes "_credentials") else []

abbrev pub propagation_of : Bytes → Bytes
propagation_of rest =
    if has_suffix rest (codes "_propagation_seconds")
    then trim_suffix rest (codes "_propagation_seconds")
    else []

abbrev pub with_seconds : Bytes → Option ℤ → Settings → Settings
with_seconds plugin none s = s
with_seconds plugin (some n) s = record s {
  dns_propagation_seconds = set plugin n s.dns_propagation_seconds;
}

abbrev pub dns_suffix : Bytes → Bytes → Settings → Settings
dns_suffix rest v s =
    if not (empty_text (credentials_of rest))
    then if empty_text (text (get (credentials_of rest) s.dns_credentials))
      then record s { dns_credentials = set (credentials_of rest) v s.dns_credentials }
      else s
    else if not (empty_text (propagation_of rest))
        && not (is_some (get (propagation_of rest) s.dns_propagation_seconds))
    then with_seconds (propagation_of rest) (atoi v) s
    else s

unfoldable pub merge_dns : Map Bytes → Settings → Settings
unfolding has_prefix has_suffix trim_prefix trim_suffix get set atoi
merge_dns [] s = s
merge_dns ((k, v) ∷ params) s = merge_dns params (
    if not (empty_text v) && has_prefix k (codes "dns_")
    then dns_suffix (trim_prefix k (codes "dns_")) v s
    else s)

-- The flag of the authenticator that is restored.
abbrev flag : Bool → Bytes → Bytes → Bool → Bool
flag blocked v name old = if not blocked && equal v name then true else old

-- The fields that have one key each, and those that the flags of `VAR_MODIFIERS` guard. `by_user`
-- is `SetByUser`.
unfoldable pub merge_fields : (Bytes → Bool) → File → Settings → Settings
unfolding get equal bool_param int_param list_param
merge_fields by_user conf s =
    let rp = λ (key : Bytes). text (get key conf.renewal_params) in
    let server_set =
      by_user (codes "server")
      || (by_user (codes "staging")
          || (by_user (codes "dry-run") || by_user (codes "test-cert"))) in
    let account_set = by_user (codes "account") || server_set in
    let auth = rp (codes "authenticator") in
    let auth_set = by_user (codes "authenticator") in
    let hook = restored (by_user (codes "deploy-hook")) (rp (codes "deploy_hook")) s.deploy_hook in
    let installer = rp (codes "installer") in
    record s {
      server = restored server_set (rp (codes "server")) s.server;
      account = restored account_set (rp (codes "account")) s.account;
      authenticator = restored auth_set auth s.authenticator;
      standalone = flag auth_set auth (codes "standalone") s.standalone;
      webroot = flag auth_set auth (codes "webroot") s.webroot;
      manual = flag auth_set auth (codes "manual") s.manual;
      installer =
          restored (equal installer (codes "None") || by_user (codes "installer")) installer
            s.installer;
      key_type = restored (by_user (codes "key-type")) (rp (codes "key_type")) s.key_type;
      elliptic_curve =
          restored (by_user (codes "elliptic-curve")) (rp (codes "elliptic_curve"))
            s.elliptic_curve;
      rsa_key_size =
          restored_int (by_user (codes "rsa-key-size"))
            (int_param (codes "rsa_key_size") conf.renewal_params) s.rsa_key_size;
      must_staple =
          restored_bool (by_user (codes "must-staple"))
            (bool_param (codes "must_staple") conf.renewal_params) s.must_staple;
      autorenew =
          restored_bool (by_user (codes "autorenew"))
            (bool_param (codes "autorenew") conf.renewal_params) s.autorenew;
      reuse_key =
          restored_bool (by_user (codes "reuse-key"))
            (bool_param (codes "reuse_key") conf.renewal_params) s.reuse_key;
      preferred_chain =
          restored (by_user (codes "preferred-chain")) (rp (codes "preferred_chain"))
            s.preferred_chain;
      preferred_profile =
          restored (by_user (codes "preferred-profile")) (rp (codes "preferred_profile"))
            s.preferred_profile;
      required_profile =
          restored (by_user (codes "required-profile")) (rp (codes "required_profile"))
            s.required_profile;
      http01_port =
          restored_int (by_user (codes "http-01-port"))
            (int_param (codes "http01_port") conf.renewal_params) s.http01_port;
      http01_address =
          restored (by_user (codes "http-01-address")) (rp (codes "http01_address"))
            s.http01_address;
      pre_hook = restored (by_user (codes "pre-hook")) (rp (codes "pre_hook")) s.pre_hook;
      post_hook = restored (by_user (codes "post-hook")) (rp (codes "post_hook")) s.post_hook;
      deploy_hook = if empty_text hook then rp (codes "renew_hook") else hook;
      user_agent = restored (by_user (codes "user-agent")) (rp (codes "user_agent")) s.user_agent;
      allow_subset_of_names =
          restored_bool (by_user (codes "allow-subset-of-names"))
            (bool_param (codes "allow_subset_of_names") conf.renewal_params)
            s.allow_subset_of_names;
      preferred_challenges =
          restored_list (by_user (codes "preferred-challenges"))
            (list_param (codes "pref_challs") conf.renewal_params) s.preferred_challenges;
      domains =
          restored_list (by_user (codes "domain"))
            (list_param (codes "domains") conf.renewal_params) s.domains;
    }

unfoldable pub merge_ip_addresses : (Bytes → Bool) → File → Settings → Settings
unfolding list_param
merge_ip_addresses by_user conf s = record s {
  ip_addresses =
      restored_list (by_user (codes "ip-address"))
        (nonempty_list (list_param (codes "ip_addresses") conf.renewal_params)) s.ip_addresses;
}

-- Lineages of old versions have no key type.
unfoldable pub merge_old_key_type : File → Settings → Settings
unfolding get
merge_old_key_type conf s =
    if empty_text (text (get (codes "key_type") conf.renewal_params)) && empty_text s.key_type
    then record s { key_type = codes "rsa" }
    else s

abbrev pub deprecated_renewal_params : List Bytes
deprecated_renewal_params =
    codes "manual_public_ip_logging_ok"
    ∷ codes "os_packages_only"
    ∷ codes "no_self_upgrade"
    ∷ codes "no_bootstrap"
    ∷ codes "no_permissions_check"
    ∷ codes "dns_route53_propagation_seconds"
    ∷ codes "certbot_route53:auth_propagation_seconds"
    ∷ []

unfoldable pub delete_all : List Bytes → Map Bytes → Map Bytes
unfolding delete
delete_all [] m = m
delete_all (k ∷ ks) m = delete_all ks (delete k m)

-- The deletion at the end is from the map alone.
unfoldable pub strip_deprecated : File → File
unfolding delete_all
strip_deprecated conf = record conf {
  renewal_params = delete_all deprecated_renewal_params conf.renewal_params;
}

-- The merged settings, and the configuration that is left. `cert_sans` is `sansFromCert`.
unfoldable pub merge_from_renewal_conf :
    (Bytes → Bool) → (Bytes → Option (List Bytes × List Bytes)) → File → Settings → Settings × File
unfolding merge_fields merge_sans merge_webroot merge_ip_addresses merge_dns merge_old_key_type
    strip_deprecated
merge_from_renewal_conf by_user cert_sans conf s = (
  merge_old_key_type conf (
      merge_dns conf.renewal_params (
        merge_ip_addresses by_user conf (
          merge_webroot by_user conf
            (merge_sans by_user cert_sans conf (merge_fields by_user conf s))))),
  strip_deprecated conf,
)
