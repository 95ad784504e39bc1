-- ===== src/Settings/Tests.antt =====
-- Settings and configurations, and the witnesses.
use go_certbot.Prelude.{
  true, false, arith, List, [], ◌∷◌, ◌≡◌, refl, Bytes, Option, some, none, codes,
}
use go_certbot.Cli.Domains.{contains}
use go_certbot.Golib.Map.{get, set}
use go_certbot.Golib.Strings.{equal, has_prefix, trim_prefix, has_suffix, trim_suffix}
use go_certbot.Prelude.Int.{pos}
use go_certbot.RenewalConf.Values.{list_param}
use go_certbot.RenewalConf.{File, new_file}
use go_certbot.RenewalConf.Save.{line_of}
use go_certbot.Settings.Merged.{
  merge_from_renewal_conf, merge_dns, merge_fields, merge_sans, merge_webroot, merge_ip_addresses,
  merge_old_key_type,
}
use go_certbot.Settings.Restored.{
  nothing_by_user, renewed_core, merge_from_renewal_conf-write_renewal_conf,
}
use go_certbot.Settings.Shared.{merge_two, merge_two_shared}
use go_certbot.Settings.Stripped.{HasLine, strip_deprecated-HasLine}
use go_certbot.Settings.Ari.{write_ari_retry_after}
use go_certbot.Settings.Written.{Paths, write_renewal_conf}
use go_certbot.Settings.{Settings}

abbrev defaults : Settings
defaults = record {
  server = codes "https://acme-v02.api.letsencrypt.org/directory";
  staging = false;
  account = [];
  authenticator = [];
  standalone = false;
  webroot = false;
  manual = false;
  apache = false;
  nginx = false;
  installer = [];
  key_type = codes "ecdsa";
  elliptic_curve = codes "secp256r1";
  rsa_key_size = pos 2048;
  must_staple = false;
  autorenew = true;
  reuse_key = false;
  preferred_chain = [];
  preferred_profile = [];
  required_profile = [];
  http01_port = pos 80;
  http01_address = [];
  pre_hook = [];
  post_hook = [];
  deploy_hook = [];
  user_agent = [];
  allow_subset_of_names = false;
  preferred_challenges = [];
  domains = [];
  ip_addresses = [];
  webroot_path = [];
  webroot_map = [];
  dns_credentials = [];
  dns_propagation_seconds = (codes "ovh", pos 120) ∷ [];
}

abbrev no_names : Bytes → Option (List Bytes × List Bytes)
no_names path = none

abbrev ovh_conf : Bytes → File
ovh_conf file = record new_file {
  renewal_params =
      (codes "dns_ovh_credentials", file) ∷ (codes "dns_ovh_propagation_seconds", codes "30") ∷ [];
}

merge_two_shared_example :
    (get (codes "ovh") (
        (merge_two nothing_by_user no_names
          (ovh_conf (codes "/a"))
          (ovh_conf (codes "/b"))
          defaults).1.dns_credentials)
      ≡ some (codes "/a"))
    × (get (codes "ovh") (
          (merge_two nothing_by_user no_names
            (ovh_conf (codes "/a"))
            (ovh_conf (codes "/b"))
            defaults).0.dns_propagation_seconds)
        ≡ some (pos 120))
    × (get (codes "ovh") (
          (merge_two nothing_by_user no_names
            (ovh_conf (codes "/a"))
            (ovh_conf (codes "/b"))
            defaults).1.dns_propagation_seconds)
        ≡ some (pos 120))
unfolding merge_two merge_from_renewal_conf merge_dns merge_fields merge_sans merge_webroot
    merge_ip_addresses merge_old_key_type get set equal has_prefix trim_prefix has_suffix
    trim_suffix list_param
merge_two_shared_example =
    merge_two_shared nothing_by_user no_names (ovh_conf (codes "/a")) (ovh_conf (codes "/b"))
      defaults (codes "ovh") (codes "/a") (pos 120) refl refl refl

abbrev old_conf : File
old_conf = record new_file {
  renewal_params = (codes "no_bootstrap", codes "True") ∷ [];
  params_order = codes "no_bootstrap" ∷ [];
}

abbrev ari_saved : Option (File × Option Bytes)
ari_saved =
    write_ari_retry_after ((merge_from_renewal_conf nothing_by_user no_names old_conf defaults).1)
      (codes "/r/a.conf") (codes "2026-05-21T12:34:56")

strip_deprecated-HasLine_example :
    (f : File) × (text : Bytes) × (ari_saved ≡ some (f, some text))
    × HasLine (line_of (codes "no_bootstrap") []) text
unfolding contains equal
strip_deprecated-HasLine_example =
    strip_deprecated-HasLine nothing_by_user no_names old_conf defaults (codes "no_bootstrap")
      (codes "/r/a.conf") (codes "2026-05-21T12:34:56") refl refl (λ e. ground arith)

abbrev paths : Paths
paths = record {
  version = codes "5.1";
  archive_dir = codes "/etc/letsencrypt/archive/a.b";
  cert = codes "/etc/letsencrypt/live/a.b/cert.pem";
  privkey = codes "/etc/letsencrypt/live/a.b/privkey.pem";
  chain = codes "/etc/letsencrypt/live/a.b/chain.pem";
  fullchain = codes "/etc/letsencrypt/live/a.b/fullchain.pem";
}

-- A run with `--no-autorenew` and a hook.
abbrev run : Settings
run = record defaults {
  autorenew = false;
  webroot = true;
  pre_hook = codes "true";
  must_staple = true;
}

merge_from_renewal_conf-write_renewal_conf_example :
    renewed_core no_names defaults (
      write_renewal_conf run paths
        (codes "acct")
        (codes "https://ca/dir")
        (codes "a.b" ∷ [])
        new_file)
    ≡ some (record {
      server = codes "https://ca/dir";
      account = codes "acct";
      authenticator = codes "webroot";
      must_staple = true;
      autorenew = true;
      reuse_key = false;
      pre_hook = codes "true";
      post_hook = [];
    })
unfolding get
merge_from_renewal_conf-write_renewal_conf_example =
    merge_from_renewal_conf-write_renewal_conf run paths (codes "acct") (codes "https://ca/dir")
      (codes "a.b" ∷ []) new_file no_names defaults
