-- ===== src/Settings/Written.antt =====
-- `writeRenewalConf` of internal/client/renewalconf.go, with `chooseAuth` and `boolStr`: the calls
-- that it makes on the file that it has loaded, or on an empty one.
use go_certbot.Prelude.{
  zero, suc, Bool, true, false, not, List, [], ◌∷◌, ◌++◌, Option, none, some, Bytes, codes,
  if◌then◌else◌,
}
use go_certbot.Golib.Map.{Map}
use go_certbot.Golib.Strconv.{itoa, itoa_int}
use go_certbot.Golib.Strings.Split.{join}
use go_certbot.Golib.Strings.{equal}
use go_certbot.Prelude.Int.{ℤ, pos, negsuc}
use go_certbot.RenewalConf.{File, set_top, set_param, set_nested}
use go_certbot.Settings.{Settings}

abbrev pub bool_str : Bool → Bytes
bool_str b = if b then codes "True" else codes "False"

abbrev pub is_zero : ℤ → Bool
is_zero (pos zero) = true
is_zero (pos (suc n)) = false
is_zero (negsuc n) = false

abbrev pub is_empty : {A : Type 0} → List A → Bool
is_empty [] = true
is_empty (x ∷ xs) = false

abbrev pub choose_auth : Settings → Bytes
choose_auth cfg =
    if not (is_empty cfg.authenticator)
    then cfg.authenticator
    else if cfg.standalone
    then codes "standalone"
    else if cfg.webroot
    then codes "webroot"
    else if cfg.manual
    then codes "manual"
    else if cfg.apache
    then codes "apache"
    else if cfg.nginx
    then codes "nginx"
    else []

-- `strings.Join(l, ",") + ","`
abbrev pub list_text : List Bytes → Bytes
list_text l = join (codes ",") l ++ codes ","

-- A call of `SetParam` under its condition, as the condition, the key and the value.
abbrev pub Call : Type 0
Call = Bool × (Bytes × Bytes)

abbrev pub always : Bytes → Bytes → Call
always k v = (true, (k, v))

abbrev pub unless_empty : Bytes → Bytes → Call
unless_empty k v = (not (is_empty v), (k, v))

unfoldable pub set_params : List Call → File → File
unfolding set_param
set_params [] f = f
set_params ((b, (k, v)) ∷ calls) f = set_params calls (if b then set_param k v f else f)

-- The values that the run takes from elsewhere: `version`, `ArchiveDir` and the live links.
pub record Paths : Type 0 where
  pub version : Bytes
  pub archive_dir : Bytes
  pub cert : Bytes
  pub privkey : Bytes
  pub chain : Bytes
  pub fullchain : Bytes

unfoldable pub set_tops : Paths → File → File
unfolding set_top
set_tops p f = set_top (codes "fullchain") p.fullchain (
    set_top (codes "chain") p.chain (
      set_top (codes "privkey") p.privkey (
        set_top (codes "cert") p.cert
          (set_top (codes "archive_dir") p.archive_dir (set_top (codes "version") p.version f)))))

-- The calls up to the credentials. `server` is `EffectiveServer`.
abbrev pub param_calls : Settings → Bytes → Bytes → List Bytes → List Call
param_calls cfg account_id server domains =
    always (codes "account") account_id
    ∷ always (codes "authenticator") (choose_auth cfg)
    ∷ always (codes "installer")
        (if not (is_empty cfg.installer) then cfg.installer else codes "None")
    ∷ always (codes "server") server
    ∷ always (codes "key_type") cfg.key_type
    ∷ (equal cfg.key_type (codes "rsa"), (codes "rsa_key_size", itoa_int cfg.rsa_key_size))
    ∷ (not (equal cfg.key_type (codes "rsa")), (codes "elliptic_curve", cfg.elliptic_curve))
    ∷ always (codes "must_staple") (bool_str cfg.must_staple)
    ∷ always (codes "reuse_key") (bool_str cfg.reuse_key)
    ∷ always (codes "autorenew") (codes "True")
    ∷ unless_empty (codes "preferred_chain") cfg.preferred_chain
    ∷ unless_empty (codes "preferred_profile") cfg.preferred_profile
    ∷ unless_empty (codes "required_profile") cfg.required_profile
    ∷ unless_empty (codes "pre_hook") cfg.pre_hook
    ∷ unless_empty (codes "post_hook") cfg.post_hook
    ∷ unless_empty (codes "renew_hook") cfg.deploy_hook
    ∷ (not (is_zero cfg.http01_port), (codes "http01_port", itoa_int cfg.http01_port))
    ∷ unless_empty (codes "http01_address") cfg.http01_address
    ∷ unless_empty (codes "user_agent") cfg.user_agent
    ∷ (cfg.allow_subset_of_names, (codes "allow_subset_of_names", codes "True"))
    ∷ (
      not (is_empty cfg.preferred_challenges),
      (codes "pref_challs", list_text cfg.preferred_challenges),
    )
    ∷ always (codes "domains") (list_text domains)
    ∷ (not (is_empty cfg.ip_addresses), (codes "ip_addresses", list_text cfg.ip_addresses))
    ∷ []

abbrev pub dns_key : Bytes → Bytes → Bytes
dns_key plugin ending = codes "dns_" ++ (plugin ++ ending)

abbrev pub credential_calls : Map Bytes → List Call
credential_calls [] = []
credential_calls ((plugin, creds) ∷ m) =
    unless_empty (dns_key plugin (codes "_credentials")) creds ∷ credential_calls m

abbrev pub propagation_calls : Map ℤ → List Call
propagation_calls [] = []
propagation_calls ((plugin, sec) ∷ m) =
    (not (is_zero sec), (dns_key plugin (codes "_propagation_seconds"), itoa_int sec))
    ∷ propagation_calls m

abbrev and_set_nested : Bytes → Bytes → Option File → Option File
and_set_nested d p none = none
and_set_nested d p (some f) = set_nested (codes "webroot_map") d p f

unfoldable pub set_webroots : Map Bytes → Option File → Option File
unfolding set_nested
set_webroots [] f = f
set_webroots ((d, p) ∷ m) f = set_webroots m (and_set_nested d p f)

unfoldable pub write_webroot : Settings → File → Option File
unfolding set_webroots set_param
write_webroot cfg f =
    if not (is_empty cfg.webroot_map)
    then set_webroots cfg.webroot_map (some f)
    else some (
        if not (is_empty cfg.webroot_path)
        then set_param (codes "webroot_path") (list_text cfg.webroot_path) f
        else f)

-- The file up to the webroots.
unfoldable pub write_params : Settings → Paths → Bytes → Bytes → List Bytes → File → File
unfolding set_params set_tops equal itoa join
write_params cfg paths account_id server domains f =
    set_params (propagation_calls cfg.dns_propagation_seconds) (
      set_params (credential_calls cfg.dns_credentials)
        (set_params (param_calls cfg account_id server domains) (set_tops paths f)))

-- The file that is saved; `none` is a panic of `SetNested`.
unfoldable pub write_renewal_conf :
    Settings → Paths → Bytes → Bytes → List Bytes → File → Option File
unfolding write_params write_webroot
write_renewal_conf cfg paths account_id server domains f =
    write_webroot cfg (write_params cfg paths account_id server domains f)
