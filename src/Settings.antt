-- ===== src/Settings.antt =====
-- What a renewal configuration keeps of the configuration of a run: the record that
-- `writeRenewalConf` of internal/client/renewalconf.go writes and `mergeFromRenewalConf` of
-- internal/verbs/renew.go reads back.
pub mod Written
pub mod Merged
pub mod Core
pub mod Restored
pub mod Ari
pub mod Stripped
pub mod Shared
mod Tests
use go_certbot.Prelude.{Bool, List, Bytes}
use go_certbot.Golib.Map.{Map}
use go_certbot.Prelude.Int.{ℤ}

-- The fields of `Config` that both read or write.
pub record Settings : Type 0 where
  pub server : Bytes
  pub staging : Bool
  pub account : Bytes
  pub authenticator : Bytes
  pub standalone : Bool
  pub webroot : Bool
  pub manual : Bool
  pub apache : Bool
  pub nginx : Bool
  pub installer : Bytes
  pub key_type : Bytes
  pub elliptic_curve : Bytes
  pub rsa_key_size : ℤ
  pub must_staple : Bool
  pub autorenew : Bool
  pub reuse_key : Bool
  pub preferred_chain : Bytes
  pub preferred_profile : Bytes
  pub required_profile : Bytes
  pub http01_port : ℤ
  pub http01_address : Bytes
  pub pre_hook : Bytes
  pub post_hook : Bytes
  pub deploy_hook : Bytes
  pub user_agent : Bytes
  pub allow_subset_of_names : Bool
  pub preferred_challenges : List Bytes
  pub domains : List Bytes
  pub ip_addresses : List Bytes
  pub webroot_path : List Bytes
  pub webroot_map : Map Bytes
  pub dns_credentials : Map Bytes
  pub dns_propagation_seconds : Map ℤ
