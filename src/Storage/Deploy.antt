-- ===== src/Storage/Deploy.antt =====
-- `EnsureDeployed`, `recoverPreviousLinks` and `computePrivkeyMode` of
-- internal/storage/lineage.go. A live directory is the targets of its symbolic links; the calls on
-- the file system succeed, but where a link or a directory is missing.
pub mod Links
pub mod Partial
pub mod Mode
use Prim.Native.Nat.{bit_and, bit_or}
use go_certbot.Prelude.{
  ℕ, zero, suc, ◌+◌, Bool, true, false, List, [], ◌∷◌, ◌++◌, Option, none, some, Bytes, codes, ◌==◌,
  if◌then◌else◌,
}
use go_certbot.Golib.Strings.{equal}
use go_certbot.Storage.Version.{Kind, cert, privkey, chain, fullchain, highest_from, archive_name}

abbrev pub same_kind : Kind → Kind → Bool
same_kind cert cert = true
same_kind privkey privkey = true
same_kind chain chain = true
same_kind fullchain fullchain = true
same_kind _ _ = false

-- The links `<kind>.pem` and `previous_<kind>.pem`, by kind; `none` is no symbolic link.
pub record Live : Type 0 where
  pub link : Kind → Option Bytes
  pub previous : Kind → Option Bytes

abbrev pub set_at : Kind → Option Bytes → (Kind → Option Bytes) → Kind → Option Bytes
set_at kind target links k = if same_kind kind k then target else links k

-- The order in which the source goes through the kinds.
abbrev pub kinds : List Kind
kinds = cert ∷ privkey ∷ chain ∷ fullchain ∷ []

-- One round of `recoverPreviousLinks`.
abbrev pub recover_from : Option Bytes → Kind → Live → Live
recover_from none kind live = live
recover_from (some target) kind live = record {
  link = set_at kind (some target) live.link;
  previous = set_at kind none live.previous;
}

pub recover_round : Kind → Live → Live
recover_round kind live = recover_from (live.previous kind) kind live

recover_all : List Kind → Live → Live
recover_all [] live = live
recover_all (kind ∷ rest) live = recover_all rest (recover_round kind live)

unfoldable pub recover_previous_links : Live → Live
unfolding recover_all
recover_previous_links = recover_all kinds

-- `filepath.Rel` from the live directory of a lineage to a file of its archive.
unfoldable pub target : Bytes → Kind → ℕ → Bytes
target cert_name kind version =
    codes "../../archive/" ++ (cert_name ++ (b'/' ∷ archive_name kind version))

abbrev pub is_target : Option Bytes → Bytes → Bool
is_target none want = false
is_target (some got) want = equal got want

-- One round of the loop of `EnsureDeployed`: a link that is right is left alone.
unfoldable pub relink : Bytes → ℕ → Kind → Live → Live
relink cert_name version kind live =
    if is_target (live.link kind) (target cert_name kind version)
    then live
    else record live { link = set_at kind (some (target cert_name kind version)) live.link }

pub relink_all : Bytes → ℕ → List Kind → Live → Live
relink_all cert_name version [] live = live
relink_all cert_name version (kind ∷ rest) live =
    relink_all cert_name version rest (relink cert_name version kind live)

abbrev pub deploy_version : Bytes → ℕ → Live → ℕ × Live
deploy_version cert_name zero live = (0, live)
deploy_version cert_name (suc n) live = (suc n, relink_all cert_name (suc n) kinds live)

-- `none` is an archive directory that does not exist.
unfoldable pub ensure_deployed : Bytes → Option (List Bytes) → Live → ℕ × Live
unfolding relink_all recover_previous_links
ensure_deployed cert_name none live = (0, live)
ensure_deployed cert_name (some names) live =
    deploy_version cert_name (highest_from 0 names) (recover_previous_links live)

-- The permission bits of a new private key: `none` is no prior key.
unfoldable pub compute_privkey_mode : Option ℕ → ℕ
compute_privkey_mode none = 0o600
compute_privkey_mode (some prior) = bit_or 0o600 (bit_and prior 0o074)
