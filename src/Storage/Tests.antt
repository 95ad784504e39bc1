-- ===== src/Storage/Tests.antt =====
-- Runs of the lineage operations, and the witnesses of their theorems.
use Prim.Native.Nat.{bit_and}
use go_certbot.Prelude.{
  List, [], ◌∷◌, ◌≡◌, ◌≢◌, ◌<◌, ◌⊎◌, refl, Bool, true, false, Bytes, codes, All, Option, some, none,
  arith,
}
use go_certbot.Golib.Strconv.{atoi, itoa}
use go_certbot.Golib.Map.{get}
use go_certbot.Golib.Strings.{equal, has_prefix, has_suffix, trim_prefix, trim_suffix}
use go_certbot.Prelude.Int.{pos}
use go_certbot.Storage.Deploy.Links.{UpToDate, ensure_deployed-UpToDate}
use go_certbot.Storage.Deploy.Mode.{privkey_mode_bits}
use go_certbot.Storage.Deploy.Partial.{ensure_deployed_partial}
use go_certbot.Storage.Deploy.{Live, ensure_deployed, target, compute_privkey_mode}
use go_certbot.Storage.Version.Fresh.{next_version_fresh, version-archive_name}
use go_certbot.Storage.Write.Crash.{write-Safe, write-Deployed}
use go_certbot.Storage.Write.Served.{served, served-write}
use go_certbot.Storage.Write.Steps.{Safe, Deployed}
use go_certbot.Storage.Write.{
  Block, Pem, Pems, Call, link, StoredFile, Tree, link_target, split_leaf, free_version,
  validate_pem_chain, write,
}
use go_certbot.Storage.Version.{
  cert, privkey, chain, fullchain, next_version, archive_name, archive_version_from_name,
  highest_from,
}

abbrev names : List Bytes
names = codes "cert1.pem" ∷ codes "privkey1.pem" ∷ codes "fullchain2.pem" ∷ codes "README" ∷ []

names_next : next_version (some names) ≡ pos 3
unfolding next_version has_prefix has_suffix trim_prefix trim_suffix atoi
names_next = refl

names_highest : highest_from 0 names < 4
unfolding highest_from archive_version_from_name has_prefix has_suffix trim_prefix trim_suffix atoi
names_highest = omega arith

next_version_fresh_example : All (λ name. name ≢ archive_name privkey 3) names
next_version_fresh_example = next_version_fresh names 3 privkey names_next

version-archive_name_example : archive_version_from_name (archive_name fullchain 12) ≡ pos 12
version-archive_name_example = version-archive_name fullchain 12 (omega arith)

-- A crash has left the link of the chain renamed.
abbrev live : Live
live = record {
  link = λ k. elim k [ chain ↦ none | _ ↦ some (codes "../../archive/a/x1.pem") ];
  previous = λ k. elim k [ chain ↦ some (codes "../../archive/a/chain1.pem") | _ ↦ none ];
}

ensure_deployed-UpToDate_example : UpToDate (codes "a") names live chain
ensure_deployed-UpToDate_example = ensure_deployed-UpToDate (codes "a") names live chain

ensure_deployed_partial_example :
    ((ensure_deployed (codes "a") (some (archive_name cert 4 ∷ names)) live).1.link privkey
      ≡ some (target (codes "a") privkey 4))
    × All (λ name. name ≢ archive_name privkey 4) (archive_name cert 4 ∷ names)
ensure_deployed_partial_example =
    ensure_deployed_partial (codes "a") names live 4 names_highest (omega arith)

privkey_mode_bits_example :
    (bit_and (compute_privkey_mode (some 0o755)) 0o600 ≡ 0o600)
    × (bit_and (compute_privkey_mode (some 0o755)) 0o103 ≡ 0)
    × (bit_and (compute_privkey_mode (some 0o755)) 0o074 ≡ bit_and 0o755 0o074)
privkey_mode_bits_example = privkey_mode_bits 0o755 (omega arith)

-- A PEM format of one byte for a block.
abbrev decode_byte : Bytes → Option (Block × Bytes)
decode_byte [] = none
decode_byte (c ∷ rest) =
    some (record { block_type = codes "CERTIFICATE"; headers = []; body = c ∷ [] }, rest)

abbrev byte_pem : Pem
byte_pem = record { decode = decode_byte; encode = λ b. b.body; is_certificate = λ b. true }

abbrev first_key : StoredFile
first_key = record { contents = codes "k"; mode = 0o640 }

abbrev first_cert : StoredFile
first_cert = record { contents = codes "c"; mode = 0o644 }

abbrev first_version : Tree
first_version = record {
  archive = some ((codes "cert1.pem", first_cert) ∷ (codes "privkey1.pem", first_key) ∷ []);
  live_dir = true;
  live_readme = true;
  top_readme = false;
  live = record { link = λ k. some (link_target (codes "a") k (pos 1)); previous = λ k. none };
}

abbrev renewed : Pems
renewed = record { leaf = codes "l"; chain_pem = codes "i"; full = codes "li"; key = codes "n" }

-- The link of the chain cannot be replaced.
abbrev no_chain_link : Call → Bool
no_chain_link (link chain) = false
no_chain_link _ = true

second_next : free_version first_version ≡ pos 2
unfolding free_version next_version has_prefix has_suffix trim_prefix trim_suffix atoi
second_next = refl

write-Safe_example :
    Safe first_version
      (codes "a")
      2
      renewed
      ((write byte_pem no_chain_link (codes "a") (codes "li") none (codes "n") first_version).1)
unfolding split_leaf
write-Safe_example =
    write-Safe byte_pem no_chain_link (codes "a") (codes "li") none (codes "n") first_version 2
      renewed second_next refl

write-Deployed_example :
    ((write byte_pem (λ c. true) (codes "a") (codes "li") none (codes "n") first_version).0 ≡ none)
    × Deployed first_version
        (codes "a")
        2
        renewed
        ((write byte_pem (λ c. true) (codes "a") (codes "li") none (codes "n") first_version).1)
unfolding split_leaf validate_pem_chain equal
write-Deployed_example =
    write-Deployed byte_pem (λ c. true) (codes "a") (codes "li") none (codes "n") first_version 2
      renewed refl refl second_next (λ c. refl)

served-write_example :
    (served
        (codes "a")
        ((write byte_pem no_chain_link (codes "a") (codes "li") none (codes "n") first_version).1)
        privkey
      ≡ some (codes "k"))
    ⊎ (served
          (codes "a")
          ((write byte_pem no_chain_link (codes "a") (codes "li") none (codes "n") first_version).1)
          privkey
        ≡ some (codes "n"))
unfolding split_leaf served link_target get equal has_prefix trim_prefix itoa
served-write_example =
    served-write byte_pem no_chain_link (codes "a") (codes "li") none (codes "n") first_version 2
      renewed privkey (codes "k") second_next refl refl
