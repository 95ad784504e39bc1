-- ===== src/Storage/Write.antt =====
-- `Write` of internal/storage/lineage.go with its helpers. Each call on the file system may fail,
-- with no effect but where it says otherwise; a crash between two calls leaves what a failure of the
-- second leaves.
pub mod Fuel
pub mod Steps
pub mod Stored
pub mod Linked
pub mod Crash
pub mod Served
use go_certbot.Prelude.{
  ℕ, zero, suc, ◌+◌, Bool, true, false, List, [], ◌∷◌, ◌++◌, Option, none, some, Bytes, codes,
  length, Result, ok, err, if◌then◌else◌,
}
use go_certbot.Golib.Map.Keys.{keys}
use go_certbot.Golib.Map.{Map, get, set, delete}
use go_certbot.Golib.Strconv.{itoa_int}
use go_certbot.Golib.Strings.{equal}
use go_certbot.Prelude.Int.{ℤ, pos, negsuc, ltb_ℤ, ◌-ℤ◌}
use go_certbot.Storage.Deploy.{Live, set_at, compute_privkey_mode}
use go_certbot.Storage.Version.{
  Kind, cert, privkey, chain, fullchain, stem_of, extension, next_version,
}

-- A PEM block, and what `encoding/pem` and `crypto/x509` do with it.
pub record Block : Type 0 where
  pub block_type : Bytes
  pub headers : Map Bytes
  pub body : Bytes

pub record Pem : Type 0 where
  pub decode : Bytes → Option (Block × Bytes)
  pub encode : Block → Bytes
  pub is_certificate : Bytes → Bool

-- The calls on the file system.
pub data Call : Type 0 where
  make_archive make_live write_live_readme write_top_readme open_privkey remove_privkey
        close_privkey copy_group :
      Call
  store link : Kind → Call

pub data WriteError : Type 0 where
  unexpected_block bad_certificate no_certificates empty_fullchain out_of_fuel : WriteError
  key_exists : WriteError
  failed : Call → WriteError

-- A file with the mode that it is created with; the bits of the umask that the system takes from it
-- are left out.
pub record StoredFile : Type 0 where
  pub contents : Bytes
  pub mode : ℕ

-- The directories of a lineage: `none` is an archive directory that does not exist.
pub record Tree : Type 0 where
  pub archive : Option (Map StoredFile)
  pub live_dir : Bool
  pub live_readme : Bool
  pub top_readme : Bool
  pub live : Live

-- One round of the loop of `validatePEMChain`, on what is left; `count` is the blocks before.
unfoldable pub validate_from : Pem → ℕ → ℕ → Option (Block × Bytes) → Option WriteError
unfolding equal
validate_from pem fuel zero none = some no_certificates
validate_from pem fuel (suc count) none = none
validate_from pem zero count (some (block, rest)) = some out_of_fuel
validate_from pem (suc fuel) count (some (block, rest)) =
    let more = validate_from pem fuel (suc count) (pem.decode rest) in
    if equal block.block_type (codes "CERTIFICATE")
    then if pem.is_certificate block.body then more else some bad_certificate
    else some unexpected_block

-- `none` is no error.
unfoldable pub validate_pem_chain : Pem → Bytes → Option WriteError
unfolding validate_from
validate_pem_chain pem full = validate_from pem (length full) 0 (pem.decode full)

-- What a run stores.
pub record Pems : Type 0 where
  pub leaf : Bytes
  pub chain_pem : Bytes
  pub full : Bytes
  pub key : Bytes

abbrev or_rest : Option Bytes → Bytes → Bytes
or_rest none rest = rest
or_rest (some c) rest = c

abbrev pems_from : Pem → Bytes → Option Bytes → Bytes → Option (Block × Bytes) → Option Pems
pems_from pem full chain_pem key none = none
pems_from pem full chain_pem key (some (block, rest)) =
    some (record {
      leaf = pem.encode block;
      chain_pem = or_rest chain_pem rest;
      full = full;
      key = key;
    })

-- `splitLeaf`, with the chain that is stored where the caller gives none: a nil slice is `none`.
unfoldable pub split_leaf : Pem → Bytes → Option Bytes → Bytes → Option Pems
split_leaf pem full chain_pem key = pems_from pem full chain_pem key (pem.decode full)

-- A field of `archiveSet` for an `int`, and the link to it from the live directory.
unfoldable pub archive_file : Kind → ℤ → Bytes
archive_file kind version = stem_of kind ++ (itoa_int version ++ extension)

unfoldable pub link_target : Bytes → Kind → ℤ → Bytes
unfolding archive_file
link_target cert_name kind version =
    codes "../../archive/" ++ (cert_name ++ (b'/' ∷ archive_file kind version))

abbrev pub Step : Type 0
Step = Tree → Option WriteError × Tree

abbrev pub continue : Option WriteError × Tree → Step → Option WriteError × Tree
continue (none, t) next = next t
continue (some e, t) next = (some e, t)

infixr 4 ◌then_do◌
abbrev pub ◌then_do◌ : Step → Step → Step
(s then_do next) t = continue (s t) next

-- A call with its effect, where `succeeds` says that it succeeds.
abbrev pub call : (Call → Bool) → Call → (Tree → Tree) → Step
call succeeds c effect t = if succeeds c then (none, effect t) else (some (failed c), t)

abbrev pub files_of : Option (Map StoredFile) → Map StoredFile
files_of none = []
files_of (some m) = m

abbrev pub files : Tree → Map StoredFile
files t = files_of t.archive

abbrev pub put : Bytes → StoredFile → Tree → Tree
put name file t = record t { archive = some (set name file (files t)) }

-- A README is written where there is none.
abbrev pub readme : (Call → Bool) → Call → Bool → (Tree → Tree) → Step
readme succeeds c there effect t = if there then (none, t) else call succeeds c effect t

-- `writeFile` for one of the files that are not the key.
abbrev pub write_file : (Call → Bool) → Kind → ℤ → Bytes → Step
write_file succeeds kind version contents =
    call succeeds (store kind)
      (put (archive_file kind version) (record { contents = contents; mode = 0o644 }))

abbrev pub there : {A : Type 0} → Option A → Bool
there none = false
there (some x) = true

abbrev mode_of : Option StoredFile → Option ℕ
mode_of none = none
mode_of (some f) = some f.mode

-- The permission bits of the key of the version before, where there is one.
abbrev pub prior_mode : ℤ → Tree → Option ℕ
prior_mode version t =
    if ltb_ℤ (pos 1) version
    then mode_of (get (archive_file privkey (version -ℤ pos 1)) (files t))
    else none

abbrev pub remove : Bytes → Tree → Tree
remove name t = record t { archive = some (delete name (files t)) }

-- A write to the open file that fails has written nothing; the file is removed, and stays, empty, when
-- that fails too or the process ends between the two.
abbrev pub write_opened : (Call → Bool) → Bytes → StoredFile → Step
write_opened succeeds name file t =
    if succeeds (store privkey)
    then (none, put name file t)
    else (some (failed (store privkey)), if succeeds remove_privkey then remove name t else t)

-- `writeFileExclusive`: a file that is there is an error, and so is a failure to close the file,
-- which leaves it.
abbrev pub write_file_exclusive : (Call → Bool) → Bytes → StoredFile → Step
write_file_exclusive succeeds name file t =
    if there (get name (files t))
    then (some key_exists, t)
    else (call succeeds open_privkey (put name (record file { contents = [] }))
          then_do write_opened succeeds name file
          then_do call succeeds close_privkey (λ u. u))
        t

-- The mode is computed from the files that are there, and the group copied from a prior key.
abbrev pub write_privkey : (Call → Bool) → ℤ → Bytes → Step
write_privkey succeeds version key t =
    let prior = prior_mode version t in
    (write_file_exclusive succeeds (archive_file privkey version)
          (record { contents = key; mode = compute_privkey_mode prior })
        then_do (λ u. if there prior then call succeeds copy_group (λ w. w) u else (none, u)))
      t

-- `replaceSymlink`
abbrev pub replace_symlink : (Call → Bool) → Bytes → Kind → ℤ → Step
replace_symlink succeeds cert_name kind version = call succeeds (link kind) (λ t. record t {
  live = record t.live {
    link = set_at kind (some (link_target cert_name kind version)) t.live.link;
  };
})

unfoldable pub make_dirs : (Call → Bool) → Step
make_dirs succeeds =
    call succeeds make_archive (λ t. record t { archive = some (files t) })
    then_do call succeeds make_live (λ t. record t { live_dir = true })
    then_do (λ t.
        readme succeeds write_live_readme t.live_readme (λ u. record u { live_readme = true }) t)
    then_do (λ t.
        readme succeeds write_top_readme t.top_readme (λ u. record u { top_readme = true }) t)

unfoldable pub store_all : (Call → Bool) → ℤ → Pems → Step
unfolding get set archive_file compute_privkey_mode
store_all succeeds version p =
    write_file succeeds cert version p.leaf
    then_do write_file succeeds chain version p.chain_pem
    then_do write_file succeeds fullchain version p.full
    then_do write_privkey succeeds version p.key

unfoldable pub link_all : (Call → Bool) → Bytes → ℤ → Step
unfolding link_target
link_all succeeds cert_name version =
    replace_symlink succeeds cert_name cert version
    then_do replace_symlink succeeds cert_name privkey version
    then_do replace_symlink succeeds cert_name chain version
    then_do replace_symlink succeeds cert_name fullchain version

unfoldable pub write_version : (Call → Bool) → Bytes → ℤ → Pems → Step
unfolding make_dirs store_all link_all
write_version succeeds cert_name version p =
    make_dirs succeeds
    then_do store_all succeeds version p
    then_do link_all succeeds cert_name version

abbrev pub names_of : Option (Map StoredFile) → Option (List Bytes)
names_of none = none
names_of (some m) = some (keys m)

unfoldable pub free_version : Tree → ℤ
unfolding next_version
free_version t = next_version (names_of t.archive)

abbrev pub write_pems : (Call → Bool) → Bytes → Option Pems → Step
write_pems succeeds cert_name none t = (some empty_fullchain, t)
write_pems succeeds cert_name (some p) t = write_version succeeds cert_name (free_version t) p t

-- `none` as the result is no error.
unfoldable pub write : Pem → (Call → Bool) → Bytes → Bytes → Option Bytes → Bytes → Step
unfolding validate_pem_chain split_leaf free_version write_version
write pem succeeds cert_name full chain_pem key =
    (λ t. (validate_pem_chain pem full, t))
    then_do write_pems succeeds cert_name (split_leaf pem full chain_pem key)
