-- ===== src/Lib.antt =====
-- go-certbot: an ACME client that obtains, stores, installs and renews certificates.
--
-- The parts, with the files of the repository that each module translates:
--   Nginx      internal/plugins/nginx/parser/{lex,ast,parse}.go: Lexer (the token scanner), Ast (the
--              syntax tree and its printer), Parser (the recursive descent). Names is the score of a
--              server in internal/plugins/nginx/configurator.go.
--   Apache     internal/plugins/apache/parser/parser.go: Ast, Lines (continuations), Words (arguments
--              and quotes), Parser.
--   Storage    internal/storage/lineage.go: Version (numbers of archive files), Deploy (the live
--              links, and the mode of a private key), Write (a new version).
--   Checkpoint internal/checkpoint/checkpoint.go: Disk (the files), Save, Restore.
--   Renew      internal/verbs/renew.go: Interval (`parseRenewBefore`), Due (`needsRenewal`), One
--              (`renewOne`), Loop (`Renew`).
--   RenewalConf internal/storage/renewalconf/renewalconf.go: Values (how a value is written and read),
--              Parse, Save; Built is the calls that change a file.
--   Settings   internal/client/renewalconf.go (Written) and `mergeFromRenewalConf` of
--              internal/verbs/renew.go (Merged); Shared has the maps that `renewOne` shares, and Ari is
--              `writeARIRetryAfter` of internal/verbs/ari.go.
--   Hooks      internal/hooks/hooks.go: Dir (`RunDir` and its callers), Command (`Validate`,
--              `PostEnv`); `PreRunner.Run` stands in Renew/One.
--   Certonly   internal/verbs/certonly.go: Dispatch (`findCertDispatch`), Names
--              (`nextDuplicateCertName`, `mergeExistingKeyType`).
--   Cli        internal/cmd/flags.go, internal/cmd/webroot_argv.go and internal/config/config.go:
--              Domains, WebrootMap, Sources.
--   Cleanup    internal/errorhandler/errorhandler.go.
--   Golib      what these use of Go's library: UTF-8, strings, strconv, maps and 64-bit integers.
--   Prelude    shared names, lists and tests over the native numbers, results, signed integers.
--
-- How they interact: `renew` goes through the `.conf` files in the order of their names; for each,
-- `renew_one` reads the configuration, asks `needs_renewal`, runs the pre-hooks, obtains and stores
-- the certificate, and runs the deploy hooks. Storing is `write`, which takes `next_version`; the next
-- run repairs the links with `ensure_deployed`.
-- `find_cert_dispatch` decides for a new request what becomes of a certificate of that name.
-- `write_renewal_conf` saves the settings of a run, and `merge_from_renewal_conf` gives them to
-- `renew_one`. The installers edit files between `save` and `mark_clean` or `restore_in_flight`.
--
-- Strings are lists of bytes. A name is the source's in antt's spelling: `EnsureDeployed` is
-- `ensure_deployed`. A method on a mutable receiver returns the new state beside its result. An
-- `int` or `time.Duration` is an integer with its wrap-around, or a number where it is a length or
-- an offset. A Go map that is only looked up is an association list or the list of its keys.
--
-- Fuel: the nginx parser has one unit more than the source has bytes, and each round of its loops
-- reads a byte or ends. The loops over whitespace and words have one unit for each byte.
-- `validate_pem_chain` has one for each byte, and each block takes one.
-- The Apache parser has one unit for each logical line and one more. `split_args` has one for each
-- byte, and each word takes one.
-- `fields` has one for each byte, and each word has one.
-- The reader of a renewal configuration needs none; a line of 65536 bytes or more is the error of
-- its scanner.
-- The 1000 rounds of `next_duplicate_cert_name` are those of the source.
--
-- Each call on the file system in `write` may fail; elsewhere, failures of the operating system
-- other than a missing file are not modelled. A mode in the archive is the one that a file is
-- created with, before the umask. The directory of pre-hooks is one event of `renew_one`, whatever
-- its scripts are. Not modelled either: other file modes and all times, temporary files, line
-- numbers in errors, what is printed, the execution of hooks (an event and whether it succeeds),
-- `strings.ToLower` and `strings.EqualFold` beyond ASCII, the name that `nextTimestamp` picks (an
-- argument), certificates and keys as such (their names and times are arguments), the network and
-- the ACME library, the registration of flags. The rest of the configurators, accounts, the lock
-- and the log files have no module.
mod Prelude
pub mod Golib
pub mod Nginx
pub mod Apache
pub mod Storage
pub mod Cli
pub mod Checkpoint
pub mod Renew
pub mod Hooks
pub mod Certonly
pub mod Cleanup
pub mod RenewalConf
pub mod Settings
