-- ===== src/Certonly/Dispatch.antt =====
-- `findCertDispatch` of internal/verbs/certonly.go with `sameSANSet` and `isSuperset`.
pub mod Same
use go_certbot.Prelude.{
  ℕ, ◌==◌, Bool, true, false, not, ◌&&◌, List, [], ◌∷◌, ◌++◌, Option, none, some, Bytes, length,
  if◌then◌else◌, Result, ok, err,
}
use go_certbot.Cli.Domains.{contains}

pub data Directive : Type 0 where
  fresh skip renew expand newcert : Directive

pub data DispatchError : Type 0 where
  stat_failed load_failed superset_requested : DispatchError

-- The flags and names of the command line.
pub record Request : Type 0 where
  pub force_renewal : Bool
  pub duplicate : Bool
  pub expand_flag : Bool
  pub reinstall_existing : Bool
  pub non_interactive : Bool
  pub domains : List Bytes
  pub ip_addresses : List Bytes

-- The renewal configuration of the certificate: `loaded` holds `conf.Top["cert"]`, the names in that
-- certificate as `sansFromCertOrEmpty` finds them, and what `needsRenewal` returns, `none` for an
-- error.
pub data Conf : Type 0 where
  missing cannot_stat cannot_load : Conf
  loaded : Bytes → List Bytes → Option Bool → Conf

-- `set` holds exactly the names of the haystack.
unfoldable pub is_superset : List Bytes → List Bytes → Bool
unfolding contains
is_superset haystack [] = true
is_superset haystack (n ∷ needles) = contains haystack n && is_superset haystack needles

unfoldable pub same_san_set : List Bytes → List Bytes → Bool
unfolding is_superset
same_san_set a b = (length a == length b) && (is_superset a b && is_superset b a)

abbrev pub wanted : Request → List Bytes
wanted q = q.domains ++ q.ip_addresses

abbrev is_due : Option Bool → Bool
is_due none = false
is_due (some needs) = needs

-- The switch, on `identical` and `expansion`; `answer` is what the user says to the prompt. The
-- second part is whether the user is asked.
unfoldable pub choose :
    Request → Bool → Bool → Option Bool → Bool → Result DispatchError Directive × Bool
choose q identical expansion needs answer =
    if q.force_renewal
    then (ok renew, false)
    else if q.duplicate
    then (ok newcert, false)
    else if q.expand_flag && not identical
    then (ok expand, false)
    else if q.reinstall_existing && identical
    then (ok (if is_due needs then renew else skip), false)
    else if identical
    then if q.non_interactive
      then (ok renew, false)
      else (ok (if answer then renew else skip), true)
    else if expansion
    then if q.non_interactive
      then (err superset_requested, false)
      else (ok (if answer then expand else newcert), true)
    else (ok newcert, false)

unfoldable pub find_cert_dispatch : Request → Conf → Bool → Result DispatchError Directive × Bool
unfolding choose same_san_set is_superset
find_cert_dispatch q missing answer = (ok fresh, false)
find_cert_dispatch q cannot_stat answer = (err stat_failed, false)
find_cert_dispatch q cannot_load answer = (err load_failed, false)
find_cert_dispatch q (loaded [] existing needs) answer = (ok fresh, false)
find_cert_dispatch q (loaded (c ∷ leaf) existing needs) answer =
    choose q (same_san_set existing (wanted q)) (is_superset existing (wanted q)) needs answer
