-- ===== src/Certonly/Tests.antt =====
-- Runs of the dispatch, and the witnesses of its theorems.
use go_certbot.Prelude.{ℕ, ◌<◌, ◌≡◌, ◌⊎◌, refl, List, [], ◌∷◌, Bytes, codes, true, false, ok, none}
use go_certbot.Certonly.Dispatch.Same.{Justified, find_cert_dispatch-Justified, added_name_newcert}
use go_certbot.Certonly.Dispatch.{Request, find_cert_dispatch, loaded, newcert, wanted}
use go_certbot.Certonly.Names.{candidate, next_duplicate_cert_name, next_duplicate_cert_name_free}
use go_certbot.Cli.Domains.{contains}
use go_certbot.Golib.Strings.{equal}

abbrev request : Request
request = record {
  force_renewal = false;
  duplicate = false;
  expand_flag = false;
  reinstall_existing = false;
  non_interactive = false;
  domains = codes "a.example" ∷ codes "b.example" ∷ [];
  ip_addresses = [];
}

abbrev existing : List Bytes
existing = codes "a.example" ∷ []

find_cert_dispatch-Justified_example :
    Justified request existing
      (find_cert_dispatch request (loaded (codes "/l/cert.pem") existing none) true)
find_cert_dispatch-Justified_example =
    find_cert_dispatch-Justified request b'/' (codes "l/cert.pem") existing none true

absent : contains existing (codes "b.example") ≡ false
unfolding contains equal
absent = refl

asked_for : contains (wanted request) (codes "b.example") ≡ true
unfolding contains equal
asked_for = refl

added_name_newcert_example :
    find_cert_dispatch request (loaded (codes "/l/cert.pem") existing none) true
    ≡ (ok newcert, false)
added_name_newcert_example =
    added_name_newcert request b'/' (codes "l/cert.pem") existing none true (codes "b.example") refl
      refl refl absent asked_for

next_duplicate_cert_name_free_example :
    (equal (codes "a-0001") (next_duplicate_cert_name (equal (codes "a-0001")) (codes "a")) ≡ true)
    ⊎ ((k : ℕ) → k < 1000 → equal (codes "a-0001") (candidate (codes "a") k) ≡ false)
next_duplicate_cert_name_free_example =
    next_duplicate_cert_name_free (equal (codes "a-0001")) (codes "a")
