-- ===== src/Settings/Ari.antt =====
-- `writeARIRetryAfter` of internal/verbs/ari.go, on a configuration that has been loaded.
use go_certbot.Prelude.{[], ◌∷◌, Option, none, some, Bytes, codes}
use go_certbot.RenewalConf.Save.{save}
use go_certbot.RenewalConf.{File, set_section}

abbrev pub with_text : Option File → Option (File × Option Bytes)
with_text none = none
with_text (some f) = some (f, some (save f))

-- The configuration that is left, and the text that is saved, if any; `retry_at` is the time as it
-- is written, and an error of `Save` is ignored. `none` is a panic.
unfoldable pub write_ari_retry_after : File → Bytes → Bytes → Option (File × Option Bytes)
unfolding set_section save
write_ari_retry_after conf [] retry_at = some (conf, none)
write_ari_retry_after conf (c ∷ path) retry_at =
    with_text (set_section (codes "acme_renewal_info") (codes "ari_retry_after") retry_at conf)
