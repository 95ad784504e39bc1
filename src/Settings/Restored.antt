-- ===== src/Settings/Restored.antt =====
-- `writeRenewalConf` of internal/client/renewalconf.go and then `mergeFromRenewalConf` of
-- internal/verbs/renew.go: what a renewal finds of the run that wrote the file.
use go_certbot.Prelude.{
  ◌≡◌, refl, ap, ◌∙◌, Bool, true, false, not, List, [], ◌∷◌, ◌++◌, Option, none, some, Bytes, codes,
  if◌then◌else◌, if-property,
}
use go_certbot.Golib.Map.{Map, get, get-set}
use go_certbot.Golib.Map.Keys.{is_some}
use go_certbot.Golib.Strings.Laws.{equal_refl}
use go_certbot.Golib.Strings.{equal, to_lower, lower_byte, trim_space}
use go_certbot.Prelude.Int.{ℤ}
use go_certbot.RenewalConf.{
  File, set_param, set_top, set_nested, open_nested, put_nested, put_nested_in,
}
use go_certbot.RenewalConf.Values.{bool_param}
use go_certbot.Settings.Core.{Core, core, core-merge_from_renewal_conf}
use go_certbot.Settings.Merged.{text, restored, merge_fields, merge_from_renewal_conf}
use go_certbot.Settings.Written.{
  Call, Paths, set_params, set_tops, set_webroots, param_calls, credential_calls, propagation_calls,
  dns_key, write_params, write_webroot, write_renewal_conf, choose_auth, is_empty, bool_str,
}
use go_certbot.Settings.{Settings}

-- What the calls leave at a key.
abbrev written : Bytes → List Call → Option Bytes → Option Bytes
written j [] old = old
written j ((b, (k, v)) ∷ calls) old =
    written j calls (if equal k j then (if b then some v else old) else old)

get-set_params :
    (j : Bytes) (calls : List Call) (f : File)
    → get j ((set_params calls f).renewal_params) ≡ written j calls (get j (f.renewal_params))
unfolding set_params set_param
get-set_params j [] f = refl
get-set_params j ((true, (k, v)) ∷ calls) f =
    get-set_params j calls (set_param k v f)
    ∙ ap (written j calls) (get-set k j v (f.renewal_params))
get-set_params j ((false, (k, v)) ∷ calls) f =
    get-set_params j calls f ∙ ap (written j calls) (same (equal k j))
  where
    same :
        (b : Bool)
        → get j (f.renewal_params)
          ≡ (if b then get j (f.renewal_params) else get j (f.renewal_params))
    same true = refl
    same false = refl

-- A key that the DNS plugins do not use.
abbrev Flat : Bytes → Type 0
Flat j = (r : Bytes) → equal (codes "dns_" ++ r) j ≡ false

-- A call at another key.
skip :
    (k j v : Bytes) (b : Bool) (old : Option Bytes)
    → equal k j ≡ false
    → (if equal k j then (if b then some v else old) else old) ≡ old
skip k j v b old h = rw h refl

written-credentials :
    (j : Bytes) (m : Map Bytes) (old : Option Bytes)
    → Flat j
    → written j (credential_calls m) old ≡ old
written-credentials j [] old h = refl
written-credentials j ((p, c) ∷ m) old h =
    ap (written j (credential_calls m)) (skip (dns_key p (codes "_credentials")) j _ _ old (h _))
    ∙ written-credentials j m old h

written-propagation :
    (j : Bytes) (m : Map ℤ) (old : Option Bytes)
    → Flat j
    → written j (propagation_calls m) old ≡ old
written-propagation j [] old h = refl
written-propagation j ((p, c) ∷ m) old h =
    ap (written j (propagation_calls m))
      (skip (dns_key p (codes "_propagation_seconds")) j _ _ old (h _))
    ∙ written-propagation j m old h

-- The nested sections are written beside the parameters, and the write goes through.
record Wrote (m : Map Bytes) (o : Option File) : Type 0 where
  file : File
  is : o ≡ some file
  same : file.renewal_params ≡ m

Wrote-put_nested :
    (o : Option (Map Bytes)) (n k v : Bytes) (f : File) (m : Map Bytes)
    → is_some o ≡ true
    → f.renewal_params ≡ m
    → Wrote m (put_nested_in o n k v f)
Wrote-put_nested none n k v f m h e = absurd (cc h)
Wrote-put_nested (some w) n k v f m h e = record { file = _; is = refl; same = e }

Wrote-set_nested : (n k v : Bytes) (f : File) → Wrote (f.renewal_params) (set_nested n k v f)
unfolding set_nested put_nested open_nested
Wrote-set_nested n k v f =
    if-property (λ g. Wrote (f.renewal_params) (put_nested_in (get n (g.nested)) n k v g))
      (is_some (get n (f.nested))) (λ e. Wrote-put_nested (get n (f.nested)) n k v f _ e refl)
      (λ e.
        Wrote-put_nested _ n k v _ _
          (ap is_some (get-set n n [] (f.nested)) ∙ rw (equal_refl n) refl) refl)

Wrote-set_webroots :
    (w : Map Bytes) (m : Map Bytes) (o : Option File) → Wrote m o → Wrote m (set_webroots w o)
unfolding set_webroots
Wrote-set_webroots [] m o h = h
Wrote-set_webroots ((d, p) ∷ w) m o h = rw (h.is) (
    let next = Wrote-set_nested (codes "webroot_map") d p (h.file) in
    Wrote-set_webroots w m _ (record { file = next.file; is = next.is; same = next.same ∙ h.same }))

-- The parameters but for `webroot_path` are those of `m`.
record Saved (m : Map Bytes) (o : Option File) : Type 0 where
  file : File
  is : o ≡ some file
  same :
      (j : Bytes) → equal (codes "webroot_path") j ≡ false → get j (file.renewal_params) ≡ get j m

Saved-Wrote : (m : Map Bytes) (o : Option File) → Wrote m o → Saved m o
Saved-Wrote m o w = record { file = w.file; is = w.is; same = λ j h. ap (get j) (w.same) }

Saved-write_webroot : (cfg : Settings) (f : File) → Saved (f.renewal_params) (write_webroot cfg f)
unfolding write_webroot set_param
Saved-write_webroot cfg f =
    if-property (Saved (f.renewal_params)) (not (is_empty (cfg.webroot_map)))
      (λ _.
        Saved-Wrote _ _
          (Wrote-set_webroots (cfg.webroot_map) _ _ (record { file = f; is = refl; same = refl })))
      (λ _.
        if-property (λ g. Saved (f.renewal_params) (some g)) (not (is_empty (cfg.webroot_path)))
          (λ _. record {
            file = _;
            is = refl;
            same = λ j h. get-set (codes "webroot_path") j _ (f.renewal_params) ∙ rw h refl;
          })
          (λ _. record { file = f; is = refl; same = λ j h. refl }))

module _ (cfg : Settings) (paths : Paths) (account_id server : Bytes) (domains : List Bytes)
    (f : File) where
  get-write_params :
      (j : Bytes)
      → Flat j
      → get j ((write_params cfg paths account_id server domains f).renewal_params)
        ≡ written j (param_calls cfg account_id server domains) (get j (f.renewal_params))
  unfolding write_params set_tops set_top
  get-write_params j h =
      get-set_params j (propagation_calls (cfg.dns_propagation_seconds)) _
      ∙ written-propagation j (cfg.dns_propagation_seconds) _ h
      ∙ get-set_params j (credential_calls (cfg.dns_credentials)) _
      ∙ written-credentials j (cfg.dns_credentials) _ h
      ∙ get-set_params j (param_calls cfg account_id server domains) _

  get-write_renewal_conf :
      (j : Bytes)
      → Flat j
      → equal (codes "webroot_path") j ≡ false
      → (s : Saved
          ((write_params cfg paths account_id server domains f).renewal_params)
          (write_renewal_conf cfg paths account_id server domains f))
      → get j (s.file.renewal_params)
        ≡ written j (param_calls cfg account_id server domains) (get j (f.renewal_params))
  get-write_renewal_conf j h e s = s.same j e ∙ get-write_params j h

bool_param-bool_str :
    (key : Bytes) (b : Bool) (m : Map Bytes)
    → get key m ≡ some (bool_str b)
    → bool_param key m ≡ (b, true)
unfolding bool_param to_lower lower_byte trim_space equal
bool_param-bool_str key true m h = rw h refl
bool_param-bool_str key false m h = rw h refl

-- A hook that the run has no value for keeps the value that the file had.
text-unless_empty :
    (v : Bytes) (old : Option Bytes)
    → text (if not (is_empty v) then some v else old) ≡ restored false v (text old)
text-unless_empty [] old = refl
text-unless_empty (c ∷ v) old = refl

abbrev pub nothing_by_user : Bytes → Bool
nothing_by_user key = false

-- The core of the settings that a run leaves to a renewal with the settings `s`.
abbrev core_left : Settings → Bytes → Bytes → File → Settings → Core
core_left cfg account_id server f s = record {
  server = restored false server s.server;
  account = restored false account_id s.account;
  authenticator = restored false (choose_auth cfg) s.authenticator;
  must_staple = cfg.must_staple;
  autorenew = true;
  reuse_key = cfg.reuse_key;
  pre_hook =
      restored false (restored false cfg.pre_hook (text (get (codes "pre_hook") f.renewal_params)))
        s.pre_hook;
  post_hook =
      restored false
        (restored false cfg.post_hook (text (get (codes "post_hook") f.renewal_params)))
        s.post_hook;
}

core-merge_fields :
    (cfg : Settings) (paths : Paths) (account_id server : Bytes) (domains : List Bytes) (f : File)
    (s : Settings)
    (w : Saved
      ((write_params cfg paths account_id server domains f).renewal_params)
      (write_renewal_conf cfg paths account_id server domains f))
    → core (merge_fields nothing_by_user (w.file) s) ≡ core_left cfg account_id server f s
unfolding merge_fields equal
core-merge_fields cfg paths account_id server domains f s w =
    let at = get-write_renewal_conf cfg paths account_id server domains f in
    rw
      (
        at (codes "server") (λ _. refl) refl w,
        at (codes "account") (λ _. refl) refl w,
        at (codes "authenticator") (λ _. refl) refl w,
        at (codes "pre_hook") (λ _. refl) refl w,
        at (codes "post_hook") (λ _. refl) refl w,
        bool_param-bool_str (codes "must_staple") (cfg.must_staple) _
            (at (codes "must_staple") (λ _. refl) refl w),
        bool_param-bool_str (codes "autorenew") true _ (at (codes "autorenew") (λ _. refl) refl w),
        bool_param-bool_str (codes "reuse_key") (cfg.reuse_key) _
            (at (codes "reuse_key") (λ _. refl) refl w),
        text-unless_empty (cfg.pre_hook) (get (codes "pre_hook") (f.renewal_params)),
        text-unless_empty (cfg.post_hook) (get (codes "post_hook") (f.renewal_params)),
      )
      refl

abbrev pub renewed_core :
    (Bytes → Option (List Bytes × List Bytes)) → Settings → Option File → Option Core
renewed_core sans s none = none
renewed_core sans s (some conf) =
    some (core ((merge_from_renewal_conf nothing_by_user sans conf s).0))

-- Let `writeRenewalConf` build its file in memory over the file `f`, and let that file, with no
-- `Save` and no reading in between, be merged into the settings `s` of a run with no flags. The
-- build never panics, and the merged settings have the account, the server and the authenticator of
-- the run that wrote, where they are not empty, its `must_staple` and `reuse_key`, and its pre-hook
-- and post-hook, where it has none those of `f`. They have `autorenew` as true, whatever the value
-- of the run that wrote was. The other hooks, and what the text of the file makes of a value, are
-- not part of this.
pub merge_from_renewal_conf-write_renewal_conf :
    (cfg : Settings) (paths : Paths) (account_id server : Bytes) (domains : List Bytes) (f : File)
    (sans : Bytes → Option (List Bytes × List Bytes)) (s : Settings)
    → renewed_core sans s (write_renewal_conf cfg paths account_id server domains f)
      ≡ some (record {
        server = restored false server (s.server);
        account = restored false account_id (s.account);
        authenticator = restored false (choose_auth cfg) (s.authenticator);
        must_staple = cfg.must_staple;
        autorenew = true;
        reuse_key = cfg.reuse_key;
        pre_hook =
            restored false
              (restored false (cfg.pre_hook) (text (get (codes "pre_hook") (f.renewal_params))))
              (s.pre_hook);
        post_hook =
            restored false
              (restored false (cfg.post_hook) (text (get (codes "post_hook") (f.renewal_params))))
              (s.post_hook);
      })
unfolding write_renewal_conf
merge_from_renewal_conf-write_renewal_conf cfg paths account_id server domains f sans s =
    let saved = Saved-write_webroot cfg (write_params cfg paths account_id server domains f) in
    ap (renewed_core sans s) (saved.is)
    ∙ ap some (
        core-merge_from_renewal_conf nothing_by_user sans (saved.file) s
        ∙ core-merge_fields cfg paths account_id server domains f s saved)
