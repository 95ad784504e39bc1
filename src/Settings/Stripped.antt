-- ===== src/Settings/Stripped.antt =====
-- The deprecated parameters that `mergeFromRenewalConf` of internal/verbs/renew.go deletes, in a
-- configuration that is saved again, as `writeARIRetryAfter` does.
use go_certbot.Prelude.{
  ◌≡◌, refl, ap, sym, ◌∙◌, true, List, [], ◌∷◌, ◌++◌, append_assoc, none, Bytes, codes, Bool,
  Bool-cases, inl, inr, ◌⊎◌, Option, some, ◌≢◌, append-nil, if-property,
}
use go_certbot.Cli.Domains.{contains}
use go_certbot.Golib.Map.{Map, get, delete, get-set}
use go_certbot.Golib.Strings.Laws.{equal_iff, equal_refl}
use go_certbot.Golib.Strings.{equal}
use go_certbot.RenewalConf.Save.{emit_keys, emit_kv, line_of, save, text_or_empty}
use go_certbot.RenewalConf.Values.{format_value}
use go_certbot.RenewalConf.{File, set_section, put_section, open_section, put_section_in}
use go_certbot.Settings.Merged.{
  deprecated_renewal_params, delete_all, strip_deprecated, merge_from_renewal_conf,
}
use go_certbot.Settings.Ari.{with_text, write_ari_retry_after}
use go_certbot.Settings.{Settings}
use go_certbot.Golib.Map.Keys.{is_some}

delete-none : (k j : Bytes) (m : Map Bytes) → get k m ≡ none → get k (delete j m) ≡ none
unfolding get delete
delete-none k j [] h = refl
delete-none k j ((i, v) ∷ m) h = elim (Bool-cases (equal i k)) [
  | inl e ↦ absurd (taken e)
  | inr e ↦ elim (Bool-cases (equal i j)) [
    | inl d ↦ rw d (delete-none k j m (rw e at h))
    | inr d ↦ rw (d, e) (delete-none k j m (rw e at h))
  ]
]
  where
    taken : equal i k ≡ true → ⊥
    taken e = cc (rw e at h)

get-delete : (k : Bytes) (m : Map Bytes) → get k (delete k m) ≡ none
unfolding get delete
get-delete k [] = refl
get-delete k ((i, v) ∷ m) = elim (Bool-cases (equal i k)) [
  | inl e ↦ rw e (get-delete k m)
  | inr e ↦ rw (e, e) (get-delete k m)
]

delete_all-none :
    (ks : List Bytes) (k : Bytes) (m : Map Bytes) → get k m ≡ none → get k (delete_all ks m) ≡ none
unfolding delete_all
delete_all-none [] k m h = h
delete_all-none (j ∷ ks) k m h = delete_all-none ks k _ (delete-none k j m h)

get-delete_all :
    (ks : List Bytes) (k : Bytes) (m : Map Bytes)
    → contains ks k ≡ true
    → get k (delete_all ks m) ≡ none
unfolding delete_all contains
get-delete_all [] k m h = absurd (cc h)
get-delete_all (j ∷ ks) k m h = elim (Bool-cases (equal j k)) [
  | inl e ↦ delete_all-none ks k _ (rw ((equal_iff j k).0 e) (get-delete k m))
  | inr e ↦ get-delete_all ks k _ (rw e at h)
]

-- A text that is empty or ends with a line.
abbrev pub Closed : Bytes → Type 0
Closed x = (x ≡ []) ⊎ ((front : Bytes) × (x ≡ front ++ b'\n' ∷ []))

-- A text with a line in it: the line starts the text or stands behind a newline, and a newline ends
-- it.
pub record HasLine (line text : Bytes) : Type 0 where
  pub before : Bytes
  pub after : Bytes
  pub parts : text ≡ before ++ (line ++ (b'\n' ∷ after))
  pub starts : Closed before

append-Closed : (x y : Bytes) → Closed x → Closed y → Closed (x ++ y)
append-Closed x y (inl e) c = rw e c
append-Closed x y (inr (front, e)) (inl d) = inr (front, rw d (append-nil x ∙ e))
append-Closed x y (inr _) (inr (front, d)) =
    inr (x ++ front, ap (λ t. x ++ t) d ∙ sym (append_assoc x front (b'\n' ∷ [])))

emit_keys-Closed : (order : List Bytes) (m : Map Bytes) → Closed (emit_keys order m)
unfolding emit_keys
emit_keys-Closed [] m = inl refl
emit_keys-Closed (j ∷ order) m =
    let line = line_of j (format_value (text_or_empty (get j m))) in
    rw (sym (append_assoc line (b'\n' ∷ []) (emit_keys order m))) (
      append-Closed (line ++ b'\n' ∷ []) (emit_keys order m) (inr (line, refl))
        (emit_keys-Closed order m))

emit_kv-Closed : (order : List Bytes) (m : Map Bytes) → Closed (emit_kv order m)
unfolding emit_kv
emit_kv-Closed order m =
    append-Closed (emit_keys order m) _ (emit_keys-Closed order m) (emit_keys-Closed _ m)

HasLine-behind :
    (x : Bytes) {line text : Bytes} → Closed x → HasLine line text → HasLine line (x ++ text)
HasLine-behind x c h = record {
  before = x ++ h.before;
  after = h.after;
  parts = ap (λ t. x ++ t) (h.parts) ∙ sym (append_assoc x (h.before) _);
  starts = append-Closed x (h.before) c (h.starts);
}

HasLine-before : (x : Bytes) {line text : Bytes} → HasLine line text → HasLine line (text ++ x)
HasLine-before x {line} h = record {
  before = h.before;
  after = h.after ++ x;
  parts =
      ap (λ t. t ++ x) (h.parts)
      ∙ append_assoc (h.before) _ x
      ∙ ap (λ t. h.before ++ t) (append_assoc line (b'\n' ∷ h.after) x);
  starts = h.starts;
}

HasLine-emit_keys :
    (order : List Bytes) (k : Bytes) (m : Map Bytes)
    → contains order k ≡ true
    → get k m ≡ none
    → HasLine (line_of k []) (emit_keys order m)
unfolding contains emit_keys format_value
HasLine-emit_keys [] k m h n = absurd (cc h)
HasLine-emit_keys (j ∷ order) k m h n = elim (Bool-cases (equal j k)) [
  | inl e ↦
      rw ((equal_iff j k).0 e, n)
        (record { before = []; after = _; parts = refl; starts = inl refl })
  | inr e ↦
      let line = line_of j (format_value (text_or_empty (get j m))) in
      rw (sym (append_assoc line (b'\n' ∷ []) (emit_keys order m))) (
        HasLine-behind (line ++ b'\n' ∷ []) (inr (line, refl))
          (HasLine-emit_keys order k m (rw e at h) n))
]

-- A parameter that is in the order and not in the map.
saved-HasLine :
    (f : File) (k : Bytes)
    → contains (f.params_order) k ≡ true
    → get k (f.renewal_params) ≡ none
    → HasLine (line_of k []) (save f)
unfolding save emit_kv
saved-HasLine f k h n =
    HasLine-behind (emit_kv (f.top_order) (f.top)) (emit_kv-Closed (f.top_order) (f.top)) (
      HasLine-behind (codes "[renewalparams]\n") (inr (codes "[renewalparams]", refl)) (
        HasLine-before _
          (HasLine-before _ (HasLine-emit_keys (f.params_order) k (f.renewal_params) h n))))

-- A file that has the parameters of another.
record SameParams (f : File) (o : Option File) : Type 0 where
  file : File
  is : o ≡ some file
  order : file.params_order ≡ f.params_order
  params : file.renewal_params ≡ f.renewal_params

SameParams-put_section_in :
    (o : Option (Map Bytes)) (n k v : Bytes) (f g : File)
    → is_some o ≡ true
    → g.params_order ≡ f.params_order
    → g.renewal_params ≡ f.renewal_params
    → SameParams f (put_section_in o n k v g)
SameParams-put_section_in none n k v f g h a b = absurd (cc h)
SameParams-put_section_in (some w) n k v f g h a b = record {
  file = _;
  is = refl;
  order = a;
  params = b;
}

SameParams-set_section : (n k v : Bytes) (f : File) → SameParams f (set_section n k v f)
unfolding set_section put_section open_section
SameParams-set_section n k v f =
    if-property (λ g. SameParams f (put_section_in (get n (g.sections)) n k v g))
      (is_some (get n (f.sections)))
      (λ e. SameParams-put_section_in (get n (f.sections)) n k v f f e refl refl)
      (λ e.
        SameParams-put_section_in _ n k v f _
          (ap is_some (get-set n n [] (f.sections)) ∙ rw (equal_refl n) refl) refl refl)

-- When the renewal configuration of a certificate lists a deprecated parameter, and the time of the
-- server's answer on renewal information is saved behind the merge, then the write does not panic,
-- and the saved text has a line that assigns the empty text to that parameter, where the merge
-- means to remove it.
pub strip_deprecated-HasLine :
    (by_user : Bytes → Bool) (sans : Bytes → Option (List Bytes × List Bytes)) (conf : File)
    (s : Settings) (k path retry_at : Bytes)
    → contains deprecated_renewal_params k ≡ true
    → contains (conf.params_order) k ≡ true
    → path ≢ []
    → (f : File) × (text : Bytes) × (write_ari_retry_after
          ((merge_from_renewal_conf by_user sans conf s).1)
          path
          retry_at
        ≡ some (f, some text))
      × HasLine (line_of k []) text
unfolding write_ari_retry_after merge_from_renewal_conf strip_deprecated
strip_deprecated-HasLine by_user sans conf s k [] retry_at d h p = absurd (p refl)
strip_deprecated-HasLine by_user sans conf s k (c ∷ path) retry_at d h p =
    let stripped = strip_deprecated conf in
    let set =
      SameParams-set_section (codes "acme_renewal_info") (codes "ari_retry_after") retry_at
        stripped in
    (
      set.file,
      save (set.file),
      ap with_text (set.is),
      saved-HasLine (set.file) k (rw (set.order) h)
          (rw (set.params) (get-delete_all deprecated_renewal_params k (conf.renewal_params) d)),
    )
