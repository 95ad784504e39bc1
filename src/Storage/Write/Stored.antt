-- ===== src/Storage/Write/Stored.antt =====
-- How `Write` of internal/storage/lineage.go stores the files of a version.
use go_certbot.Prelude.{
  ℕ, ◌≡◌, inl, inr, refl, ap, ◌∙◌, Bool, true, false, List, [], ◌∷◌, none, some, Bytes, All,
  Bool-cases, if-property,
}
use go_certbot.Golib.Map.{Map, get, get-set, delete}
use go_certbot.Golib.Strings.Laws.{equal_iff, equal_refl}
use go_certbot.Golib.Strings.{equal}
use go_certbot.Prelude.Int.{pos}
use go_certbot.Storage.Deploy.{compute_privkey_mode}
use go_certbot.Storage.Version.Fresh.{All-map}
use go_certbot.Storage.Version.{Kind, cert, privkey, chain, fullchain}
use go_certbot.Storage.Write.Steps.{
  contents_of, pem_of, KeepsFiles, Safe, Ran, Does, after, Does-then_do, Does-call,
}
use go_certbot.Storage.Write.{
  Call, make_archive, make_live, write_live_readme, write_top_readme, close_privkey, copy_group,
  open_privkey, remove_privkey, remove, write_opened, store, StoredFile, Tree, files, put, there,
  readme, archive_file, write_file, prior_mode, write_file_exclusive, write_privkey, Pems,
  make_dirs, store_all,
}

name_kind :
    (v : ℕ) (k j : Kind) → equal (archive_file k (pos v)) (archive_file j (pos v)) ≡ true → k ≡ j
unfolding archive_file equal
name_kind v cert cert h = refl
name_kind v cert privkey h = absurd (cc h)
name_kind v cert chain h = absurd (cc h)
name_kind v cert fullchain h = absurd (cc h)
name_kind v privkey cert h = absurd (cc h)
name_kind v privkey privkey h = refl
name_kind v privkey chain h = absurd (cc h)
name_kind v privkey fullchain h = absurd (cc h)
name_kind v chain cert h = absurd (cc h)
name_kind v chain privkey h = absurd (cc h)
name_kind v chain chain h = refl
name_kind v chain fullchain h = absurd (cc h)
name_kind v fullchain cert h = absurd (cc h)
name_kind v fullchain privkey h = absurd (cc h)
name_kind v fullchain chain h = absurd (cc h)
name_kind v fullchain fullchain h = refl

get-delete_other :
    (k j : Bytes) (m : Map StoredFile) → equal k j ≡ false → get j (delete k m) ≡ get j m
unfolding get delete
get-delete_other k j [] h = refl
get-delete_other k j ((i, w) ∷ m) h = elim (Bool-cases (equal i k)) [
  | inl e ↦ rw (e, (equal_iff i k).0 e, h) (get-delete_other k j m h)
  | inr e ↦ elim (Bool-cases (equal i j)) [
    | inl d ↦ rw (e, d) refl
    | inr d ↦ rw (e, d) (get-delete_other k j m h)
  ]
]

abbrev pub all_kinds : List Kind
all_kinds = privkey ∷ fullchain ∷ chain ∷ cert ∷ []

module _ (before : Tree) (cert_name : Bytes) (v : ℕ) (p : Pems) (succeeds : Call → Bool)
    (fresh : (k : Kind) → get (archive_file k (pos v)) (files before) ≡ none) where
  abbrev pub Holds : Tree → Kind → Type 0
  Holds t k = contents_of (get (archive_file k (pos v)) (files t)) ≡ some (pem_of p k)

  -- The files of some kinds are stored, and no link has changed.
  pub record Stage (stored : List Kind) (t : Tree) : Type 0 where
    pub kept : KeepsFiles before t
    pub same : (k : Kind) → t.live.link k ≡ before.live.link k
    pub holds : All (Holds t) stored

  Stage-Safe : (stored : List Kind) (t : Tree) → Stage stored t → Safe before cert_name v p t
  Stage-Safe stored t s = record { kept = s.kept; links = λ k. inl (s.same k) }

  put-kept :
      (k : Kind) (file : StoredFile) (t : Tree)
      → KeepsFiles before t
      → KeepsFiles before (put (archive_file k (pos v)) file t)
  put-kept k file t h name f e =
      get-set (archive_file k (pos v)) name file (files t)
      ∙ elim (Bool-cases (equal (archive_file k (pos v)) name)) [
        | inl d ↦ absurd (clash ((equal_iff (archive_file k (pos v)) name).0 d))
        | inr d ↦ rw d (h name f e)
      ]
    where
      clash : archive_file k (pos v) ≡ name → ⊥
      clash d = cc (e, fresh k, d)

  put-Holds :
      (k j : Kind) (file : StoredFile) (t : Tree)
      → file.contents ≡ pem_of p k
      → Holds t j
      → Holds (put (archive_file k (pos v)) file t) j
  put-Holds k j file t c h =
      ap contents_of (get-set (archive_file k (pos v)) (archive_file j (pos v)) file (files t))
      ∙ elim (Bool-cases (equal (archive_file k (pos v)) (archive_file j (pos v)))) [
        | inl d ↦ rw (d, c) (ap (λ i. some (pem_of p i)) (name_kind v k j d))
        | inr d ↦ rw d h
      ]

  put-Holds_self :
      (k : Kind) (file : StoredFile) (t : Tree)
      → file.contents ≡ pem_of p k
      → Holds (put (archive_file k (pos v)) file t) k
  put-Holds_self k file t c =
      ap contents_of (get-set (archive_file k (pos v)) (archive_file k (pos v)) file (files t))
      ∙ rw (equal_refl (archive_file k (pos v)), c) refl

  put-Stage :
      (stored : List Kind) (k : Kind) (file : StoredFile) (t : Tree)
      → file.contents ≡ pem_of p k
      → Stage stored t
      → Stage (k ∷ stored) (put (archive_file k (pos v)) file t)
  put-Stage stored k file t c s = record {
    kept = put-kept k file t (s.kept);
    same = s.same;
    holds = (
      put-Holds_self k file t c,
      All-map (Holds t) _ (λ j h. put-Holds k j file t c h) stored (s.holds),
    );
  }

  -- The key is stored last.
  abbrev pub BeforeKey : List Kind → Tree → Type 0
  BeforeKey stored t = Stage stored t × (get (archive_file privkey (pos v)) (files t) ≡ none)

  BeforeKey-Safe :
      (stored : List Kind) (t : Tree) → BeforeKey stored t → Safe before cert_name v p t
  BeforeKey-Safe stored t b = Stage-Safe stored t (b.0)

  Does-write_file :
      (stored : List Kind) (k : Kind)
      → equal (archive_file k (pos v)) (archive_file privkey (pos v)) ≡ false
      → Does before cert_name v p succeeds
          (BeforeKey stored)
          (write_file succeeds k (pos v) (pem_of p k))
          (BeforeKey (k ∷ stored))
  Does-write_file stored k other =
      Does-call before cert_name v p succeeds (BeforeKey stored) (BeforeKey (k ∷ stored)) (store k)
        _
        (λ t b. (
          put-Stage stored k (record { contents = pem_of p k; mode = 0o644 }) t refl (b.0),
          get-set (archive_file k (pos v)) (archive_file privkey (pos v)) _ (files t)
              ∙ rw other (b.1),
        ))
        (BeforeKey-Safe stored)

  -- The steps that leave the archive and the links alone.
  moved :
      (stored : List Kind) (t u : Tree)
      → files u ≡ files t
      → u.live ≡ t.live
      → BeforeKey stored t
      → BeforeKey stored u
  moved stored t u e l b = (
    record {
      kept = λ name f h. rw e (b.0.kept name f h);
      same = λ k. ap (λ w. w.link k) l ∙ b.0.same k;
      holds =
          All-map (Holds t) (Holds u)
            (λ k h. ap (λ m. contents_of (get (archive_file k (pos v)) m)) e ∙ h) stored
            (b.0.holds);
    },
    rw e (b.1),
  )

  Does-readme :
      (c : Call) (present : Tree → Bool) (effect : Tree → Tree)
      → ((t : Tree) → BeforeKey [] t → BeforeKey [] (effect t))
      → Does before cert_name v p succeeds
          (BeforeKey [])
          (λ t. readme succeeds c (present t) effect t)
          (BeforeKey [])
  Does-readme c present effect h t b =
      if-property (Ran before cert_name v p succeeds (BeforeKey [])) (present t) (λ _. b)
        (λ _.
          Does-call before cert_name v p succeeds (BeforeKey []) (BeforeKey []) c effect h
            (BeforeKey-Safe []) t b)

  pub Does-make_dirs :
      Does before cert_name v p succeeds (BeforeKey []) (make_dirs succeeds) (BeforeKey [])
  unfolding make_dirs
  Does-make_dirs =
      let P = BeforeKey [] in
      let archive_made : Tree → Tree = λ t. record t { archive = some (files t) } in
      let live_made : Tree → Tree = λ t. record t { live_dir = true } in
      let live_read : Tree → Tree = λ t. record t { live_readme = true } in
      let top_read : Tree → Tree = λ t. record t { top_readme = true } in
      Does-then_do before cert_name v p succeeds P P P _ _
        (Does-call before cert_name v p succeeds P P make_archive archive_made
          (λ t b. moved [] t (archive_made t) refl refl b) (BeforeKey-Safe []))
        (Does-then_do before cert_name v p succeeds P P P _ _
          (Does-call before cert_name v p succeeds P P make_live live_made
            (λ t b. moved [] t (live_made t) refl refl b) (BeforeKey-Safe []))
          (Does-then_do before cert_name v p succeeds P P P _ _
            (Does-readme write_live_readme (λ t. t.live_readme) live_read
              (λ t b. moved [] t (live_read t) refl refl b))
            (Does-readme write_top_readme (λ t. t.top_readme) top_read
              (λ t b. moved [] t (top_read t) refl refl b))))

  abbrev but_key : List Kind
  but_key = fullchain ∷ chain ∷ cert ∷ []

  abbrev key_name : Bytes
  key_name = archive_file privkey (pos v)

  put_other-Holds :
      (j : Kind) (file : StoredFile) (t : Tree)
      → equal key_name (archive_file j (pos v)) ≡ false
      → Holds t j
      → Holds (put key_name file t) j
  put_other-Holds j file t e h =
      ap contents_of (get-set key_name (archive_file j (pos v)) file (files t)) ∙ rw e h

  -- With the key's file opened, and empty, the other files are as they were.
  open-Stage :
      (file : StoredFile) (t : Tree) → BeforeKey but_key t → Stage but_key (put key_name file t)
  unfolding equal archive_file
  open-Stage file t b =
      let (f, (ch, (ce, _))) = b.0.holds in
      record {
        kept = put-kept privkey file t (b.0.kept);
        same = b.0.same;
        holds = (
          put_other-Holds fullchain file t refl f,
          (put_other-Holds chain file t refl ch, (put_other-Holds cert file t refl ce, tt)),
        );
      }

  remove-kept : (t : Tree) → KeepsFiles before t → KeepsFiles before (remove key_name t)
  remove-kept t h name f e = elim (Bool-cases (equal key_name name)) [
    | inl d ↦ absurd (clash ((equal_iff key_name name).0 d))
    | inr d ↦ get-delete_other key_name name (files t) d ∙ h name f e
  ]
    where
      clash : key_name ≡ name → ⊥
      clash d = cc (e, fresh privkey, d)

  remove-Safe : (t : Tree) → Stage but_key t → Safe before cert_name v p (remove key_name t)
  remove-Safe t s = record { kept = remove-kept t (s.kept); links = λ k. inl (s.same k) }

  Does-write_opened :
      (file : StoredFile)
      → file.contents ≡ p.key
      → Does before cert_name v p succeeds
          (Stage but_key)
          (write_opened succeeds key_name file)
          (Stage all_kinds)
  Does-write_opened file c t s =
      if-property (Ran before cert_name v p succeeds (Stage all_kinds)) (succeeds (store privkey))
        (λ _. put-Stage but_key privkey file t c s)
        (λ e. (
          e,
          if-property (Safe before cert_name v p) (succeeds remove_privkey) (λ _. remove-Safe t s)
              (λ _. Stage-Safe but_key t s),
        ))

  Does-write_file_exclusive :
      (file : StoredFile)
      → file.contents ≡ p.key
      → Does before cert_name v p succeeds
          (BeforeKey but_key)
          (write_file_exclusive succeeds key_name file)
          (Stage all_kinds)
  Does-write_file_exclusive file c t b = rw (b.1) (
      Does-then_do before cert_name v p succeeds (BeforeKey but_key) (Stage but_key)
        (Stage all_kinds) _ _
        (Does-call before cert_name v p succeeds (BeforeKey but_key) (Stage but_key) open_privkey _
          (λ u d. open-Stage (record file { contents = [] }) u d) (BeforeKey-Safe but_key))
        (Does-then_do before cert_name v p succeeds (Stage but_key) (Stage all_kinds)
          (Stage all_kinds) _ _ (Does-write_opened file c)
          (Does-call before cert_name v p succeeds (Stage all_kinds) (Stage all_kinds) close_privkey
            (λ u. u) (λ u d. d) (Stage-Safe all_kinds)))
        t b)

  Does-write_privkey :
      Does before cert_name v p succeeds
        (BeforeKey but_key)
        (write_privkey succeeds (pos v) (p.key))
        (Stage all_kinds)
  Does-write_privkey t b =
      let prior = prior_mode (pos v) t in
      after before cert_name v p succeeds (Stage all_kinds) (Stage all_kinds)
        (write_file_exclusive succeeds (archive_file privkey (pos v))
          (record { contents = p.key; mode = compute_privkey_mode prior }) t)
        _
        (Does-write_file_exclusive (record { contents = p.key; mode = compute_privkey_mode prior })
          refl t b)
        (λ u s.
          if-property (Ran before cert_name v p succeeds (Stage all_kinds)) (there prior)
            (λ _.
              Does-call before cert_name v p succeeds (Stage all_kinds) (Stage all_kinds) copy_group
                (λ w. w) (λ w d. d) (Stage-Safe all_kinds) u s)
            (λ _. s))

  pub Does-store_all :
      Does before cert_name v p succeeds
        (BeforeKey [])
        (store_all succeeds (pos v) p)
        (Stage all_kinds)
  unfolding store_all equal archive_file
  Does-store_all =
      Does-then_do before cert_name v p succeeds (BeforeKey []) (BeforeKey (cert ∷ []))
        (Stage all_kinds) _ _ (Does-write_file [] cert refl)
        (Does-then_do before cert_name v p succeeds (BeforeKey (cert ∷ []))
          (BeforeKey (chain ∷ cert ∷ [])) (Stage all_kinds) _ _
          (Does-write_file (cert ∷ []) chain refl)
          (Does-then_do before cert_name v p succeeds (BeforeKey (chain ∷ cert ∷ []))
            (BeforeKey but_key) (Stage all_kinds) _ _
            (Does-write_file (chain ∷ cert ∷ []) fullchain refl) Does-write_privkey))
