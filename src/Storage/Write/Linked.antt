-- ===== src/Storage/Write/Linked.antt =====
-- How `Write` of internal/storage/lineage.go replaces the links, and the whole of it on a version.
use go_certbot.Prelude.{
  ℕ, ◌≡◌, ◌⊎◌, inl, inr, refl, ap, ◌∙◌, Bool, List, [], ◌∷◌, Option, none, some, Bytes, All,
  Bool-cases,
}
use go_certbot.Golib.Map.{get}
use go_certbot.Prelude.Int.{pos}
use go_certbot.Storage.Deploy.Links.{same_kind→eq}
use go_certbot.Storage.Deploy.{set_at, same_kind}
use go_certbot.Storage.Version.Fresh.{All-map}
use go_certbot.Storage.Version.{Kind, cert, privkey, chain, fullchain}
use go_certbot.Storage.Write.Steps.{
  IsComplete, IsLinked, KeepsFiles, Safe, Deployed, Outcome, Ran, Does, Does-then_do, Does-call,
}
use go_certbot.Storage.Write.Stored.{Stage, BeforeKey, all_kinds, Does-make_dirs, Does-store_all}
use go_certbot.Storage.Write.{
  Call, link, WriteError, Tree, files, archive_file, link_target, replace_symlink, Pems, link_all,
  write_version,
}

module _ (before : Tree) (cert_name : Bytes) (v : ℕ) (p : Pems) (succeeds : Call → Bool)
    (fresh : (k : Kind) → get (archive_file k (pos v)) (files before) ≡ none) where
  abbrev Start : Tree → Type 0
  Start = BeforeKey before cert_name v p succeeds fresh []

  abbrev AllStored : Tree → Type 0
  AllStored = Stage before cert_name v p succeeds fresh all_kinds

  -- Every file is stored, and the links of some kinds point at them.
  record Linking (linked : List Kind) (t : Tree) : Type 0 where
    kept : KeepsFiles before t
    complete : IsComplete v p t
    links : (k : Kind) → (t.live.link k ≡ before.live.link k) ⊎ IsLinked cert_name v k t
    done : All (λ k. IsLinked cert_name v k t) linked

  Linking-Safe : (linked : List Kind) (t : Tree) → Linking linked t → Safe before cert_name v p t
  Linking-Safe linked t l = record { kept = l.kept; links = λ k. safe_link (l.links k) }
    where
      safe_link :
          {k : Kind}
          → (t.live.link k ≡ before.live.link k) ⊎ IsLinked cert_name v k t
          → (t.live.link k ≡ before.live.link k) ⊎ (IsLinked cert_name v k t × IsComplete v p t)
      safe_link (inl e) = inl e
      safe_link (inr e) = inr (e, l.complete)

  Stage-Linking : (t : Tree) → AllStored t → Linking [] t
  Stage-Linking t s = record {
    kept = s.kept;
    complete = all s;
    links = λ k. inl (s.same k);
    done = tt;
  }
    where
      all : AllStored t → IsComplete v p t
      all s privkey = s.holds.0
      all s fullchain = s.holds.1.0
      all s chain = s.holds.1.1.0
      all s cert = s.holds.1.1.1.0

  -- A link that is replaced.
  relinked :
      (k j : Kind) (o : Option Bytes) (links : Kind → Option Bytes)
      → (set_at k o links j ≡ links j) ⊎ ((set_at k o links j ≡ o) × (k ≡ j))
  relinked k j o links = elim (Bool-cases (same_kind k j)) [
    | inl e ↦ inr (rw e refl, same_kind→eq k j e)
    | inr e ↦ inl (rw e refl)
  ]

  relinked_self :
      (k : Kind) (o : Option Bytes) (links : Kind → Option Bytes) → set_at k o links k ≡ o
  relinked_self cert o links = refl
  relinked_self privkey o links = refl
  relinked_self chain o links = refl
  relinked_self fullchain o links = refl

  abbrev with_link : Kind → Tree → Tree
  with_link k t = record t {
    live = record t.live { link = set_at k (some (link_target cert_name k (pos v))) t.live.link };
  }

  with_link-IsLinked :
      (k j : Kind) (t : Tree) → IsLinked cert_name v j t → IsLinked cert_name v j (with_link k t)
  with_link-IsLinked k j t h =
      elim (relinked k j (some (link_target cert_name k (pos v))) (t.live.link)) [
        | inl e ↦ e ∙ h
        | inr (e, same) ↦ e ∙ ap (λ i. some (link_target cert_name i (pos v))) same
      ]

  with_link-or :
      (k j : Kind) (t : Tree)
      → (t.live.link j ≡ before.live.link j) ⊎ IsLinked cert_name v j t
      → ((with_link k t).live.link j ≡ before.live.link j) ⊎ IsLinked cert_name v j (with_link k t)
  with_link-or k j t (inr h) = inr (with_link-IsLinked k j t h)
  with_link-or k j t (inl h) =
      elim (relinked k j (some (link_target cert_name k (pos v))) (t.live.link)) [
        | inl e ↦ inl (e ∙ h)
        | inr (e, same) ↦ inr (e ∙ ap (λ i. some (link_target cert_name i (pos v))) same)
      ]

  Does-replace_symlink :
      (linked : List Kind) (k : Kind)
      → Does before cert_name v p succeeds
          (Linking linked)
          (replace_symlink succeeds cert_name k (pos v))
          (Linking (k ∷ linked))
  Does-replace_symlink linked k =
      Does-call before cert_name v p succeeds (Linking linked) (Linking (k ∷ linked)) (link k)
        (with_link k)
        (λ t l. record {
          kept = l.kept;
          complete = l.complete;
          links = λ j. with_link-or k j t (l.links j);
          done = (
            relinked_self k _ (t.live.link),
            All-map (λ j. IsLinked cert_name v j t) _ (λ j h. with_link-IsLinked k j t h) linked
                (l.done),
          );
        })
        (Linking-Safe linked)

  abbrev linked_kinds : List Kind
  linked_kinds = fullchain ∷ chain ∷ privkey ∷ cert ∷ []

  Does-link_all :
      Does before cert_name v p succeeds
        (Linking [])
        (link_all succeeds cert_name (pos v))
        (Linking linked_kinds)
  unfolding link_all
  Does-link_all =
      Does-then_do before cert_name v p succeeds (Linking []) (Linking (cert ∷ []))
        (Linking linked_kinds) _ _ (Does-replace_symlink [] cert)
        (Does-then_do before cert_name v p succeeds (Linking (cert ∷ []))
          (Linking (privkey ∷ cert ∷ [])) (Linking linked_kinds) _ _
          (Does-replace_symlink (cert ∷ []) privkey)
          (Does-then_do before cert_name v p succeeds (Linking (privkey ∷ cert ∷ []))
            (Linking (chain ∷ privkey ∷ cert ∷ [])) (Linking linked_kinds) _ _
            (Does-replace_symlink (privkey ∷ cert ∷ []) chain)
            (Does-replace_symlink (chain ∷ privkey ∷ cert ∷ []) fullchain)))

  Linking-Deployed : (t : Tree) → Linking linked_kinds t → Deployed before cert_name v p t
  Linking-Deployed t l = record { kept = l.kept; complete = l.complete; linked = all l }
    where
      all : Linking linked_kinds t → (k : Kind) → IsLinked cert_name v k t
      all l fullchain = l.done.0
      all l chain = l.done.1.0
      all l privkey = l.done.1.1.0
      all l cert = l.done.1.1.1.0

  BeforeKey-before : Start before
  BeforeKey-before = (record { kept = λ name f h. h; same = λ k. refl; holds = tt }, fresh privkey)

  pub write_version-Outcome :
      Outcome before cert_name v p succeeds (write_version succeeds cert_name (pos v) p before)
  unfolding write_version
  write_version-Outcome = of_ran _ (
      Does-then_do before cert_name v p succeeds Start Start (Linking linked_kinds) _ _
        (Does-make_dirs before cert_name v p succeeds fresh)
        (Does-then_do before cert_name v p succeeds Start AllStored (Linking linked_kinds) _ _
          (Does-store_all before cert_name v p succeeds fresh)
          (λ t s. Does-link_all t (Stage-Linking t s)))
        before BeforeKey-before)
    where
      of_ran :
          (r : Option WriteError × Tree)
          → Ran before cert_name v p succeeds (Linking linked_kinds) r
          → Outcome before cert_name v p succeeds r
      of_ran (none, t) h = Linking-Deployed t h
      of_ran (some e, t) h = h
