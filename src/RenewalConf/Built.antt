-- ===== src/RenewalConf/Built.antt =====
-- The orders of `File` of internal/storage/renewalconf/renewalconf.go against its maps, for the files
-- that its setters build.
use go_certbot.Prelude.{◌≡◌, refl, sym, ap, ◌∙◌, Option, none, some, Bytes, if-property}
use go_certbot.Golib.Map.Keys.{keys, is_some}
use go_certbot.Golib.Map.{Map, get, set}
use go_certbot.RenewalConf.Tracked.{Ordered, note_key-keys, keys-delete, without_key-Distinct}
use go_certbot.RenewalConf.{
  File, new_file, nested_label, section_label, set_top, set_param, delete_param, without_key,
  open_nested, open_section, put_nested_in, put_section_in, put_nested, put_section, set_nested,
  set_section,
}
use go_certbot.RenewalConf.Groups.{
  Grouped, put-Grouped, other-Grouped, open-Grouped, opened-Ordered, written-Ordered, nested_same,
  section_same, nested_apart, section_apart,
}

pub record Tracked (f : File) : Type 0 where
  pub top_ordered : Ordered (f.top_order) (f.top)
  pub params_ordered : Ordered (f.params_order) (f.renewal_params)
  pub nested_ordered : Ordered (f.nested_order) (f.nested)
  pub sections_ordered : Ordered (f.sections_order) (f.sections)
  pub nested_grouped : Grouped nested_label (f.nested) (f.key_order)
  pub sections_grouped : Grouped section_label (f.sections) (f.key_order)

-- The calls that change a file.
pub data Built : File → Type 0 where
  new : Built new_file
  top : (k v : Bytes) (f : File) → Built f → Built (set_top k v f)
  param : (k v : Bytes) (f : File) → Built f → Built (set_param k v f)
  delete_it : (k : Bytes) (f : File) → Built f → Built (delete_param k f)
  nested_key : (n k v : Bytes) (f g : File) → Built f → set_nested n k v f ≡ some g → Built g
  section_key : (n k v : Bytes) (f g : File) → Built f → set_section n k v f ≡ some g → Built g

unwrap : {x g : File} → some x ≡ some g → x ≡ g
unwrap {x} e = ap (λ o. elim o [ none ↦ x | some y ↦ y ]) e

open_nested-Tracked : (n : Bytes) (f : File) → Tracked f → Tracked (open_nested n f)
unfolding open_nested
open_nested-Tracked n f t =
    if-property Tracked (is_some (get n (f.nested))) (λ _. t)
      (λ e. record {
        top_ordered = t.top_ordered;
        params_ordered = t.params_ordered;
        nested_ordered = opened-Ordered n (f.nested) (f.nested_order) e (t.nested_ordered);
        sections_ordered = t.sections_ordered;
        nested_grouped = open-Grouped nested_label n (f.nested) (f.key_order) e (t.nested_grouped);
        sections_grouped = t.sections_grouped;
      })

open_section-Tracked : (n : Bytes) (f : File) → Tracked f → Tracked (open_section n f)
unfolding open_section
open_section-Tracked n f t =
    if-property Tracked (is_some (get n (f.sections))) (λ _. t)
      (λ e. record {
        top_ordered = t.top_ordered;
        params_ordered = t.params_ordered;
        nested_ordered = t.nested_ordered;
        sections_ordered = opened-Ordered n (f.sections) (f.sections_order) e (t.sections_ordered);
        nested_grouped = t.nested_grouped;
        sections_grouped =
            open-Grouped section_label n (f.sections) (f.key_order) e (t.sections_grouped);
      })

put_nested-Tracked :
    (o : Option (Map Bytes)) (n k v : Bytes) (f g : File)
    → get n (f.nested) ≡ o
    → Tracked f
    → put_nested_in o n k v f ≡ some g
    → Tracked g
put_nested-Tracked none n k v f g h t e = absurd (cc e)
put_nested-Tracked (some m) n k v f g h t e = rw (sym (unwrap e)) (record {
  top_ordered = t.top_ordered;
  params_ordered = t.params_ordered;
  nested_ordered = written-Ordered n m (set k v m) (f.nested) (f.nested_order) h (t.nested_ordered);
  sections_ordered = t.sections_ordered;
  nested_grouped =
      put-Grouped nested_label nested_same n k v m (f.nested) (f.key_order) h (t.nested_grouped);
  sections_grouped =
      other-Grouped section_label nested_label nested_apart n k m (f.sections) (f.key_order)
        (t.sections_grouped);
})

put_section-Tracked :
    (o : Option (Map Bytes)) (n k v : Bytes) (f g : File)
    → get n (f.sections) ≡ o
    → Tracked f
    → put_section_in o n k v f ≡ some g
    → Tracked g
put_section-Tracked none n k v f g h t e = absurd (cc e)
put_section-Tracked (some m) n k v f g h t e = rw (sym (unwrap e)) (record {
  top_ordered = t.top_ordered;
  params_ordered = t.params_ordered;
  nested_ordered = t.nested_ordered;
  sections_ordered =
      written-Ordered n m (set k v m) (f.sections) (f.sections_order) h (t.sections_ordered);
  nested_grouped =
      other-Grouped nested_label section_label section_apart n k m (f.nested) (f.key_order)
        (t.nested_grouped);
  sections_grouped =
      put-Grouped section_label section_same n k v m (f.sections) (f.key_order) h
        (t.sections_grouped);
})

delete_param-Tracked : (k : Bytes) (f : File) → Tracked f → Tracked (delete_param k f)
unfolding delete_param
delete_param-Tracked k f t =
    if-property Tracked (is_some (get k (f.renewal_params)))
      (λ e. record {
        top_ordered = t.top_ordered;
        params_ordered = (
          ap (without_key k) (t.params_ordered.0) ∙ sym (keys-delete k (f.renewal_params)),
          rw (keys-delete k (f.renewal_params))
              (without_key-Distinct k (keys (f.renewal_params)) (t.params_ordered.1)),
        );
        nested_ordered = t.nested_ordered;
        sections_ordered = t.sections_ordered;
        nested_grouped = t.nested_grouped;
        sections_grouped = t.sections_grouped;
      })
      (λ e. t)

-- Every file that the setters `SetTop`, `SetParam`, `DeleteParam`, `SetNested` and `SetSection` build
-- from an empty one has orders that list the keys of its maps, each once and no others: those of
-- the top, of the parameters, of the nested sections, of the sections, and of the keys in each
-- nested section and in each section.
pub Built-Tracked : (f : File) → Built f → Tracked f
unfolding set_top set_param set_nested set_section put_nested put_section
Built-Tracked _ new = record {
  top_ordered = (refl, tt);
  params_ordered = (refl, tt);
  nested_ordered = (refl, tt);
  sections_ordered = (refl, tt);
  nested_grouped = λ n. (refl, tt);
  sections_grouped = λ n. (refl, tt);
}
Built-Tracked _ (top k v f b) =
    let t = Built-Tracked f b in
    record {
      top_ordered = note_key-keys k v (f.top) (f.top_order) (t.top_ordered);
      params_ordered = t.params_ordered;
      nested_ordered = t.nested_ordered;
      sections_ordered = t.sections_ordered;
      nested_grouped = t.nested_grouped;
      sections_grouped = t.sections_grouped;
    }
Built-Tracked _ (param k v f b) =
    let t = Built-Tracked f b in
    record {
      top_ordered = t.top_ordered;
      params_ordered = note_key-keys k v (f.renewal_params) (f.params_order) (t.params_ordered);
      nested_ordered = t.nested_ordered;
      sections_ordered = t.sections_ordered;
      nested_grouped = t.nested_grouped;
      sections_grouped = t.sections_grouped;
    }
Built-Tracked _ (delete_it k f b) = delete_param-Tracked k f (Built-Tracked f b)
Built-Tracked _ (nested_key n k v f g b e) =
    put_nested-Tracked _ n k v (open_nested n f) g refl
      (open_nested-Tracked n f (Built-Tracked f b)) e
Built-Tracked _ (section_key n k v f g b e) =
    put_section-Tracked _ n k v (open_section n f) g refl
      (open_section-Tracked n f (Built-Tracked f b)) e
