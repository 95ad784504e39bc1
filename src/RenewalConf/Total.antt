-- ===== src/RenewalConf/Total.antt =====
-- `parse` of internal/storage/renewalconf/renewalconf.go writes only to maps that are there.
use go_certbot.Prelude.{
  ℕ, ◌≡◌, ◌≢◌, refl, Bool, true, false, not, ◌&&◌, ◌||◌, List, [], ◌∷◌, Option, none, some, Bytes,
  codes, ltb, length, if-property, Result, ok, err, Bool-cases, inl, inr,
}
use go_certbot.Golib.Map.Keys.{is_some}
use go_certbot.Golib.Map.{Map, get, set, get-set}
use go_certbot.Golib.Strings.Index.{index_byte}
use go_certbot.Golib.Strings.Laws.{equal_refl}
use go_certbot.Golib.Strings.Split.{split}
use go_certbot.Golib.Strings.{equal, has_prefix, has_suffix, trim_space}
use go_certbot.RenewalConf.Parse.{
  ParseError, nil_map, Scope, params_section, is_nil, enter_nested, enter_section, with_file, store,
  assign, parse_line, parse_lines, and_then, start, parse, drop_cr, no_more, max_line, between,
  key_of, value_of,
}
use go_certbot.RenewalConf.{
  File, open_nested, open_section, put_nested, put_nested_in, put_section, put_section_in, set_top,
  set_param,
}

-- The map that a key goes to exists.
record IsOpen (s : Scope) : Type 0 where
  nested_there :
      is_nil (s.nested_name) ≡ false → is_some (get (s.nested_name) (s.file.nested)) ≡ true
  section_there :
      is_nil (s.section) ≡ false
      → equal (s.section) params_section ≡ false
      → is_some (get (s.section) (s.file.sections)) ≡ true

abbrev Good : Result ParseError Scope → Type 0
Good (ok s) = IsOpen s
Good (err e) = e ≢ nil_map

present-set : {V : Type 0} (k : Bytes) (v : V) (m : Map V) → is_some (get k (set k v m)) ≡ true
present-set k v m = rw (get-set k k v m, equal_refl k) refl

present-open_nested :
    (name : Bytes) (f : File) → is_some (get name (open_nested name f).nested) ≡ true
unfolding open_nested
present-open_nested name f = elim (Bool-cases (is_some (get name (f.nested)))) [
  | inl e ↦ rw e e
  | inr e ↦ rw e (present-set name [] (f.nested))
]

present-open_section :
    (name : Bytes) (f : File) → is_some (get name (open_section name f).sections) ≡ true
unfolding open_section
present-open_section name f = elim (Bool-cases (is_some (get name (f.sections)))) [
  | inl e ↦ rw e e
  | inr e ↦ rw e (present-set name [] (f.sections))
]

sections-open_nested : (name : Bytes) (f : File) → (open_nested name f).sections ≡ f.sections
unfolding open_nested
sections-open_nested name f =
    if-property {A = File} (λ g. g.sections ≡ f.sections) (is_some (get name (f.nested)))
      (λ e. refl) (λ e. refl)

enter_nested-IsOpen : (name : Bytes) (s : Scope) → IsOpen s → IsOpen (enter_nested name s)
unfolding enter_nested
enter_nested-IsOpen name s o = record {
  nested_there = λ h. present-open_nested name (s.file);
  section_there = λ h k. rw (sections-open_nested name (s.file)) (o.section_there h k);
}

enter_section-IsOpen : (name : Bytes) (s : Scope) → IsOpen (enter_section name s)
unfolding enter_section
enter_section-IsOpen name s =
    if-property IsOpen (equal name params_section)
      (λ e. record { nested_there = λ h. cc; section_there = λ h k. cc })
      (λ e. record {
        nested_there = λ h. cc;
        section_there = λ h k. present-open_section name (s.file);
      })

module _ (key value : Bytes) (s : Scope) (o : IsOpen s) where
  put_nested-Good :
      (m : Option (Map Bytes))
      → is_some m ≡ true
      → Good (with_file (put_nested_in m (s.nested_name) key value (s.file)) s)
  put_nested-Good none h = cc
  put_nested-Good (some m) h = record {
    nested_there = λ k. present-set (s.nested_name) (set key value m) (s.file.nested);
    section_there = o.section_there;
  }

  put_section-Good :
      (m : Option (Map Bytes))
      → is_some m ≡ true
      → Good (with_file (put_section_in m (s.section) key value (s.file)) s)
  put_section-Good none h = cc
  put_section-Good (some m) h = record {
    nested_there = o.nested_there;
    section_there = λ k l. present-set (s.section) (set key value m) (s.file.sections);
  }

  store-Good : Good (store key value s)
  unfolding store put_nested put_section set_top set_param
  store-Good =
      if-property Good (not (is_nil (s.nested_name)) && equal (s.section) params_section)
        (λ e.
          put_nested-Good (get (s.nested_name) (s.file.nested))
            (o.nested_there (named (is_nil (s.nested_name)) (equal (s.section) params_section) e)))
        (λ d.
          if-property Good (is_nil (s.section))
            (λ e. record { nested_there = o.nested_there; section_there = o.section_there })
            (λ e.
              if-property Good (equal (s.section) params_section)
                (λ k. record { nested_there = o.nested_there; section_there = o.section_there })
                (λ k. put_section-Good (get (s.section) (s.file.sections)) (o.section_there e k))))
    where
      named : (a b : Bool) → (not a && b) ≡ true → a ≡ false
      named false b h = refl
      named true b h = cc

assign-Good :
    (line trimmed : Bytes) (at : Option ℕ) (s : Scope) → IsOpen s → Good (assign line trimmed at s)
assign-Good line trimmed none s o = λ e. cc
assign-Good line trimmed (some i) s o = store-Good (key_of trimmed i) (value_of trimmed i) s o

parse_line-Good : (line : Bytes) (s : Scope) → IsOpen s → Good (parse_line line s)
unfolding parse_line
parse_line-Good line s o =
    let trimmed = trim_space line in
    if-property Good (is_nil trimmed || has_prefix trimmed (codes "#")) (λ e. o)
      (λ e.
        if-property Good (has_prefix trimmed (codes "[[") && has_suffix trimmed (codes "]]"))
          (λ d. enter_nested-IsOpen (trim_space (between 2 trimmed)) s o)
          (λ d.
            if-property Good (has_prefix trimmed (codes "[") && has_suffix trimmed (codes "]"))
              (λ c. enter_section-IsOpen (trim_space (between 1 trimmed)) s)
              (λ c. assign-Good line trimmed (index_byte b'=' trimmed) s o)))

abbrev NeverNil : Result ParseError File → Type 0
NeverNil r = r ≢ err nil_map

and_then-NeverNil :
    (r : Result ParseError Scope) (f : Scope → Result ParseError File)
    → Good r
    → ((t : Scope) → IsOpen t → NeverNil (f t))
    → NeverNil (and_then r f)
and_then-NeverNil (ok t) f g h = h t g
and_then-NeverNil (err e) f g h = λ k. g (cc)

parse_lines-NeverNil : (lines : List Bytes) (s : Scope) → IsOpen s → NeverNil (parse_lines lines s)
unfolding parse_lines
parse_lines-NeverNil [] s o = λ e. cc
parse_lines-NeverNil (line ∷ lines) s o =
    if-property NeverNil (is_nil line && no_more lines) (λ e k. cc)
      (λ e.
        if-property NeverNil (ltb max_line (length line)) (λ d k. cc)
          (λ d.
            and_then-NeverNil (parse_line (drop_cr line) s) (λ t. parse_lines lines t)
              (parse_line-Good (drop_cr line) s o) (λ t p. parse_lines-NeverNil lines t p)))

-- For every file, in whatever order its headers and keys stand, the parser writes to no map that
-- does not exist, which would be a panic.
pub parse_never_nil : (b : Bytes) → parse b ≢ err nil_map
unfolding parse
parse_never_nil b =
    parse_lines-NeverNil (split b'\n' b) start
      (record { nested_there = λ h. cc; section_there = λ h k. cc })
