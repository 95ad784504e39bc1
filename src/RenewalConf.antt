-- ===== src/RenewalConf.antt =====
-- internal/storage/renewalconf/renewalconf.go: the renewal configuration of a certificate.
pub mod Values
pub mod Parse
pub mod Save
pub mod Total
pub mod Tracked
pub mod Groups
pub mod Built
pub mod Entry
pub mod RoundTrip
pub mod Hooks
mod Tests
use go_certbot.Prelude.{
  ◌≡◌, Bool, true, false, List, [], ◌∷◌, ◌++◌, map, Option, none, some, Bytes, codes, if◌then◌else◌,
}
use go_certbot.Golib.Map.Keys.{is_some}
use go_certbot.Golib.Map.{Map, get, set, delete}
use go_certbot.Golib.Strings.{equal}

-- `File`: the maps, and the orders in which their keys were added. `key_order` is by the name of a
-- section, with "nested:" or "section:" before it.
pub record File : Type 0 where
  pub top : Map Bytes
  pub renewal_params : Map Bytes
  pub sections : Map (Map Bytes)
  pub nested : Map (Map Bytes)
  pub top_order : List Bytes
  pub params_order : List Bytes
  pub sections_order : List Bytes
  pub nested_order : List Bytes
  pub key_order : Map (List Bytes)

abbrev pub new_file : File
new_file = record {
  top = [];
  renewal_params = [];
  sections = [];
  nested = [];
  top_order = [];
  params_order = [];
  sections_order = [];
  nested_order = [];
  key_order = [];
}

-- A map that is not there reads as an empty one.
abbrev pub entries : {V : Type 0} → Option (List V) → List V
entries none = []
entries (some m) = m

-- The order behind a write of a key.
abbrev pub note_key : {V : Type 0} → Bytes → Map V → List Bytes → List Bytes
note_key key m order = if is_some (get key m) then order else order ++ key ∷ []

-- The same for the order of the keys of a section.
abbrev pub note_in : Bytes → Bytes → Map Bytes → Map (List Bytes) → Map (List Bytes)
note_in label key m orders =
    if is_some (get key m)
    then orders
    else set label (entries (get label orders) ++ key ∷ []) orders

unfoldable pub set_top : Bytes → Bytes → File → File
unfolding get set
set_top key value f = record f {
  top_order = note_key key f.top f.top_order;
  top = set key value f.top;
}

unfoldable pub set_param : Bytes → Bytes → File → File
unfolding get set
set_param key value f = record f {
  params_order = note_key key f.renewal_params f.params_order;
  renewal_params = set key value f.renewal_params;
}

unfoldable pub without_key : Bytes → List Bytes → List Bytes
without_key key [] = []
without_key key (k ∷ ks) = let rest = without_key key ks in if equal k key then rest else k ∷ rest

unfoldable pub delete_param : Bytes → File → File
unfolding get delete without_key
delete_param key f =
    if is_some (get key f.renewal_params)
    then record f {
      renewal_params = delete key f.renewal_params;
      params_order = without_key key f.params_order;
    }
    else f

abbrev pub nested_label : Bytes → Bytes
nested_label name = codes "nested:" ++ name

abbrev pub section_label : Bytes → Bytes
section_label name = codes "section:" ++ name

-- A section that is not there is created, at the end of the order.
unfoldable pub open_nested : Bytes → File → File
unfolding get set
open_nested name f =
    if is_some (get name f.nested)
    then f
    else record f { nested = set name [] f.nested; nested_order = f.nested_order ++ name ∷ [] }

unfoldable pub open_section : Bytes → File → File
unfolding get set
open_section name f = if is_some (get name f.sections) then f else record f {
  sections = set name [] f.sections;
  sections_order = f.sections_order ++ name ∷ [];
}

-- A write to a key of a section: `none` is Go's panic for a write to a map that is not there.
abbrev pub put_nested_in : Option (Map Bytes) → Bytes → Bytes → Bytes → File → Option File
put_nested_in none name key value f = none
put_nested_in (some m) name key value f = some (record f {
  key_order = note_in (nested_label name) key m f.key_order;
  nested = set name (set key value m) f.nested;
})

unfoldable pub put_nested : Bytes → Bytes → Bytes → File → Option File
unfolding get set
put_nested name key value f = put_nested_in (get name f.nested) name key value f

abbrev pub put_section_in : Option (Map Bytes) → Bytes → Bytes → Bytes → File → Option File
put_section_in none name key value f = none
put_section_in (some m) name key value f = some (record f {
  key_order = note_in (section_label name) key m f.key_order;
  sections = set name (set key value m) f.sections;
})

unfoldable pub put_section : Bytes → Bytes → Bytes → File → Option File
unfolding get set
put_section name key value f = put_section_in (get name f.sections) name key value f

unfoldable pub set_nested : Bytes → Bytes → Bytes → File → Option File
unfolding open_nested put_nested
set_nested name key value f = put_nested name key value (open_nested name f)

unfoldable pub set_section : Bytes → Bytes → Bytes → File → Option File
unfolding open_section put_section
set_section name key value f = put_section name key value (open_section name f)
