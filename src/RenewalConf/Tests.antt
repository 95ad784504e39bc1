-- ===== src/RenewalConf/Tests.antt =====
-- Runs of the renewal configuration functions, and the witnesses of their theorems.
use go_certbot.Prelude.{
  [], ◌∷◌, ◌≡◌, ◌≢◌, refl, Option, some, none, Bytes, codes, ok, Result, err, arith,
}
use go_certbot.Cli.Domains.{contains}
use go_certbot.Golib.Map.{Map, get, set, delete}
use go_certbot.Golib.Strings.{equal, has_prefix, has_suffix, trim_space}
use go_certbot.Golib.Strings.Index.{index_byte, contains_byte, Lacks-contains_byte}
use go_certbot.RenewalConf.{
  File, new_file, set_top, set_param, delete_param, open_nested, open_section, put_nested,
  put_section, set_nested, set_section,
}
use go_certbot.RenewalConf.Entry.{IsLine}
use go_certbot.RenewalConf.Hooks.{quoted_value_changes}
use go_certbot.RenewalConf.Parse.{
  parse, ParseError, nil_map, store, enter_nested, enter_section, parse_line, start,
}
use go_certbot.RenewalConf.RoundTrip.{Clean, file_of, parse-save}
use go_certbot.RenewalConf.Save.{save, line_of}
use go_certbot.RenewalConf.Total.{parse_never_nil}
use go_certbot.RenewalConf.Built.{
  Built, Tracked, new, param, delete_it, nested_key, section_key, Built-Tracked,
}
use go_certbot.RenewalConf.Values.{strip_inline_comment, format_value, is_quoted, in_quotes}

abbrev conf : Bytes
conf =
    codes
      "cert = /l/a # now\n\n[renewalparams]\ndomains = a.b,c.d\n[[webroot_map]]\na.b = /w\n[extra]\nk = v\n"

abbrev saved : Result ParseError File → Bytes
saved (ok f) = save f
saved (err e) = []

saved-conf :
    saved (parse conf)
    ≡ codes
        "cert = /l/a\n[renewalparams]\ndomains = a.b, c.d\n[[webroot_map]]\na.b = /w\n[extra]\nk = v\n"
unfolding parse save parse_line store enter_nested enter_section set_top set_param open_nested
    open_section put_nested put_section equal has_prefix has_suffix trim_space index_byte
    strip_inline_comment format_value get set
saved-conf = refl

parse_never_nil_example : parse (codes "[a]\nk = v\n[renewalparams]\n[[b]]\nk = v\n") ≢ err nil_map
parse_never_nil_example = parse_never_nil (codes "[a]\nk = v\n[renewalparams]\n[[b]]\nk = v\n")

abbrev edited : File
edited =
    delete_param (codes "a")
      (set_param (codes "b") (codes "2") (set_param (codes "a") (codes "1") new_file))

abbrev result_of : Option File → File
result_of none = new_file
result_of (some f) = f

abbrev mapped : File
mapped = result_of (set_nested (codes "webroot_map") (codes "a.b") (codes "/w") edited)

abbrev sectioned : File
sectioned = result_of (set_section (codes "extra") (codes "k") (codes "v") mapped)

edited-Built : Built edited
edited-Built =
    delete_it (codes "a") _
      (param (codes "b") (codes "2") _ (param (codes "a") (codes "1") new_file new))

sectioned-Built : Built sectioned
unfolding delete_param set_param set_nested set_section open_nested open_section put_nested
    put_section get set delete equal
sectioned-Built =
    section_key (codes "extra") (codes "k") (codes "v") mapped sectioned
      (nested_key (codes "webroot_map") (codes "a.b") (codes "/w") edited mapped edited-Built refl)
      refl

Built-Tracked_example : Tracked sectioned
Built-Tracked_example = Built-Tracked sectioned sectioned-Built

version-IsLine : IsLine (codes "version") (codes "5.1")
unfolding contains_byte
version-IsLine = record {
  key_ends = record {
    first = b'v';
    tail = codes "ersion";
    begins = refl;
    first_seen = refl;
    last = b'n';
    front = codes "oisrev";
    finishes = refl;
    last_seen = refl;
  };
  value_ends = record {
    first = b'5';
    tail = codes ".1";
    begins = refl;
    first_seen = refl;
    last = b'1';
    front = codes ".5";
    finishes = refl;
    last_seen = refl;
  };
  key_one_line = Lacks-contains_byte b'\n' (codes "version") refl;
  value_one_line = Lacks-contains_byte b'\n' (codes "5.1") refl;
  no_equals = Lacks-contains_byte b'=' (codes "version") refl;
  no_hash = Lacks-contains_byte b'#' (codes "5.1") refl;
  not_comment = refl;
  not_header = refl;
  fits = omega arith;
}

abbrev one_entry : Map Bytes
one_entry = (codes "version", codes "5.1") ∷ []

one_entry-Clean : Clean one_entry
unfolding format_value is_quoted contains_byte equal trim_space
one_entry-Clean = ((version-IsLine, refl), tt)

parse-save_example : parse (save (file_of one_entry one_entry)) ≡ ok (file_of one_entry one_entry)
unfolding contains
parse-save_example =
    parse-save one_entry one_entry (refl, tt) (refl, tt) one_entry-Clean one_entry-Clean

hook-IsLine : IsLine (codes "pre_hook") (in_quotes b'\'' (codes "echo \"hi\""))
unfolding contains_byte
hook-IsLine = record {
  key_ends = record {
    first = b'p';
    tail = codes "re_hook";
    begins = refl;
    first_seen = refl;
    last = b'k';
    front = codes "ooh_erp";
    finishes = refl;
    last_seen = refl;
  };
  value_ends = record {
    first = b'\'';
    tail = codes "echo \"hi\"'";
    begins = refl;
    first_seen = refl;
    last = b'\'';
    front = codes "\"ih\" ohce'";
    finishes = refl;
    last_seen = refl;
  };
  key_one_line = Lacks-contains_byte b'\n' (codes "pre_hook") refl;
  value_one_line = Lacks-contains_byte b'\n' (codes "'echo \"hi\"'") refl;
  no_equals = Lacks-contains_byte b'=' (codes "pre_hook") refl;
  no_hash = Lacks-contains_byte b'#' (codes "'echo \"hi\"'") refl;
  not_comment = refl;
  not_header = refl;
  fits = omega arith;
}

quoted_value_changes_example :
    (parse_line (line_of (codes "pre_hook") (format_value (codes "echo \"hi\""))) start
      ≡ store (codes "pre_hook") (in_quotes b'\'' (codes "echo \"hi\"")) start)
    × (in_quotes b'\'' (codes "echo \"hi\"") ≢ codes "echo \"hi\"")
unfolding is_quoted contains_byte
quoted_value_changes_example =
    quoted_value_changes (codes "pre_hook") (codes "echo \"hi\"") start refl refl refl hook-IsLine
