-- ===== src/Cli/WebrootMap/Rooted.antt =====
-- Every webroot in the map is one that the command line names.
use go_certbot.Prelude.{
  ◌≡◌, ◌≢◌, refl, sym, ◌∙◌, ◌⊎◌, inl, inr, append-nil, append_assoc, true, ◌||◌, List, [], ◌∷◌,
  ◌++◌, Option, none, some, Bytes, codes, if◌then◌else◌, if-property, Bool-cases, arith,
}
use go_certbot.Cli.Domains.{contains}
use go_certbot.Cli.WebrootMap.{
  Want, nothing, root, domain, Scan, split_csv, is, add_at, add, add_all, set_root, add_csv,
  flag_step, step_on, step, scan_args, start, add_pending, default_root, finish, build_webroot_map,
}
use go_certbot.Golib.Map.{Map, get, set, get-set}
use go_certbot.Golib.Strings.{equal, has_prefix, trim_prefix}
use go_certbot.Golib.Strings.Laws.{equal_refl}

-- Every value of the map is in the list.
abbrev pub ValuesIn : List Bytes → Map Bytes → Type 0
ValuesIn roots m = (d r : Bytes) → get d m ≡ some r → contains roots r ≡ true

record IsRooted (s : Scan) : Type 0 where
  current : (s.current_root ≡ []) ⊎ (contains s.seen_roots s.current_root ≡ true)
  values : ValuesIn s.seen_roots s.out

contains-append :
    (xs ys : List Bytes) (a : Bytes) → contains (xs ++ ys) a ≡ (contains xs a || contains ys a)
unfolding contains
contains-append [] ys a = refl
contains-append (x ∷ xs) ys a = ground (arith, contains-append xs ys a)

contains-append_left :
    (xs ys : List Bytes) (a : Bytes) → contains xs a ≡ true → contains (xs ++ ys) a ≡ true
contains-append_left xs ys a h = rw (contains-append xs ys a) (rw h)

contains-append_self : (xs : List Bytes) (a : Bytes) → contains (xs ++ a ∷ []) a ≡ true
unfolding contains
contains-append_self xs a = ground (arith, contains-append xs (a ∷ []) a, equal_refl a)

ValuesIn-set :
    (roots : List Bytes) (m : Map Bytes) (k v : Bytes)
    → contains roots v ≡ true
    → ValuesIn roots m
    → ValuesIn roots (set k v m)
ValuesIn-set roots m k v h all d r e = elim (Bool-cases (equal k d)) [
  | inl same ↦ rw (← some-injective v r (rw (get-set k d v m, same) at e)) h
  | inr other ↦ all d r (rw (get-set k d v m, other) at e)
]
  where
    some-injective : (a b : Bytes) → some a ≡ some b → a ≡ b
    some-injective a b p = cc

add_at-IsRooted :
    (r d : Bytes) (s : Scan) → s.current_root ≡ r → IsRooted s → IsRooted (add_at r d s)
add_at-IsRooted [] d s e h = record { current = h.current; values = h.values }
add_at-IsRooted (c ∷ r) d s e h = record {
  current = h.current;
  values = ValuesIn-set s.seen_roots s.out d (c ∷ r) known h.values;
}
  where
    known : contains s.seen_roots (c ∷ r) ≡ true
    known = elim h.current [ inl none_yet ↦ cc | inr k ↦ rw e at k ]

add-IsRooted : (d : Bytes) (s : Scan) → IsRooted s → IsRooted (add d s.current_root s)
unfolding add
add-IsRooted [] s h = h
add-IsRooted (c ∷ d) s h = add_at-IsRooted s.current_root (c ∷ d) s refl h

add_all-IsRooted : (ds : List Bytes) (s : Scan) → IsRooted s → IsRooted (add_all ds s)
unfolding add_all
add_all-IsRooted [] s h = h
add_all-IsRooted (d ∷ ds) s h = add_all-IsRooted ds (add d s.current_root s) (add-IsRooted d s h)

add_csv-IsRooted : (v : Bytes) (s : Scan) → IsRooted s → IsRooted (add_csv v s)
unfolding add_csv
add_csv-IsRooted v s h = add_all-IsRooted (split_csv v) s h

set_root-IsRooted : (r : Bytes) (s : Scan) → IsRooted s → IsRooted (set_root r s)
unfolding set_root
set_root-IsRooted r s h = record {
  current = inr (contains-append_self s.seen_roots r);
  values = λ d v e. contains-append_left s.seen_roots (r ∷ []) v (h.values d v e);
}

set_want-IsRooted : (w : Want) (s : Scan) → IsRooted s → IsRooted (record s { want = w })
set_want-IsRooted w s h = record { current = h.current; values = h.values }

flag_step-IsRooted : (a : Bytes) (s : Scan) → IsRooted s → IsRooted (flag_step a s)
unfolding flag_step
flag_step-IsRooted a s h =
    if-property IsRooted (is a "-w" || is a "--webroot-path") (λ _. set_want-IsRooted root s h)
      (λ _.
        if-property IsRooted (is a "-d" || (is a "--domain" || is a "--domains"))
          (λ _. set_want-IsRooted domain s h)
          (λ _.
            if-property IsRooted (has_prefix a (codes "--webroot-path="))
              (λ _. set_root-IsRooted _ s h)
              (λ _.
                if-property IsRooted (has_prefix a (codes "-w=")) (λ _. set_root-IsRooted _ s h)
                  (λ _.
                    if-property IsRooted (has_prefix a (codes "--domain="))
                      (λ _. add_csv-IsRooted _ s h)
                      (λ _.
                        if-property IsRooted (has_prefix a (codes "--domains="))
                          (λ _. add_csv-IsRooted _ s h)
                          (λ _.
                            if-property IsRooted (has_prefix a (codes "-d="))
                              (λ _. add_csv-IsRooted _ s h) (λ _. h)))))))

step_on-IsRooted : (w : Want) (a : Bytes) (s : Scan) → IsRooted s → IsRooted (step_on w a s)
step_on-IsRooted nothing a s h = flag_step-IsRooted a s h
step_on-IsRooted root a s h = set_want-IsRooted nothing _ (set_root-IsRooted a s h)
step_on-IsRooted domain a s h = set_want-IsRooted nothing _ (add_csv-IsRooted a s h)

scan_args-IsRooted : (args : List Bytes) (s : Scan) → IsRooted s → IsRooted (scan_args args s)
unfolding scan_args step
scan_args-IsRooted [] s h = h
scan_args-IsRooted (a ∷ args) s h =
    scan_args-IsRooted args (step a s) (step_on-IsRooted s.want a s h)

IsRooted-start : IsRooted start
unfolding get
IsRooted-start = record { current = inl refl; values = λ d r e. cc }

default_root-ValuesIn :
    (roots : List Bytes) (o : Option Bytes) (first d : Bytes) (m : Map Bytes)
    → contains roots first ≡ true
    → ValuesIn roots m
    → ValuesIn roots (default_root o first d m)
default_root-ValuesIn roots none first d m h all = ValuesIn-set roots m d first h all
default_root-ValuesIn roots (some r) first d m h all = all

add_pending-ValuesIn :
    (roots : List Bytes) (first : Bytes) (ds : List Bytes) (m : Map Bytes)
    → contains roots first ≡ true
    → ValuesIn roots m
    → ValuesIn roots (add_pending first ds m)
unfolding add_pending
add_pending-ValuesIn roots first [] m h all = all
add_pending-ValuesIn roots first (d ∷ ds) m h all =
    add_pending-ValuesIn roots first ds (default_root (get d m) first d m) h
      (default_root-ValuesIn roots (get d m) first d m h all)

-- The roots of a command line, read off it from the left, for an argument that is the value of the
-- flag before it or not.
abbrev root_of_flag : Bytes → List Bytes
root_of_flag a =
    if is a "-w" || is a "--webroot-path"
    then []
    else if is a "-d" || (is a "--domain" || is a "--domains")
    then []
    else if has_prefix a (codes "--webroot-path=")
    then trim_prefix a (codes "--webroot-path=") ∷ []
    else if has_prefix a (codes "-w=")
    then trim_prefix a (codes "-w=") ∷ []
    else []

abbrev want_of_flag : Bytes → Want
want_of_flag a =
    if is a "-w" || is a "--webroot-path"
    then root
    else if is a "-d" || (is a "--domain" || is a "--domains")
    then domain
    else nothing

pub roots_in : Want → List Bytes → List Bytes
roots_in w [] = []
roots_in root (a ∷ args) = a ∷ roots_in nothing args
roots_in domain (a ∷ args) = roots_in nothing args
roots_in nothing (a ∷ args) = root_of_flag a ++ roots_in (want_of_flag a) args

module _ (s : Scan) where
  seen-add_at : (r d : Bytes) → (add_at r d s).seen_roots ≡ s.seen_roots
  seen-add_at [] d = refl
  seen-add_at (c ∷ r) d = refl

  want-add_at : (r d : Bytes) → (add_at r d s).want ≡ s.want
  want-add_at [] d = refl
  want-add_at (c ∷ r) d = refl

  seen-add : (d r : Bytes) → (add d r s).seen_roots ≡ s.seen_roots
  unfolding add
  seen-add [] r = refl
  seen-add (c ∷ d) r = seen-add_at r (c ∷ d)

  want-add : (d r : Bytes) → (add d r s).want ≡ s.want
  unfolding add
  want-add [] r = refl
  want-add (c ∷ d) r = want-add_at r (c ∷ d)

seen-add_all : (ds : List Bytes) (s : Scan) → (add_all ds s).seen_roots ≡ s.seen_roots
unfolding add_all
seen-add_all [] s = refl
seen-add_all (d ∷ ds) s = seen-add_all ds (add d s.current_root s) ∙ seen-add s d s.current_root

want-add_all : (ds : List Bytes) (s : Scan) → (add_all ds s).want ≡ s.want
unfolding add_all
want-add_all [] s = refl
want-add_all (d ∷ ds) s = want-add_all ds (add d s.current_root s) ∙ want-add s d s.current_root

-- A round adds the root that it names, and knows what the next argument is.
abbrev Names : Scan → List Bytes → Want → Scan → Type 0
Names s rs w t = (t.seen_roots ≡ s.seen_roots ++ rs) × (t.want ≡ w)

add_csv-Names : (v : Bytes) (s : Scan) → Names s [] s.want (add_csv v s)
unfolding add_csv
add_csv-Names v s =
    (seen-add_all (split_csv v) s ∙ sym (append-nil s.seen_roots), want-add_all (split_csv v) s)

flag_step-Names :
    (a : Bytes) (s : Scan)
    → s.want ≡ nothing
    → Names s (root_of_flag a) (want_of_flag a) (flag_step a s)
unfolding flag_step set_root
flag_step-Names a s h = ground (
  arith,
  append-nil s.seen_roots,
  add_csv-Names (trim_prefix a (codes "--domain=")) s,
  add_csv-Names (trim_prefix a (codes "--domains=")) s,
  add_csv-Names (trim_prefix a (codes "-d=")) s,
)

-- One round, and the arguments behind it.
step_on-roots_in :
    (w : Want) (a : Bytes) (args : List Bytes) (s : Scan)
    → s.want ≡ w
    → (step_on w a s).seen_roots ++ roots_in (step_on w a s).want args
      ≡ s.seen_roots ++ roots_in w (a ∷ args)
unfolding roots_in
step_on-roots_in nothing a args s e =
    let n = flag_step-Names a s e in rw (n.0, n.1) (append_assoc s.seen_roots (root_of_flag a) _)
step_on-roots_in root a args s e = unfold set_root in append_assoc s.seen_roots (a ∷ []) _
step_on-roots_in domain a args s e = rw (add_csv-Names a s).0 (rw append-nil)

scan_args-roots_in :
    (args : List Bytes) (s : Scan)
    → (scan_args args s).seen_roots ≡ s.seen_roots ++ roots_in s.want args
unfolding scan_args step
scan_args-roots_in [] s = unfold roots_in in sym (append-nil s.seen_roots)
scan_args-roots_in (a ∷ args) s =
    scan_args-roots_in args (step a s) ∙ step_on-roots_in s.want a args s refl

abbrev pub Answers : List Bytes → Option (Map Bytes) → Type 0
Answers roots none = roots ≡ []
Answers roots (some m) = (roots ≢ []) × ValuesIn roots m

finish-Answers :
    (roots : List Bytes) (s : Scan)
    → s.seen_roots ≡ roots
    → IsRooted s
    → Answers roots (finish roots s)
finish-Answers [] s e h = refl
finish-Answers (first ∷ roots) s e h = (
  λ p. cc,
  add_pending-ValuesIn (first ∷ roots) first s.pending s.out
      (unfold contains in rw (equal_refl first)) (rw e at h.values),
)

-- For every command line: without a webroot on it there is no map; with one there is, and each
-- webroot in the map is one of those that the command line gives, as the value of -w,
-- --webroot-path, -w= or --webroot-path=.
pub build_webroot_map-Answers :
    (args : List Bytes) → Answers (roots_in nothing args) (build_webroot_map args)
unfolding build_webroot_map
build_webroot_map-Answers args =
    let s = scan_args args start in
    rw (← scan_args-roots_in args start)
      (finish-Answers s.seen_roots s refl (scan_args-IsRooted args start IsRooted-start))
