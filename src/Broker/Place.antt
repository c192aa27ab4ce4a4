-- ===== src/Broker/Place.antt =====
-- lib/fs-broker/broker.js: how an operation's path is placed on the host. The operating system's
-- answers, the time and the functions of `path` are parameters; one path is placed at one time. A
-- path is the virtual path that the namespace makes of it, and an error is the code that it
-- carries. The hook of the tests (`afterCheck`) is left out.
pub mod Reports
pub mod Cache
pub mod Located
pub mod Confined
pub mod Audit
use countinghouse.Prelude.{
  ℕ, ◌+◌, ◌-◌, Bool, true, false, ◌&&◌, ◌||◌, not, List, [], ◌∷◌, Option, none, some, length, any,
  leb, ltb, nat_eq, if◌then◌else◌,
}
use countinghouse.Prelude.Dict.{Dict, get, put}
use countinghouse.Prelude.Text.{Text, text_eq, same}
use countinghouse.Broker.Namespace.{
  Root, Namespace, Resolution, at_root, ancestor, outside, resolve, root_for_real,
}

-- `--moduleSandbox`
pub data Mode : Type 0 where
  off audit enforce : Mode

abbrev pub is_enforce : Mode → Bool
is_enforce enforce = true
is_enforce _ = false

abbrev pub is_off : Mode → Bool
is_off off = true
is_off _ = false

-- The rules that a report names.
pub data Rule : Type 0 where
  outside_rule escape_rule readonly_rule special_rule suppressed : Rule

abbrev pub rule_number : Rule → ℕ
rule_number outside_rule = 0
rule_number escape_rule = 1
rule_number readonly_rule = 2
rule_number special_rule = 3
rule_number suppressed = 4

abbrev pub Entry : Type 0
Entry = Rule × Text

abbrev pub same_entry : Entry → Entry → Bool
same_entry (r, s) (q, t) = nat_eq (rule_number r) (rule_number q) && same s t

-- `reported`, and the calls of `reportFn`; both the last first.
pub record Reporting : Type 0 where
  pub reported : List Entry
  pub calls : List Entry

-- `MAX_REPORTS`
abbrev pub max_reports : ℕ
max_reports = 100

abbrev pub told : Entry → List Entry → Entry
told e reported = if ltb max_reports (length reported) then (suppressed, []) else e

unfoldable pub report : Mode → Rule → Text → Reporting → Reporting
report mode rule target s =
    if is_off mode
      || any (same_entry (rule, target)) s.reported
      || ltb max_reports (length s.reported)
    then s
    else record {
      reported = (rule, target) ∷ s.reported;
      calls = told (rule, target) ((rule, target) ∷ s.reported) ∷ s.calls;
    }

-- An answer of the operating system: `failed` is any other error than ENOENT.
pub data Answer (A : Type 0) : Type 0 where
  found : A → Answer A
  enoent failed : Answer A

pub record Stat : Type 0 where
  pub dev : ℕ
  pub ino : ℕ
  pub is_link : Bool

pub record Host : Type 0 where
  pub realpath : Text → Answer Text
  pub lstat : Text → Answer Stat
  pub stat : Text → Answer Stat

-- `rpCache`: for a directory its real path, and when it was asked for.
pub record Hit : Type 0 where
  pub real : Text
  pub at : ℕ

abbrev pub Cache : Type 0
Cache = Dict Text Hit

-- `RP_CACHE_MS` and `RP_CACHE_MAX`
abbrev pub cache_ms : ℕ
cache_ms = 1000

abbrev pub cache_max : ℕ
cache_max = 1024

-- `delete` of the first key
abbrev pub drop_first : Cache → Cache
drop_first [] = []
drop_first (e ∷ c) = c

abbrev pub make_room : Cache → Cache
make_room c = if leb cache_max (length c) then drop_first c else c

abbrev pub remember : ℕ → Text → Answer Text → Cache → Cache × Answer Text
remember now dir (found real) c =
    (put dir (record { real = real; at = now }) (make_room c), found real)
remember now dir a c = (c, a)

abbrev pub use_hit : Host → ℕ → Text → Option Hit → Cache → Cache × Answer Text
use_hit host now dir none c = remember now dir (host.realpath dir) c
use_hit host now dir (some hit) c =
    let asked = remember now dir (host.realpath dir) c in
    if ltb (now - hit.at) cache_ms then (c, found hit.real) else asked

unfoldable pub cached_realpath : Host → ℕ → Text → Cache → Cache × Answer Text
cached_realpath host now dir c = use_hit host now dir (get dir c) c

-- `ident`
pub data Ident : Type 0 where
  inode : (dev ino : ℕ) → Ident
  parent : Text → Ident

-- `realLoc` and `ident`, or the ways in which there is none: no parent, or an error thrown.
pub data Location : Type 0 where
  located : Text → Ident → Location
  no_parent thrown : Location

-- What `checkHost` answers.
pub data Checked : Type 0 where
  within : Root → Option Ident → Checked
  escape check_thrown : Checked

module _ (dirname basename : Text → Text) (join : Text → Text → Text) (host : Host) (now : ℕ) where
  -- The end of `viaParent`, where the parent's real path is known.
  abbrev pub parent_ident : Bool → Text → Answer Stat → Ident
  parent_ident follow real (found st) = if follow then parent real else inode st.dev st.ino
  parent_ident follow real _ = parent real

  abbrev pub at_parent : Bool → Text → Cache × Answer Text → Cache × Location
  at_parent follow path (c, found real) =
      let loc = join real (basename path) in
      (c, located loc (parent_ident follow real (host.lstat loc)))
  at_parent follow path (c, _) = (c, no_parent)

  unfoldable pub via_parent : Bool → Text → Cache → Cache × Location
  via_parent follow path c = at_parent follow path (cached_realpath host now (dirname path) c)

  abbrev pub stat_real : Bool → Text → Text → Cache → Answer Stat → Cache × Location
  stat_real follow path real c (found st) = (c, located real (inode st.dev st.ino))
  stat_real follow path real c enoent = via_parent follow path c
  stat_real follow path real c failed = (c, thrown)

  abbrev pub by_realpath : Bool → Text → Cache → Answer Text → Cache × Location
  by_realpath follow path c (found real) = stat_real follow path real c (host.stat real)
  by_realpath follow path c enoent = via_parent follow path c
  by_realpath follow path c failed = (c, thrown)

  -- `realpath` and `stat` of the path itself.
  unfoldable pub follow_path : Bool → Text → Cache → Cache × Location
  follow_path follow path c = by_realpath follow path c (host.realpath path)

  abbrev pub name_in : Text → Text → Text → Cache → Answer Stat → Cache × Location
  name_in path real loc c enoent = (c, located loc (parent real))
  name_in path real loc c failed = follow_path true path c
  name_in path real loc c (found st) =
      let followed = follow_path true path c in
      if st.is_link then followed else (c, located loc (inode st.dev st.ino))

  abbrev pub follow_name : Text → Cache × Answer Text → Cache × Location
  follow_name path (c, found real) =
      name_in path real (join real (basename path)) c (host.lstat (join real (basename path)))
  follow_name path (c, _) = follow_path true path c

  unfoldable pub locate : (is_root follow : Bool) → Text → Cache → Cache × Location
  locate true follow path c = follow_path follow path c
  locate false true path c = follow_name path (cached_realpath host now (dirname path) c)
  locate false false path c = via_parent false path c

  abbrev pub held_by : Ident → Option Root → Checked
  held_by ident none = escape
  held_by ident (some r) = within r (some ident)

  abbrev pub judge : Namespace → Root → Location → Checked
  judge n root (located loc ident) = held_by ident (root_for_real n loc)
  judge n root no_parent = within root none
  judge n root thrown = check_thrown

  unfoldable pub check_host :
      Namespace → (virtual path : Text) → Root → Bool → Cache → Cache × Checked
  check_host n virtual path root follow c =
      let (c', location) = locate (same virtual root.vroot) follow path c in
      (c', judge n root location)

pub data Want : Type 0 where
  reading writing : Want

abbrev pub is_writing : Want → Bool
is_writing writing = true
is_writing reading = false

pub data Code : Type 0 where
  enoent_code erofs host_error : Code

-- What `place` returns; `host` is null for a directory above the roots.
pub record Placed : Type 0 where
  pub res : Resolution
  pub virtual : Text
  pub host : Option Text
  pub root : Option Root
  pub ident : Option Ident

pub data Outcome : Type 0 where
  placed : Placed → Outcome
  refused : Code → Outcome

pub record State : Type 0 where
  pub reporting : Reporting
  pub cache : Cache

abbrev pub with_report : Mode → Rule → Text → State → State
with_report mode rule v s = record s { reporting = report mode rule v s.reporting }

abbrev pub unrooted : Resolution → Text → Option Text → Outcome
unrooted res v path =
    placed (record { res = res; virtual = v; host = path; root = none; ident = none })

module _ (mode : Mode) (want : Want) where
  -- The test of `placed.root.writable`, with the root and the identity that were found.
  abbrev pub finish : Resolution → (v path : Text) → Root → Option Ident → State → State × Outcome
  finish res v path r ident s =
      let fine =
        placed
          (record { res = res; virtual = v; host = some path; root = some r; ident = ident }) in
      let told = with_report mode readonly_rule v s in
      if is_writing want && not r.writable
      then (told, if is_enforce mode then refused erofs else fine)
      else (s, fine)

  -- What follows `checkHost`.
  abbrev pub decide : Resolution → (v path : Text) → Root → Checked → State → State × Outcome
  decide res v path r (within holder ident) s = finish res v path holder ident s
  decide res v path r check_thrown s = (s, refused host_error)
  decide res v path r escape s =
      let told = with_report mode escape_rule v s in
      let rest = finish res v path r none told in
      if is_enforce mode then (told, refused enoent_code) else rest

  abbrev pub place_root :
      (Cache → Cache × Checked) → Resolution → (v path : Text) → Root → State → State × Outcome
  place_root check res v path r s =
      let (c, checked) = check s.cache in
      let decided = decide res v path r checked (record s { cache = c }) in
      if is_off mode
      then (
        s,
        placed (record { res = res; virtual = v; host = some path; root = some r; ident = none }),
      )
      else decided

  abbrev pub place_above : Resolution → Text → Outcome
  place_above res v =
      if not (is_enforce mode)
      then unrooted (outside v) v (some v)
      else if is_writing want
      then refused erofs
      else unrooted res v none

  abbrev pub place_outside : Text → Outcome
  place_outside v = if is_enforce mode then refused enoent_code else unrooted (outside v) v (some v)

  abbrev pub place_at :
      ((v path : Text) → Root → Cache → Cache × Checked) → Resolution → State → State × Outcome
  place_at check (at_root v path r) s = place_root (check v path r) (at_root v path r) v path r s
  place_at check (ancestor v children) s = (s, place_above (ancestor v children) v)
  place_at check (outside v) s = (with_report mode outside_rule v s, place_outside v)

module _ (dirname basename : Text → Text) (join : Text → Text → Text) where
  unfoldable pub place :
      Host → ℕ → Namespace → Mode → Want → (follow : Bool) → Text → State → State × Outcome
  place host now n mode want follow p s =
      place_at mode want (λ v path r. check_host dirname basename join host now n v path r follow)
        (resolve n p) s
