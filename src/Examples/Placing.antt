-- ===== src/Examples/Placing.antt =====
-- Paths that lib/fs-broker/broker.js places, on a host without links.
use countinghouse.Prelude.{ℕ, ◌≡◌, refl, true, false, not, [], ◌∷◌, some, arith}
use countinghouse.Prelude.Text.{Text, codes}
use countinghouse.Prelude.Dict.{get}
use countinghouse.Broker.Namespace.{
  at_root, FileType, dir, data_root, Root, Namespace, root_of, prepare, keep_declared, clash,
  longest_first, insert_longest, inside, resolve, root_for_real,
}
use countinghouse.Broker.Place.{
  audit, enforce, writing, Host, found, Cache, Placed, inode, outside_rule, State, cached_realpath,
  locate, check_host, place,
}
use countinghouse.Broker.Place.Reports.{
  nothing_reported, report_all, AreDifferent, AreTold, report_all-AreTold,
}
use countinghouse.Broker.Place.Cache.{IsSound}
use countinghouse.Broker.Place.Confined.{IsConfined, place-IsConfined}
use countinghouse.Broker.Place.Audit.{is_refusal, is_silent, new_state, place-IsForetold}

abbrev pub as_written : Text → Text
as_written t = t

abbrev pub all_dirs : Text → FileType
all_dirs t = dir

abbrev pub namespace : Namespace
namespace = prepare as_written all_dirs (record {
  module_root = codes "/m";
  data_dir = codes "/d";
  tmp_dir = codes "/t";
  declared = [];
  protected_paths = [];
})

-- Every path is a file, and its own real path.
abbrev pub plain_host : ℕ → Host
plain_host t = record {
  realpath = λ p. found p;
  lstat = λ p. found (record { dev = 1; ino = 2; is_link = false });
  stat = λ p. found (record { dev = 1; ino = 2; is_link = false });
}

-- `dirname`, `basename` and `join` for a file `x` of the directory `/d`.
abbrev pub dirname : Text → Text
dirname p = codes "/d"

abbrev pub basename : Text → Text
basename p = codes "x"

abbrev pub join : Text → Text → Text
join a b = codes "/d/x"

abbrev pub cache : Cache
cache = (codes "/d", record { real = codes "/d"; at = 400 }) ∷ []

pub cache-IsSound : IsSound plain_host 1000 cache
cache-IsSound = (((omega arith, refl), tt), omega arith)

abbrev pub state : State
state = record { reporting = nothing_reported; cache = cache }

abbrev pub data_dir : Root
data_dir = root_of as_written all_dirs (codes "/data") (codes "/d") true true data_root

report_all-AreTold_example :
    AreDifferent
      (report_all audit ((outside_rule, codes "/a") ∷ (outside_rule, codes "/a") ∷ [])).reported
    × AreTold
        ((outside_rule, codes "/a") ∷ (outside_rule, codes "/a") ∷ [])
        (report_all audit ((outside_rule, codes "/a") ∷ (outside_rule, codes "/a") ∷ []))
report_all-AreTold_example =
    report_all-AreTold audit refl ((outside_rule, codes "/a") ∷ (outside_rule, codes "/a") ∷ [])

place-IsForetold_example :
    (is_refusal
        (place dirname basename join
          (plain_host 9)
          9
          namespace
          audit
          writing
          true
          (codes "/etc")
          (new_state [])).1
      ≡ false)
    × (is_refusal
          (place dirname basename join
            (plain_host 9)
            9
            namespace
            enforce
            writing
            true
            (codes "/etc")
            (new_state [])).1
        ≡ not (
            is_silent
              (place dirname basename join
                (plain_host 9)
                9
                namespace
                audit
                writing
                true
                (codes "/etc")
                (new_state [])).0))
unfolding resolve prepare keep_declared clash longest_first insert_longest inside
place-IsForetold_example =
    place-IsForetold dirname basename join (plain_host 9) 9 namespace writing true (codes "/etc") []
      refl

abbrev pub landed : Placed
landed = record {
  res = at_root (codes "/data/x") (codes "/d/x") data_dir;
  virtual = codes "/data/x";
  host = some (codes "/d/x");
  root = some data_dir;
  ident = some (inode 1 2);
}

place-IsConfined_example :
    IsConfined dirname basename join plain_host 1000 namespace writing true landed
unfolding resolve prepare keep_declared clash longest_first insert_longest inside root_for_real
    place check_host locate cached_realpath get
place-IsConfined_example =
    place-IsConfined dirname basename join plain_host 1000 namespace writing true (codes "/data/x")
      state landed cache-IsSound refl
