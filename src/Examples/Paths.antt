-- ===== src/Examples/Paths.antt =====
-- A module with a declared path, lib/fs-broker/namespace.js.
use countinghouse.Prelude.{◌≡◌, refl, true, false, [], ◌∷◌, ◌++◌, length, All}
use countinghouse.Prelude.Text.{Text, codes, text_eq}
use countinghouse.Broker.Namespace.{
  FileType, dir, declared, Root, root_of, Config, Namespace, inside, drop, prepare, resolve,
  keep_declared, clash, longest_first, insert_longest,
}
use countinghouse.Broker.Namespace.Deepest.{IsDeepest, resolve-IsDeepest}
use countinghouse.Broker.Namespace.Protected.{IsOpen, prepare-IsOpen}

abbrev as_written : Text → Text
as_written t = t

abbrev all_dirs : Text → FileType
all_dirs t = dir

abbrev config : Config
config = record {
  module_root = codes "/m";
  data_dir = codes "/d";
  tmp_dir = codes "/t";
  declared =
      record { path = codes "/srv"; writable = true }
      ∷ record { path = codes "/srv/in"; writable = false }
      ∷ record { path = codes "/etc"; writable = false }
      ∷ [];
  protected_paths = codes "/etc/ch" ∷ [];
}

abbrev namespace : Namespace
namespace = prepare as_written all_dirs config

-- `/srv/in/a` is in two roots.
abbrev inner : Root
inner = root_of as_written all_dirs (codes "/srv/in") (codes "/srv/in") false false declared

resolve-IsDeepest_example :
    (codes "/srv/in/a" ≡ codes "/srv/in/a")
    × (inside (codes "/srv/in/a") inner.vroot ≡ true)
    × (codes "/srv/in/a" ≡ inner.vroot ++ drop (length inner.vroot) (codes "/srv/in/a"))
    × (codes "/srv/in/a" ≡ inner.host ++ drop (length inner.vroot) (codes "/srv/in/a"))
    × All (IsDeepest (codes "/srv/in/a") inner) namespace.roots
unfolding resolve prepare keep_declared clash longest_first insert_longest inside
resolve-IsDeepest_example =
    resolve-IsDeepest namespace (codes "/srv/in/a") (codes "/srv/in/a") (codes "/srv/in/a") inner
      refl

prepare-IsOpen_example : All (IsOpen as_written all_dirs config) namespace.roots
prepare-IsOpen_example = prepare-IsOpen as_written all_dirs config
