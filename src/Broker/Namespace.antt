-- ===== src/Broker/Namespace.antt =====
-- lib/fs-broker/namespace.js: which host path stands behind a path of a module. `realOf` and
-- `typeOf`, which ask the operating system, are parameters, and so is `path.resolve`: `resolve` takes
-- the virtual path that `toVirtualPath` makes of its argument. A text is a list of the units that
-- JavaScript compares.
pub mod Deepest
pub mod Protected
use countinghouse.Prelude.{
  ℕ, zero, suc, ◌+◌, Bool, true, false, ◌&&◌, ◌||◌, not, List, [], ◌∷◌, ◌++◌, Option, none, some,
  map, keep, find, length, leb, ltb, is_some, nat_eq, if◌then◌else◌,
}
use countinghouse.Prelude.Dict.{Dict, get, put}
use countinghouse.Prelude.Text.{Text, text_eq, codes, same, starts_with, split}

unfoldable pub inside : Text → Text → Bool
inside p root =
    same p root || starts_with (if same root (codes "/") then codes "/" else root ++ codes "/") p

pub data FileType : Type 0 where
  dir file missing : FileType

pub data RootName : Type 0 where
  app data_root tmp declared : RootName

pub record Root : Type 0 where
  pub vroot : Text
  pub host : Text
  pub writable : Bool
  pub quota : Bool
  pub name : RootName
  pub real : Text
  pub type : FileType

-- A declared path, and whether its access is `rw`.
pub record Declared : Type 0 where
  pub path : Text
  pub writable : Bool

pub record Config : Type 0 where
  pub module_root : Text
  pub data_dir : Text
  pub tmp_dir : Text
  pub declared : List Declared
  pub protected_paths : List Text

-- `refused`: the declared paths that overlap a protected one, with that one.
pub record Namespace : Type 0 where
  pub roots : List Root
  pub refused : List (Text × Text)

abbrev pub overlap : Text → Text → Bool
overlap a b = inside a b || inside b a

-- `a.sort((x, y) => size(y) - size(x))`: the longest first, and otherwise in the old order
unfoldable pub insert_longest : (Root → Text) → Root → List Root → List Root
insert_longest text r [] = r ∷ []
insert_longest text r (s ∷ roots) =
    let later = insert_longest text r roots in
    if leb (length (text s)) (length (text r)) then r ∷ s ∷ roots else s ∷ later

unfoldable pub longest_first : (Root → Text) → List Root → List Root
longest_first text [] = []
longest_first text (r ∷ roots) = insert_longest text r (longest_first text roots)

abbrev pub drop : ℕ → Text → Text
drop zero s = s
drop (suc n) [] = []
drop (suc n) (a ∷ s) = drop n s

module _ (real_of : Text → Text) (type_of : Text → FileType) where
  -- The protected path that a declared one overlaps, as written or in its real form.
  unfoldable pub clash : List Text → Text → Option Text
  clash protected_paths path =
      find (λ p. overlap p path || overlap (real_of p) (real_of path)) protected_paths

  abbrev pub root_of : Text → Text → Bool → Bool → RootName → Root
  root_of vroot host writable quota name = record {
    vroot = vroot;
    host = host;
    writable = writable;
    quota = quota;
    name = name;
    real = real_of host;
    type = type_of host;
  }

  abbrev pub sort_declared :
      Option Text
      → Declared
      → List Declared × List (Text × Text)
      → List Declared × List (Text × Text)
  sort_declared none d (kept, refused) = (d ∷ kept, refused)
  sort_declared (some p) d (kept, refused) = (kept, (d.path, p) ∷ refused)

  -- The loop over `cfg.declared`.
  unfoldable pub keep_declared : List Text → List Declared → List Declared × List (Text × Text)
  keep_declared protected_paths [] = ([], [])
  keep_declared protected_paths (d ∷ ds) =
      sort_declared (clash protected_paths d.path) d (keep_declared protected_paths ds)

  unfoldable pub prepare : Config → Namespace
  prepare cfg =
      let (kept, refused) = keep_declared cfg.protected_paths cfg.declared in
      record {
        roots =
            root_of (codes "/app") cfg.module_root false false app
            ∷ root_of (codes "/data") cfg.data_dir true true data_root
            ∷ root_of (codes "/tmp") cfg.tmp_dir true true tmp
            ∷ map (λ d. root_of d.path d.path d.writable false declared) kept;
        refused = refused;
      }

pub data Resolution : Type 0 where
  at_root : (virtual host : Text) → Root → Resolution
  ancestor : (virtual : Text) → Dict Text FileType → Resolution
  outside : (virtual : Text) → Resolution

abbrev pub is_file : FileType → Bool
is_file file = true
is_file _ = false

-- The name and the type of a root's part right below `v`.
abbrev pub child_of : List Text → FileType → Text × FileType
child_of [] type = ([], dir)
child_of (name ∷ []) type = (name, if is_file type then file else dir)
child_of (name ∷ more ∷ rest) type = (name, dir)

abbrev pub see : Text × FileType → Dict Text FileType → Dict Text FileType
see (name, type) seen =
    if not (is_some (get name seen)) || not (is_file type) then put name type seen else seen

-- The loop over `below`: the children in the order in which they are met.
unfoldable pub children : Text → List Root → Dict Text FileType → Dict Text FileType
children v [] seen = seen
children v (r ∷ roots) seen = children v roots (
    see
      (child_of (split b'/' (drop (if same v (codes "/") then 1 else length v + 1) r.vroot)) r.type)
      seen)

abbrev pub text_ltb : Text → Text → Bool
text_ltb [] [] = false
text_ltb [] (b ∷ t) = true
text_ltb (a ∷ s) [] = false
text_ltb (a ∷ s) (b ∷ t) = ltb a b || nat_eq a b && text_ltb s t

-- `.sort()`, by the names, which are distinct
abbrev pub insert_name : Text × FileType → Dict Text FileType → Dict Text FileType
insert_name e [] = e ∷ []
insert_name e (d ∷ ds) =
    let later = insert_name e ds in if text_ltb d.0 e.0 then d ∷ later else e ∷ d ∷ ds

unfoldable pub sort_names : Dict Text FileType → Dict Text FileType
sort_names [] = []
sort_names (e ∷ es) = insert_name e (sort_names es)

abbrev pub resolve_below : Text → List Root → Resolution
resolve_below v [] = outside v
resolve_below v (r ∷ roots) = ancestor v (sort_names (children v (r ∷ roots) []))

abbrev pub resolve_in : Text → List Root → Option Root → Resolution
resolve_in v roots (some r) = at_root v (r.host ++ drop (length r.vroot) v) r
resolve_in v roots none =
    resolve_below v (keep (λ r. inside r.vroot v && not (same r.vroot v)) roots)

abbrev pub by_vroot : Namespace → List Root
by_vroot n = longest_first (λ r. r.vroot) n.roots

unfoldable pub resolve : Namespace → Text → Resolution
resolve n v = resolve_in v (by_vroot n) (find (λ r. inside v r.vroot) (by_vroot n))

unfoldable pub root_for_real : Namespace → Text → Option Root
root_for_real n path = find (λ r. inside path r.real) (longest_first (λ r. r.real) n.roots)

abbrev pub virtual_by_host : Text → Option Root → Option Text
virtual_by_host path none = none
virtual_by_host path (some r) = some (r.vroot ++ drop (length r.host) path)

abbrev pub virtual_by_real : Namespace → Text → Option Root → Option Text
virtual_by_real n path (some r) = some (r.vroot ++ drop (length r.real) path)
virtual_by_real n path none =
    virtual_by_host path (find (λ r. inside path r.host) (longest_first (λ r. r.host) n.roots))

unfoldable pub to_virtual : Namespace → Text → Option Text
to_virtual n path = virtual_by_real n path (root_for_real n path)
