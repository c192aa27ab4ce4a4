-- ===== src/Permissions/Parse/Valid.antt =====
-- What parsing a declaration of lib/module-permissions.js keeps is valid, and what it drops is
-- reported.
use countinghouse.Prelude.{
  ℕ, zero, suc, ◌≤◌, ◌<◌, ◌≡◌, inl, inr, String, true, false, List, [], ◌∷◌, Option, none, some,
  arith, all, or_else, Bool-cases, All, ℕ_eq,
}
use countinghouse.Prelude.Text.{Text, text_eq}
use countinghouse.Permissions.{Access, FsGrant, NetGrant, LimitKey, Declared}
use countinghouse.Permissions.Narrow.{is_absolute}
use countinghouse.Permissions.Parse.{
  Field, absent, mistyped, given, Read, kept, refused, Reason, not_an_array, not_an_object, Problem,
  push_read, read_each, read_list, is_reserved, is_normalized, RawFs, read_path, read_access,
  parse_fs, is_host, is_port, RawNet, read_host, read_ports, parse_net, is_env_name, read_name,
  parse_env, RawLimit, read_limit, limits_of, parse_limits, RawDeclaration, parse_declaration,
  somes,
}

-- What is kept of an item satisfies `P`.
abbrev Keeps : {A : Type 0} → (A → Type 0) → Read A → Type 0
Keeps P (kept a) = P a
Keeps P (refused why) = Unit

module _ {A B : Type 0} (P : B → Type 0) (read : A → Read B) (ok : (a : A) → Keeps P (read a)) where
  push_read-Keeps :
      (i : ℕ) (r : Read B) (rest : List B × List Problem)
      → Keeps P r
      → All P rest.0
      → All P (push_read i r rest).0
  push_read-Keeps i (kept b) rest h k = (h, k)
  push_read-Keeps i (refused why) rest h k = k

  read_each-keeps : (i : ℕ) (xs : List A) → All P (read_each read i xs).0
  unfolding read_each
  read_each-keeps i [] = tt
  read_each-keeps i (x ∷ xs) =
      push_read-Keeps i (read x) (read_each read (suc i) xs) (ok x) (read_each-keeps (suc i) xs)

  read_list-keeps : (why : Reason) (xs : Field (List A)) → All P (read_list why read xs).0
  unfolding read_list
  read_list-keeps why absent = tt
  read_list-keeps why mistyped = tt
  read_list-keeps why (given xs) = read_each-keeps 0 xs

-- A path is absolute, normal and none of the module's own.
pub record IsValidFs (normalize : Text → Text) (g : FsGrant) : Type 0 where
  pub absolute : is_absolute g.path ≡ true
  pub normal : is_normalized normalize g.path ≡ true
  pub free : is_reserved g.path ≡ false

-- A port of a grant, if it names any.
abbrev pub ValidPorts : Option (List ℕ) → Type 0
ValidPorts none = Unit
ValidPorts (some ports) = All (λ p. (1 ≤ p) × (p ≤ 65535)) ports

abbrev pub IsValidNet : NetGrant → Type 0
IsValidNet g = (is_host g.host ≡ true) × ValidPorts g.ports

module _ (normalize : Text → Text) where
  read_access-Keeps :
      (p : Text) (access : Option Access)
      → is_absolute p ≡ true
      → is_normalized normalize p ≡ true
      → is_reserved p ≡ false
      → Keeps (IsValidFs normalize) (read_access p access)
  read_access-Keeps p none a n f = tt
  read_access-Keeps p (some x) a n f = record { absolute = a; normal = n; free = f }

  read_path-Keeps :
      (path : Option Text) (access : Option Access)
      → Keeps (IsValidFs normalize) (read_path normalize path access)
  read_path-Keeps none access = tt
  read_path-Keeps (some p) access = elim (Bool-cases (is_absolute p)) [
    | inr e ↦ rw e tt
    | inl a ↦ elim (Bool-cases (is_normalized normalize p)) [
      | inr e ↦ rw (a, e) tt
      | inl n ↦ elim (Bool-cases (is_reserved p)) [
        | inl e ↦ rw (a, n, e) tt
        | inr f ↦ rw (a, n, f) (read_access-Keeps p access a n f)
      ]
    ]
  ]

somes-valid :
    (ports : List (Option ℕ))
    → all is_port ports ≡ true
    → All (λ p. (1 ≤ p) × (p ≤ 65535)) (somes ports)
somes-valid [] h = tt
somes-valid (none ∷ ps) h = cc
somes-valid (some p ∷ ps) h = (ground arith, somes-valid ps (ground arith))

read_ports-Keeps :
    (host : Text) (ports : Field (List (Option ℕ)))
    → is_host host ≡ true
    → Keeps IsValidNet (read_ports host ports)
read_ports-Keeps host absent h = (h, tt)
read_ports-Keeps host mistyped h = tt
read_ports-Keeps host (given ports) h = elim (Bool-cases (all is_port ports)) [
  | inl e ↦ rw e (h, somes-valid ports e)
  | inr e ↦ rw e tt
]

read_host-Keeps :
    (lower : Text → Text) (host : Option Text) (ports : Field (List (Option ℕ)))
    → Keeps IsValidNet (read_host lower host ports)
read_host-Keeps lower none ports = tt
read_host-Keeps lower (some h) ports = elim (Bool-cases (is_host (lower h))) [
  | inl e ↦ rw e (read_ports-Keeps (lower h) ports e)
  | inr e ↦ rw e tt
]

abbrev pub IsValidName : String → Type 0
IsValidName n = is_env_name n ≡ true

read_name-Keeps : (name : Option String) → Keeps IsValidName (read_name name)
read_name-Keeps none = tt
read_name-Keeps (some n) = elim (Bool-cases (is_env_name n)) [ inl e ↦ rw e e | inr e ↦ rw e tt ]

abbrev IsValidLimit : LimitKey × ℕ → Type 0
IsValidLimit pair = 0 < pair.1

read_limit-Keeps :
    (key : Option LimitKey) (value : Option ℕ) → Keeps IsValidLimit (read_limit key value)
read_limit-Keeps none value = tt
read_limit-Keeps (some k) none = tt
read_limit-Keeps (some k) (some zero) = tt
read_limit-Keeps (some k) (some (suc n)) = omega arith

limits_of-positive :
    (pairs : List (LimitKey × ℕ)) (j : LimitKey)
    → All IsValidLimit pairs
    → 0 < or_else (limits_of pairs j) 1
unfolding limits_of
limits_of-positive [] j h = omega arith
limits_of-positive ((k, n) ∷ rest) j h = ground (arith, limits_of-positive rest j h.1, h.0)

parse_limits-positive :
    (raw : Field (List RawLimit)) (j : LimitKey) → 0 < or_else ((parse_limits raw).0 j) 1
unfolding parse_limits
parse_limits-positive raw j =
    limits_of-positive (read_list not_an_object (λ e. read_limit e.key e.value) raw).0 j (
      read_list-keeps IsValidLimit (λ e. read_limit e.key e.value)
        (λ e. read_limit-Keeps e.key e.value) not_an_object raw)

parse_fs-valid :
    (normalize : Text → Text) (raw : Field (List RawFs))
    → All (IsValidFs normalize) (parse_fs normalize raw).0
unfolding parse_fs
parse_fs-valid normalize raw =
    read_list-keeps (IsValidFs normalize) (λ e. read_path normalize e.path e.access)
      (λ e. read_path-Keeps normalize e.path e.access) not_an_array raw

parse_net-valid :
    (lower : Text → Text) (raw : Field (List RawNet)) → All IsValidNet (parse_net lower raw).0
unfolding parse_net
parse_net-valid lower raw =
    read_list-keeps IsValidNet (λ e. read_host lower e.host e.ports)
      (λ e. read_host-Keeps lower e.host e.ports) not_an_array raw

parse_env-valid : (raw : Field (List (Option String))) → All IsValidName (parse_env raw).0
unfolding parse_env
parse_env-valid raw = read_list-keeps IsValidName read_name read_name-Keeps not_an_array raw

pub record IsValid (lower normalize : Text → Text) (d : Declared) : Type 0 where
  pub fs : All (IsValidFs normalize) d.fs
  pub net : All IsValidNet d.net
  pub env : All IsValidName d.env
  pub limits : (k : LimitKey) → 0 < or_else (d.limits k) 1

-- Whatever a package declares, what parsing keeps is valid: every path is absolute, normalized and
-- not reserved, every host is a hostname or a wildcard of one and its ports are from 1 to 65535,
-- every environment name has the shape of one, and no limit is 0.
pub parse_declaration-IsValid :
    (lower normalize : Text → Text) (raw : Field RawDeclaration)
    → IsValid lower normalize (parse_declaration lower normalize raw).0
unfolding parse_declaration
parse_declaration-IsValid lower normalize absent = record {
  fs = tt;
  net = tt;
  env = tt;
  limits = λ k. omega arith;
}
parse_declaration-IsValid lower normalize mistyped = record {
  fs = tt;
  net = tt;
  env = tt;
  limits = λ k. omega arith;
}
parse_declaration-IsValid lower normalize (given raw) = record {
  fs = parse_fs-valid normalize raw.fs;
  net = parse_net-valid lower raw.net;
  env = parse_env-valid raw.env;
  limits = parse_limits-positive raw.limits;
}
