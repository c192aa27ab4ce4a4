-- ===== src/Permissions/Safety.antt =====
-- A policy only narrows: what lib/module-permissions.js grants is within what the module declared.
use mathlib.Core.Path.{subst}
use countinghouse.Prelude.{
  ℕ, ◌≤◌, ◌≡◌, refl, sym, ◌⊎◌, inl, inr, String, Bool, true, false, ◌&&◌, List, [], ◌∷◌, ◌++◌,
  Option, none, some, arith, any, keep, contains, leb, string_eq, Bool-cases, All, Any, All-weaken,
  beq_refl,
}
use countinghouse.Prelude.Dict.{keys}
use countinghouse.Prelude.Text.{Text, codes, same, same_iff, starts_with, split, text_eq}
use countinghouse.Permissions.{Access, FsGrant, Limits, Declared, access_rank}
use countinghouse.Permissions.Hosts.{host_allowed, host_allowed-narrow_net}
use countinghouse.Permissions.Narrow.{
  WantedFs, is_valid_policy_path, is_under, narrow_path, narrow_fs, Policy, Granted, narrow,
  sorted_in, Ignored,
}

-- The path has no `..` in it, is absolute and is the one that normalizing it gives.
abbrev pub IsPlain : (Text → Text) → Text → Type 0
IsPlain normalize p =
    (contains (codes "..") (split b'/' p) ≡ false)
    × (starts_with (codes "/") p ≡ true)
    × (normalize p ≡ p)

-- A granted path is a declared one, or it is plain and equal to a declared one or under it; with no
-- more access than the declared one.
abbrev pub CoversPath : (Text → Text) → List FsGrant → FsGrant → Type 0
CoversPath normalize declared g =
    Any
      (λ d.
        ((g.path ≡ d.path)
          ⊎ IsPlain normalize g.path × (starts_with (d.path ++ codes "/") g.path ≡ true))
        × (access_rank g.access ≤ access_rank d.access))
      declared

covers_self : (normalize : Text → Text) (ds : List FsGrant) → All (CoversPath normalize ds) ds
covers_self normalize [] = tt
covers_self normalize (d ∷ ds) =
    (inl (inl refl, omega arith), All-weaken (λ g h. inr h) ds (covers_self normalize ds))

valid-IsPlain :
    (normalize : Text → Text) (p : Text)
    → is_valid_policy_path normalize p ≡ true
    → IsPlain normalize p
unfolding is_valid_policy_path
valid-IsPlain normalize p h =
    (ground (arith, h), ground (arith, h), (same_iff (normalize p) p).0 (ground (arith, h)))

under_sound :
    (wanted declared : Text)
    → is_under wanted declared ≡ true
    → (wanted ≡ declared) ⊎ (starts_with (declared ++ codes "/") wanted ≡ true)
under_sound wanted declared h = elim (Bool-cases (same wanted declared)) [
  | inl e ↦ inl ((same_iff wanted declared).0 e)
  | inr e ↦ inr (rw e at h)
]

under_or_IsPlain :
    (normalize : Text → Text) (p d : Text)
    → IsPlain normalize p
    → (p ≡ d) ⊎ (starts_with (d ++ codes "/") p ≡ true)
    → (p ≡ d) ⊎ IsPlain normalize p × (starts_with (d ++ codes "/") p ≡ true)
under_or_IsPlain normalize p d v (inl e) = inl e
under_or_IsPlain normalize p d v (inr e) = inr (v, e)

any_covers :
    (normalize : Text → Text) (p : Text) (a : Access) (ds : List FsGrant)
    → IsPlain normalize p
    → any (λ d. is_under p d.path && leb (access_rank a) (access_rank d.access)) ds ≡ true
    → CoversPath normalize ds (record { path = p; access = a })
any_covers normalize p a [] v h = cc h
any_covers normalize p a (d ∷ ds) v h =
    elim (Bool-cases (is_under p d.path && leb (access_rank a) (access_rank d.access))) [
      | inl here ↦ inl (
        under_or_IsPlain normalize p d.path v (under_sound p d.path (ground arith)),
        ground arith,
      )
      | inr later ↦ inr (any_covers normalize p a ds v (rw later at h))
    ]

module _ (normalize : Text → Text) (ds : List FsGrant) where
  narrow_path-covers :
      (path : Option Text) (access : Option Access) (w : Ignored)
      (rest : List FsGrant × List Ignored)
      → All (CoversPath normalize ds) rest.0
      → All (CoversPath normalize ds) (sorted_in (narrow_path normalize ds path access) w rest).0
  unfolding narrow_path
  narrow_path-covers none access w rest h = h
  narrow_path-covers (some p) none w rest h = h
  narrow_path-covers (some p) (some a) w rest h =
      elim (Bool-cases (
        is_valid_policy_path normalize p
        && any (λ d. is_under p d.path && leb (access_rank a) (access_rank d.access)) ds)) [
          | inl e ↦ rw e (
            any_covers normalize p a ds (valid-IsPlain normalize p (ground arith)) (ground arith),
            h,
          )
          | inr e ↦ rw e h
        ]

  narrow_fs-covers :
      (ws : List WantedFs) → All (CoversPath normalize ds) (narrow_fs normalize ds ws).0
  unfolding narrow_fs
  narrow_fs-covers [] = tt
  narrow_fs-covers (w ∷ ws) =
      narrow_path-covers w.path w.access _ (narrow_fs normalize ds ws) (narrow_fs-covers ws)

abbrev Declares : List String → String → Type 0
Declares env name = contains name env ≡ true

Declares-self : (env : List String) → All (Declares env) env
Declares-self [] = tt
Declares-self (n ∷ ns) =
    (ground (arith, beq_refl n), All-weaken (λ m h. ground arith) ns (Declares-self ns))

Declares-keep : (env names : List String) → All (Declares env) (keep (λ n. contains n env) names)
Declares-keep env [] = tt
Declares-keep env (n ∷ ns) = elim (Bool-cases (contains n env)) [
  | inl e ↦ rw e (e, Declares-keep env ns)
  | inr e ↦ rw e (Declares-keep env ns)
]

-- The grants are within the declaration: every path, every host and port, every variable.
pub record IsWithin (lower normalize : Text → Text) (d : Declared) (g : Granted) : Type 0 where
  pub paths : All (CoversPath normalize d.fs) g.fs
  pub hosts :
      (host : Text) (port : ℕ)
      → host_allowed lower g.net host port ≡ true
      → host_allowed lower d.net host port ≡ true
  pub variables : All (λ n. contains n d.env ≡ true) g.env_names

module _ (lower normalize : Text → Text) (d : Declared) where
  as_declared-IsWithin :
      (g : Granted)
      → g.fs ≡ d.fs
      → g.net ≡ d.net
      → g.env_names ≡ d.env
      → IsWithin lower normalize d g
  as_declared-IsWithin g e f h = record {
    paths = subst (All (CoversPath normalize d.fs)) (sym e) (covers_self normalize d.fs);
    hosts = λ host port k. subst (λ net. host_allowed lower net host port ≡ true) f k;
    variables = subst (All (Declares d.env)) (sym h) (Declares-self d.env);
  }

  -- Whatever the policy says, with an entry for the module or without, enforced or not, a module is
  -- granted only paths, hosts with ports and variables that it declared: each path is one that it
  -- declared, or a normalized one with no `..` under it, with no more access.
  pub narrow-IsWithin :
      (entry : Option Policy) (ceilings : Limits) (enforce : Bool)
      → IsWithin lower normalize d (narrow lower normalize d entry ceilings enforce)
  unfolding narrow
  narrow-IsWithin none ceilings true = record {
    paths = tt;
    hosts = λ host port h. unfold host_allowed in cc h;
    variables = tt;
  }
  narrow-IsWithin none ceilings false = as_declared-IsWithin _ refl refl refl
  narrow-IsWithin (some entry) ceilings enforce = elim (Bool-cases entry.as_declared) [
    | inl whole ↦ rw whole (as_declared-IsWithin _ refl refl refl)
    | inr part ↦ rw part (record {
      paths = narrow_fs-covers normalize d.fs entry.fs;
      hosts = host_allowed-narrow_net lower d.net entry.net;
      variables = Declares-keep d.env (keys entry.env);
    })
  ]

  -- Enforced and with no entry in the policy, a module is granted no path, no host and no variable.
  narrow-nothing :
      (ceilings : Limits)
      → ((narrow lower normalize d none ceilings true).fs ≡ [])
        × ((narrow lower normalize d none ceilings true).net ≡ [])
        × ((narrow lower normalize d none ceilings true).env_names ≡ [])
  unfolding narrow
  narrow-nothing ceilings = (refl, refl, refl)
