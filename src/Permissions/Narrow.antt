-- ===== src/Permissions/Narrow.antt =====
-- `narrow` and `resolveEnv` of lib/module-permissions.js, and that they only narrow.
use countinghouse.Prelude.{
  ℕ, String, Bool, true, false, ◌&&◌, ◌||◌, not, List, [], ◌∷◌, ◌++◌, Option, none, some, any, map,
  keep, contains, leb, string_eq, ℕ_eq, if◌then◌else◌, is_some,
}
use countinghouse.Prelude.Dict.{Dict, get, put, keys}
use countinghouse.Prelude.Text.{Text, codes, same, text_eq, starts_with, ends_with, split}
use countinghouse.Permissions.{Access, FsGrant, NetGrant, Limits, LimitKey, Declared, access_rank}
use countinghouse.Permissions.Hosts.{Wanted, narrow_net, narrow_host}
use countinghouse.Permissions.Limits.{narrow_limits}

-- An item of a policy's `fs`: `none` for a path that is no string or an access that is unknown.
pub record WantedFs : Type 0 where
  pub path : Option Text
  pub access : Option Access

-- `path.posix.isAbsolute`
abbrev pub is_absolute : Text → Bool
is_absolute p = starts_with (codes "/") p

unfoldable pub is_valid_policy_path : (Text → Text) → Text → Bool
is_valid_policy_path normalize p =
    is_absolute p
    && not (contains (codes "..") (split b'/' p))
    && same (normalize p) p
    && (same p (codes "/") || not (ends_with b'/' p))

-- `w.path === d.path || w.path.startsWith(d.path + '/')`
abbrev pub is_under : Text → Text → Bool
is_under wanted declared = same wanted declared || starts_with (declared ++ codes "/") wanted

unfoldable pub narrow_path :
    (Text → Text) → List FsGrant → Option Text → Option Access → Option FsGrant
unfolding is_valid_policy_path
narrow_path normalize declared (some p) (some a) =
    if is_valid_policy_path normalize p
      && any (λ d. is_under p d.path && leb (access_rank a) (access_rank d.access)) declared
    then some (record { path = p; access = a })
    else none
narrow_path normalize declared _ _ = none

-- What `ignored` is told of.
pub data Ignored : Type 0 where
  ignored_fs : WantedFs → Ignored
  ignored_net : Wanted → Ignored
  ignored_env : String → Ignored

abbrev pub sorted_in {ℓ κ} :
    {A : Type ℓ} {B : Type κ} → Option A → B → List A × List B → List A × List B
sorted_in (some a) b (out, ignored) = (a ∷ out, ignored)
sorted_in none b (out, ignored) = (out, b ∷ ignored)

unfoldable pub narrow_fs :
    (Text → Text) → List FsGrant → List WantedFs → List FsGrant × List Ignored
narrow_fs normalize declared [] = ([], [])
narrow_fs normalize declared (w ∷ ws) =
    sorted_in (narrow_path normalize declared w.path w.access) (ignored_fs w)
      (narrow_fs normalize declared ws)

-- The items of a policy's `net` that `narrowNet` ignores.
unfoldable pub unmet_net : (Text → Text) → List NetGrant → List Wanted → List Ignored
unmet_net lower declared ws =
    map ignored_net (keep (λ w. not (is_some (narrow_host lower declared w.host w.ports))) ws)

-- A module's entry in the policy. A value of `env` that is no string is `none`.
pub record Policy : Type 0 where
  pub as_declared : Bool
  pub fs : List WantedFs
  pub net : List Wanted
  pub env : Dict String (Option String)
  pub limits : Limits

pub record Granted : Type 0 where
  pub fs : List FsGrant
  pub net : List NetGrant
  pub env_names : List String
  pub env_overrides : Dict String String
  pub limits : LimitKey → ℕ
  pub ignored : List Ignored
  pub approved : Bool

-- The loop over `envEntry`: the overrides, and what is ignored.
unfoldable pub narrow_env :
    List String → Dict String (Option String) → Dict String String × List Ignored
narrow_env declared [] = ([], [])
narrow_env declared ((name, none) ∷ env) =
    let (out, ignored) = narrow_env declared env in
    if contains name declared then (out, ignored) else (out, ignored_env name ∷ ignored)
narrow_env declared ((name, some v) ∷ env) =
    let (out, ignored) = narrow_env declared env in
    if contains name declared then ((name, v) ∷ out, ignored) else (out, ignored_env name ∷ ignored)

abbrev pub no_limits : Limits
no_limits k = none

abbrev pub is_empty {ℓ} : {A : Type ℓ} → List A → Bool
is_empty [] = true
is_empty (x ∷ xs) = false

-- A declared grant that a policy does not narrow.
abbrev pub granted_as :
    Declared → Bool → Dict String String → (LimitKey → ℕ) → List Ignored → Bool → Granted
granted_as d grant overrides limits ignored approved = record {
  fs = if grant then d.fs else [];
  net = if grant then d.net else [];
  env_names = if grant then d.env else [];
  env_overrides = overrides;
  limits = limits;
  ignored = ignored;
  approved = approved;
}

module _ (lower normalize : Text → Text) where
  -- `none` is a module that the policy has no entry for.
  unfoldable pub narrow : Declared → Option Policy → Limits → Bool → Granted
  narrow d none ceilings enforce =
      granted_as d (not enforce) [] (narrow_limits d.limits ceilings no_limits) []
        (is_empty d.fs && is_empty d.net && is_empty d.env)
  narrow d (some entry) ceilings enforce =
      let (overrides, ignored) = narrow_env d.env entry.env in
      let limits = narrow_limits d.limits ceilings entry.limits in
      let (fs, ignored_paths) = narrow_fs normalize d.fs entry.fs in
      let narrowed : Granted = record {
        fs = fs;
        net = narrow_net lower d.net entry.net;
        env_names = keep (λ n. contains n d.env) (keys entry.env);
        env_overrides = overrides;
        limits = limits;
        ignored = ignored ++ ignored_paths ++ unmet_net lower d.net entry.net;
        approved = true;
      } in
      if entry.as_declared then granted_as d true overrides limits ignored true else narrowed

-- `resolveEnv`
abbrev pub resolved :
    Option String → Option String → String → Dict String String → Dict String String
resolved (some v) server name out = put name v out
resolved none (some v) name out = put name v out
resolved none none name out = out

unfoldable pub resolve_env :
    Dict String String → Dict String String → List String → Dict String String → Dict String String
resolve_env overrides server_env [] out = out
resolve_env overrides server_env (name ∷ names) out =
    resolve_env overrides server_env names
      (resolved (get name overrides) (get name server_env) name out)
