-- ===== src/Permissions/Parse.antt =====
-- `parseFs`, `parseNet`, `parseEnv`, `parseLimits` and `parseDeclaration` of
-- lib/module-permissions.js. The problems are pushed in the order of the items; each is an item's
-- index and what is wrong with it.
pub mod Reported
pub mod Valid
use Prim.Native.Char.{Char, code}
use Prim.Native.String.{String}
use countinghouse.Prelude.{
  ℕ, suc, ◌==◌, ℕ_eq, Bool, true, false, ◌&&◌, ◌||◌, not, List, [], ◌∷◌, ◌++◌, Option, none, some,
  any, all, contains, leb, ltb, is_some, if◌then◌else◌,
}
use countinghouse.Prelude.Text.{Text, codes, same, text_eq, starts_with, ends_with, split}
use countinghouse.Permissions.{
  Access, FsGrant, NetGrant, LimitKey, heap_mb, external_mb, max_block_ms, disk_mb, disk_entries,
  Limits, Declared,
}
use countinghouse.Permissions.Hosts.{is_wildcard, rest_of}
use countinghouse.Permissions.Limits.{positive}
use countinghouse.Permissions.Narrow.{is_absolute, no_limits}

-- A member of the declaration: absent, of the wrong type, or there.
pub data Field {ℓ} (A : Type ℓ) : Type ℓ where
  absent mistyped : Field A
  given : A → Field A

pub data Reason : Type 0 where
  not_an_array not_an_object : Reason
  path_not_a_string path_not_absolute path_not_normalized path_reserved : Reason
  access_unknown : Reason
  host_invalid ports_invalid : Reason
  name_invalid : Reason
  limit_unknown limit_not_positive : Reason

pub record Problem : Type 0 where
  pub index : ℕ
  pub reason : Reason

-- What is read of an item: what is kept of it, or what is wrong with it.
pub data Read {ℓ} (A : Type ℓ) : Type ℓ where
  kept : A → Read A
  refused : Reason → Read A

abbrev pub push_read {ℓ} : {A : Type ℓ} → ℕ → Read A → List A × List Problem → List A × List Problem
push_read i (kept a) (out, problems) = (a ∷ out, problems)
push_read i (refused why) (out, problems) = (out, record { index = i; reason = why } ∷ problems)

-- `list.forEach`, from index `i` on
unfoldable pub read_each {ℓ κ} :
    {A : Type ℓ} {B : Type κ} → (A → Read B) → ℕ → List A → List B × List Problem
read_each read i [] = ([], [])
read_each read i (x ∷ xs) = push_read i (read x) (read_each read (suc i) xs)

unfoldable pub read_list {ℓ κ} :
    {A : Type ℓ} {B : Type κ} → Reason → (A → Read B) → Field (List A) → List B × List Problem
read_list why read absent = ([], [])
read_list why read mistyped = ([], record { index = 0; reason = why } ∷ [])
read_list why read (given xs) = read_each read 0 xs

abbrev pub is_at_or_under : Text → Text → Bool
is_at_or_under p root = same p root || starts_with (root ++ codes "/") p

abbrev pub reserved : List Text
reserved = codes "/app" ∷ codes "/data" ∷ codes "/tmp" ∷ []

unfoldable pub is_reserved : Text → Bool
is_reserved p = same p (codes "/") || any (is_at_or_under p) reserved

-- `p.length > 1`
abbrev pub is_longer_than_one : Text → Bool
is_longer_than_one (a ∷ b ∷ s) = true
is_longer_than_one _ = false

unfoldable pub is_normalized : (Text → Text) → Text → Bool
is_normalized normalize p = not (
    contains (codes "..") (split b'/' p)
    || not (same (normalize p) p)
    || is_longer_than_one p && ends_with b'/' p)

-- An item of `fs`: `none` for a path that is no string or an access that is no own key of
-- `ACCESS_RANK`.
pub record RawFs : Type 0 where
  pub path : Option Text
  pub access : Option Access

abbrev pub read_access : Text → Option Access → Read FsGrant
read_access p none = refused access_unknown
read_access p (some a) = kept (record { path = p; access = a })

abbrev pub read_path : (Text → Text) → Option Text → Option Access → Read FsGrant
read_path normalize none access = refused path_not_a_string
read_path normalize (some p) access =
    if not (is_absolute p)
    then refused path_not_absolute
    else if not (is_normalized normalize p)
    then refused path_not_normalized
    else if is_reserved p
    then refused path_reserved
    else read_access p access

unfoldable pub parse_fs : (Text → Text) → Field (List RawFs) → List FsGrant × List Problem
parse_fs normalize = read_list not_an_array (λ e. read_path normalize e.path e.access)

-- `[a-z0-9]`
abbrev pub is_alphanumeric : ℕ → Bool
is_alphanumeric c = leb b'a' c && leb c b'z' || leb b'0' c && leb c b'9'

-- `([a-z0-9-]*[a-z0-9])?`: letters, digits and dashes, the last no dash
abbrev pub is_label_tail : Text → Bool
is_label_tail [] = true
is_label_tail (c ∷ []) = is_alphanumeric c
is_label_tail (c ∷ d ∷ s) = (is_alphanumeric c || c == b'-') && is_label_tail (d ∷ s)

-- `LABEL`
abbrev pub is_host_label : Text → Bool
is_host_label [] = false
is_host_label (c ∷ s) = is_alphanumeric c && is_label_tail s

-- `HOST.test(host)`
unfoldable pub is_host : Text → Bool
is_host host =
    all is_host_label (split b'.' (if is_wildcard host then rest_of (rest_of host) else host))

-- A port that is no integer, or is negative, is `none`.
abbrev pub is_port : Option ℕ → Bool
is_port none = false
is_port (some p) = leb 1 p && leb p 65535

abbrev pub somes {ℓ} : {A : Type ℓ} → List (Option A) → List A
somes [] = []
somes (none ∷ xs) = somes xs
somes (some x ∷ xs) = x ∷ somes xs

-- An item of `net`: `none` for a host that is no string.
pub record RawNet : Type 0 where
  pub host : Option Text
  pub ports : Field (List (Option ℕ))

abbrev pub read_ports : Text → Field (List (Option ℕ)) → Read NetGrant
read_ports host absent = kept (record { host = host; ports = none })
read_ports host mistyped = refused ports_invalid
read_ports host (given ports) =
    if not (all is_port ports)
    then refused ports_invalid
    else kept (record { host = host; ports = some (somes ports) })

abbrev pub read_host : (Text → Text) → Option Text → Field (List (Option ℕ)) → Read NetGrant
read_host lower none ports = refused host_invalid
read_host lower (some h) ports =
    if not (is_host (lower h)) then refused host_invalid else read_ports (lower h) ports

unfoldable pub parse_net : (Text → Text) → Field (List RawNet) → List NetGrant × List Problem
parse_net lower = read_list not_an_array (λ e. read_host lower e.host e.ports)

-- `ENV_NAME.test(name)`
abbrev pub is_env_start : Char → Bool
is_env_start c = leb b'A' (code c) && leb (code c) b'Z' || code c == b'_'

abbrev pub is_env_rest : String → Bool
is_env_rest String.[] = true
is_env_rest (String.◌∷◌ c s) =
    (is_env_start c || leb b'0' (code c) && leb (code c) b'9') && is_env_rest s

unfoldable pub is_env_name : String → Bool
is_env_name String.[] = false
is_env_name (String.◌∷◌ c s) = is_env_start c && is_env_rest s

-- A name that is no string is `none`.
abbrev pub read_name : Option String → Read String
read_name none = refused name_invalid
read_name (some n) = if is_env_name n then kept n else refused name_invalid

unfoldable pub parse_env : Field (List (Option String)) → List String × List Problem
parse_env = read_list not_an_array read_name

-- A member of `limits`: `none` for a key that is no limit, and for a value that is no integer or is
-- negative.
pub record RawLimit : Type 0 where
  pub key : Option LimitKey
  pub value : Option ℕ

abbrev pub key_rank : LimitKey → ℕ
key_rank heap_mb = 0
key_rank external_mb = 1
key_rank max_block_ms = 2
key_rank disk_mb = 3
key_rank disk_entries = 4

abbrev pub read_value : LimitKey → Option ℕ → Read (LimitKey × ℕ)
read_value k none = refused limit_not_positive
read_value k (some n) = kept (k, n)

abbrev pub read_limit : Option LimitKey → Option ℕ → Read (LimitKey × ℕ)
read_limit none value = refused limit_unknown
read_limit (some k) value = read_value k (positive value)

-- `out[k] = obj[k]`, for the keys of an object, which are distinct
unfoldable pub limits_of : List (LimitKey × ℕ) → Limits
limits_of [] j = none
limits_of ((k, n) ∷ rest) j = if key_rank j == key_rank k then some n else limits_of rest j

unfoldable pub parse_limits : Field (List RawLimit) → Limits × List Problem
parse_limits raw =
    let (pairs, problems) = read_list not_an_object (λ e. read_limit e.key e.value) raw in
    (limits_of pairs, problems)

pub record RawDeclaration : Type 0 where
  pub fs : Field (List RawFs)
  pub net : Field (List RawNet)
  pub env : Field (List (Option String))
  pub limits : Field (List RawLimit)

abbrev pub nothing_declared : Declared
nothing_declared = record { fs = []; net = []; env = []; limits = no_limits }

module _ (lower normalize : Text → Text) where
  -- `absent` is a package without `countinghouse.permissions`.
  unfoldable pub parse_declaration : Field RawDeclaration → Declared × List Problem
  parse_declaration absent = (nothing_declared, [])
  parse_declaration mistyped = (nothing_declared, record { index = 0; reason = not_an_object } ∷ [])
  parse_declaration (given raw) =
      let (fs, fs_problems) = parse_fs normalize raw.fs in
      let (net, net_problems) = parse_net lower raw.net in
      let (env, env_problems) = parse_env raw.env in
      let (limits, limit_problems) = parse_limits raw.limits in
      (
        record { fs = fs; net = net; env = env; limits = limits },
        fs_problems ++ net_problems ++ env_problems ++ limit_problems,
      )
