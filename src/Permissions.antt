-- ===== src/Permissions.antt =====
-- lib/module-permissions.js: what a module declares that it needs, and how the operator's policy
-- narrows it. A value from JSON that the code tests for its type is an `Option`, `none` where the
-- test fails; `toLowerCase` and `path.posix.normalize` are parameters.
pub mod Hosts
pub mod Parse
pub mod Narrow
pub mod Limits
pub mod Safety
use countinghouse.Prelude.{ℕ, String, List, Option}
use countinghouse.Prelude.Text.{Text}

pub data Access : Type 0 where
  r rw : Access

pub record FsGrant : Type 0 where
  pub path : Text
  pub access : Access

pub record NetGrant : Type 0 where
  pub host : Text
  pub ports : Option (List ℕ)

-- The keys of `DEFAULT_LIMITS`.
pub data LimitKey : Type 0 where
  heap_mb external_mb max_block_ms disk_mb disk_entries : LimitKey

abbrev pub Limits : Type 0
Limits = LimitKey → Option ℕ

pub record Declared : Type 0 where
  pub fs : List FsGrant
  pub net : List NetGrant
  pub env : List String
  pub limits : Limits

-- `ACCESS_RANK`
abbrev pub access_rank : Access → ℕ
access_rank r = 1
access_rank rw = 2

abbrev pub default_limit : LimitKey → ℕ
default_limit heap_mb = 256
default_limit external_mb = 256
default_limit max_block_ms = 10000
default_limit disk_mb = 1024
default_limit disk_entries = 100000
