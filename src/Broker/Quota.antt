-- ===== src/Broker/Quota.antt =====
-- lib/fs-broker/quota.js: the disk quota of a module, with its two thresholds. A threshold is in
-- quarters of the limit (3 for 0.75, 4 for 1), so that `used >= max * t` is a comparison of integers.
pub mod Bounds
pub mod Reports
use countinghouse.Prelude.{
  ℕ, ◌+◌, ◌*◌, Bool, true, false, ◌&&◌, ◌||◌, not, List, [], ◌∷◌, ◌++◌, Option, none, some, leb,
  if◌then◌else◌,
}
use countinghouse.Prelude.Int.{ℤ, pos, pos_part, neg_part, ◌+ℤ◌, ◌-ℤ◌, leb_ℤ}

pub data Resource : Type 0 where
  disk_mb disk_entries : Resource

-- What `reportFn` is called with.
pub record Report : Type 0 where
  pub resource : Resource
  pub quarters : ℕ
  pub used : ℤ
  pub limit : ℕ

-- `armed[key]`: its entries for 0.75 and for 1.
pub record Armed : Type 0 where
  pub soft : Bool
  pub hard : Bool

pub record Quota : Type 0 where
  pub max_bytes : ℕ
  pub max_entries : ℕ
  pub enforce : Bool
  pub bytes : ℤ
  pub entries : ℤ
  pub bytes_armed : Armed
  pub entries_armed : Armed

abbrev pub both_armed : Armed
both_armed = record { soft = true; hard = true }

unfoldable pub new_quota : ℕ → ℕ → Bool → ℤ → ℤ → Quota
new_quota max_bytes max_entries enforce bytes entries = record {
  max_bytes = max_bytes;
  max_entries = max_entries;
  enforce = enforce;
  bytes = bytes;
  entries = entries;
  bytes_armed = both_armed;
  entries_armed = both_armed;
}

-- `used >= max * t`
unfoldable pub reached : ℕ → ℤ → ℕ → Bool
reached quarters used limit = leb (quarters * limit + 4 * neg_part used) (4 * pos_part used)

-- One round of the inner loop of `crossings`: the new flag, and the reports.
unfoldable pub cross : Resource → ℕ → ℤ → ℕ → Bool → Bool × List Report
cross key t used limit true =
    if reached t used limit
    then (false, record { resource = key; quarters = t; used = used; limit = limit } ∷ [])
    else (true, [])
cross key t used limit false = if reached t used limit then (false, []) else (true, [])

cross_both : Resource → ℤ → ℕ → Armed → Armed × List Report
unfolding cross
cross_both key used limit a =
    let (soft, first) = cross key 3 used limit a.soft in
    let (hard, second) = cross key 4 used limit a.hard in
    (record { soft = soft; hard = hard }, first ++ second)

unfoldable pub crossings : Quota → Quota × List Report
unfolding cross_both
crossings q =
    let (bytes_armed, first) = cross_both disk_mb q.bytes q.max_bytes q.bytes_armed in
    let (entries_armed, second) = cross_both disk_entries q.entries q.max_entries q.entries_armed in
    (record q { bytes_armed = bytes_armed; entries_armed = entries_armed }, first ++ second)

-- `n > 0 && used + n > max`
abbrev pub exceeds : ℤ → ℤ → ℕ → Bool
exceeds n used limit = not (leb_ℤ n (pos 0)) && not (leb_ℤ (used +ℤ n) (pos limit))

-- `none` is the throw of ENOSPC.
unfoldable pub reserve : ℤ → ℤ → Quota → Option (Quota × List Report)
reserve bytes entries q =
    if (exceeds bytes q.bytes q.max_bytes || exceeds entries q.entries q.max_entries) && q.enforce
    then none
    else some (crossings (record q { bytes = q.bytes +ℤ bytes; entries = q.entries +ℤ entries }))

-- `Math.max(0, n)`
abbrev pub clamp : ℤ → ℤ
clamp n = if leb_ℤ (pos 0) n then n else pos 0

unfoldable pub settle : ℤ → ℤ → ℤ → ℤ → Quota → Quota × List Report
settle reserved_bytes reserved_entries actual_bytes actual_entries q = crossings (record q {
  bytes = clamp (q.bytes -ℤ reserved_bytes +ℤ actual_bytes);
  entries = clamp (q.entries -ℤ reserved_entries +ℤ actual_entries);
})
