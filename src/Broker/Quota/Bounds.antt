-- ===== src/Broker/Quota/Bounds.antt =====
-- The usage that lib/fs-broker/quota.js counts stays within the limits.
use countinghouse.Prelude.{ℕ, ◌≡◌, refl, true, false, List, some, arith}
use countinghouse.Prelude.Int.{ℤ, pos, ◌+ℤ◌, ◌-ℤ◌, ◌≤ℤ◌, +ℤ_parts, -ℤ_parts, int_laws}
use countinghouse.Broker.Quota.{Quota, Report, crossings, exceeds, reserve, clamp, settle}

pub record IsWithin (q : Quota) : Type 0 where
  pub bytes : q.bytes ≤ℤ pos q.max_bytes
  pub entries : q.entries ≤ℤ pos q.max_entries

pub record IsCounted (q : Quota) : Type 0 where
  pub bytes : pos 0 ≤ℤ q.bytes
  pub entries : pos 0 ≤ℤ q.entries

crossings-keeps :
    (q : Quota)
    → ((crossings q).0.bytes ≡ q.bytes)
      × ((crossings q).0.entries ≡ q.entries)
      × ((crossings q).0.max_bytes ≡ q.max_bytes)
      × ((crossings q).0.max_entries ≡ q.max_entries)
unfolding crossings
crossings-keeps q = (refl, refl, refl, refl)

exceeds-false :
    (n used : ℤ) (limit : ℕ)
    → exceeds n used limit ≡ false
    → used ≤ℤ pos limit
    → used +ℤ n ≤ℤ pos limit
exceeds-false n used limit h k = ground (arith, +ℤ_parts used n)

clamp_within :
    (used reserved actual : ℤ) (limit : ℕ)
    → actual ≤ℤ reserved
    → used ≤ℤ pos limit
    → clamp (used -ℤ reserved +ℤ actual) ≤ℤ pos limit
clamp_within used reserved actual limit h k =
    ground (arith, -ℤ_parts used reserved, +ℤ_parts (used -ℤ reserved) actual)

clamp_restores : (used n : ℤ) → pos 0 ≤ℤ used → clamp (used +ℤ n -ℤ n +ℤ pos 0) ≡ used
clamp_restores used n h =
    let same : used +ℤ n -ℤ n +ℤ pos 0 ≡ used = omega int_laws in rw same (ground arith)

-- Under enforcement, a reservation that is not refused leaves the counted bytes and entries within
-- their limits, if they were.
pub reserve-IsWithin :
    (b e : ℤ) (q q' : Quota) (rs : List Report)
    → q.enforce ≡ true
    → IsWithin q
    → reserve b e q ≡ some (q', rs)
    → IsWithin q'
unfolding reserve crossings
reserve-IsWithin b e q q' rs h w p =
    ground (arith, exceeds-false b q.bytes q.max_bytes, exceeds-false e q.entries q.max_entries)

-- Settling with at most what was reserved keeps the counts within their limits.
pub settle-IsWithin :
    (rb re ab ae : ℤ) (q : Quota)
    → ab ≤ℤ rb
    → ae ≤ℤ re
    → IsWithin q
    → IsWithin (settle rb re ab ae q).0
unfolding settle crossings
settle-IsWithin rb re ab ae q h k w = record {
  bytes = clamp_within q.bytes rb ab q.max_bytes h w.bytes;
  entries = clamp_within q.entries re ae q.max_entries k w.entries;
}

-- An operation that fails after its reservation and settles with nothing gives back exactly what it
-- reserved.
settle-reserve :
    (b e : ℤ) (q q' : Quota) (rs : List Report)
    → IsCounted q
    → reserve b e q ≡ some (q', rs)
    → ((settle b e (pos 0) (pos 0) q').0.bytes ≡ q.bytes)
      × ((settle b e (pos 0) (pos 0) q').0.entries ≡ q.entries)
unfolding reserve settle crossings
settle-reserve b e q q' rs c p =
    ground (arith, clamp_restores q.bytes b c.bytes, clamp_restores q.entries e c.entries)
