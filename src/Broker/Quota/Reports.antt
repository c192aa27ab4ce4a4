-- ===== src/Broker/Quota/Reports.antt =====
-- The threshold reports of lib/fs-broker/quota.js.
use mathlib.Core.Path.{subst}
use countinghouse.Prelude.{
  ℕ, ◌≡◌, Bool, true, false, not, ◌&&◌, List, [], ◌∷◌, ◌++◌, some, arith, if◌then◌else◌,
}
use countinghouse.Prelude.Int.{ℤ, ◌+ℤ◌}
use countinghouse.Broker.Quota.{
  Quota, Report, Resource, disk_mb, disk_entries, reached, cross, crossings, reserve, settle,
}

-- Every threshold is armed exactly while the usage is below it.
pub record IsArmed (q : Quota) : Type 0 where
  pub bytes_soft : q.bytes_armed.soft ≡ not (reached 3 q.bytes q.max_bytes)
  pub bytes_hard : q.bytes_armed.hard ≡ not (reached 4 q.bytes q.max_bytes)
  pub entries_soft : q.entries_armed.soft ≡ not (reached 3 q.entries q.max_entries)
  pub entries_hard : q.entries_armed.hard ≡ not (reached 4 q.entries q.max_entries)

-- The report of a threshold that the usage has passed upwards, and nothing otherwise.
abbrev pub risen : Resource → ℕ → ℤ → ℤ → ℕ → List Report
risen key t old new limit =
    if not (reached t old limit) && reached t new limit
    then record { resource = key; quarters = t; used = new; limit = limit } ∷ []
    else []

abbrev pub both_risen : Resource → ℤ → ℤ → ℕ → List Report
both_risen key old new limit = risen key 3 old new limit ++ risen key 4 old new limit

abbrev pub all_risen : Quota → Quota → List Report
all_risen q q' =
    both_risen disk_mb q.bytes q'.bytes q.max_bytes
    ++ both_risen disk_entries q.entries q'.entries q.max_entries

cross-armed :
    (key : Resource) (t : ℕ) (used : ℤ) (limit : ℕ) (a : Bool)
    → (cross key t used limit a).0 ≡ not (reached t used limit)
unfolding cross
cross-armed key t used limit true = ground arith
cross-armed key t used limit false = ground arith

cross-risen :
    (key : Resource) (t : ℕ) (old new : ℤ) (limit : ℕ) (a : Bool)
    → a ≡ not (reached t old limit)
    → (cross key t new limit a).1 ≡ risen key t old new limit
unfolding cross
cross-risen key t old new limit true h = ground arith
cross-risen key t old new limit false h = ground arith

crossings-IsArmed : (q : Quota) → IsArmed (crossings q).0
unfolding crossings
crossings-IsArmed q = record {
  bytes_soft = cross-armed disk_mb 3 q.bytes q.max_bytes q.bytes_armed.soft;
  bytes_hard = cross-armed disk_mb 4 q.bytes q.max_bytes q.bytes_armed.hard;
  entries_soft = cross-armed disk_entries 3 q.entries q.max_entries q.entries_armed.soft;
  entries_hard = cross-armed disk_entries 4 q.entries q.max_entries q.entries_armed.hard;
}

-- The reports of `crossings` after the counts have moved from those of `q`.
crossings-risen :
    (q : Quota) (bytes entries : ℤ)
    → IsArmed q
    → (crossings (record q { bytes = bytes; entries = entries })).1
      ≡ all_risen q (record q { bytes = bytes; entries = entries })
unfolding crossings
crossings-risen q bytes entries a = cc (
  cross-risen disk_mb 3 q.bytes bytes q.max_bytes q.bytes_armed.soft a.bytes_soft,
  cross-risen disk_mb 4 q.bytes bytes q.max_bytes q.bytes_armed.hard a.bytes_hard,
  cross-risen disk_entries 3 q.entries entries q.max_entries q.entries_armed.soft a.entries_soft,
  cross-risen disk_entries 4 q.entries entries q.max_entries q.entries_armed.hard a.entries_hard,
)

reserve-some :
    (b e : ℤ) (q : Quota) (r : Quota × List Report)
    → reserve b e q ≡ some r
    → crossings (record q { bytes = q.bytes +ℤ b; entries = q.entries +ℤ e }) ≡ r
unfolding reserve
reserve-some b e q r p = ground arith

-- From a state in which each threshold is armed exactly while the usage is below it, a reservation
-- that is not refused reports exactly the thresholds that it passes upwards, in order, and leaves a
-- state of the same kind.
reserve-reports :
    (b e : ℤ) (q q' : Quota) (rs : List Report)
    → IsArmed q
    → reserve b e q ≡ some (q', rs)
    → (rs ≡ all_risen q q') × IsArmed q'
unfolding crossings ◌+ℤ◌
reserve-reports b e q q' rs a p =
    subst (λ r. (r.1 ≡ all_risen q r.0) × IsArmed r.0) (reserve-some b e q (q', rs) p)
      (crossings-risen q (q.bytes +ℤ b) (q.entries +ℤ e) a, crossings-IsArmed _)

-- From a state in which each threshold is armed exactly while the usage is below it, settling
-- reports exactly the thresholds that it passes upwards, in order, and leaves a state of the same
-- kind.
settle-reports :
    (rb re ab ae : ℤ) (q : Quota)
    → IsArmed q
    → ((settle rb re ab ae q).1 ≡ all_risen q (settle rb re ab ae q).0)
      × IsArmed (settle rb re ab ae q).0
unfolding settle crossings ◌+ℤ◌
settle-reports rb re ab ae q a = (crossings-risen q _ _ a, crossings-IsArmed _)
