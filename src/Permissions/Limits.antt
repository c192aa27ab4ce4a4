-- ===== src/Permissions/Limits.antt =====
-- The limits of a module: `narrowLimits` of lib/module-permissions.js.
use countinghouse.Prelude.{ℕ, zero, suc, ◌≤◌, ◌<◌, Option, none, some, arith, min, or_else}
use countinghouse.Permissions.{LimitKey, heap_mb, Limits, default_limit}

-- `Number.isInteger(n) && n > 0` picks the value; a limit that is no integer is `none`.
abbrev pub positive : Option ℕ → Option ℕ
positive none = none
positive (some zero) = none
positive (some (suc n)) = some (suc n)

abbrev pub ceiling_of : ℕ → Option ℕ → Option ℕ → ℕ
ceiling_of default ceiling none = or_else ceiling default
ceiling_of default ceiling (some entry) = min (or_else ceiling default) entry

abbrev pub limit_of : Option ℕ → ℕ → ℕ
limit_of none ceiling = ceiling
limit_of (some requested) ceiling = min requested ceiling

unfoldable pub narrow_limits : Limits → Limits → Limits → LimitKey → ℕ
narrow_limits requested ceilings entry_limits k =
    limit_of (requested k)
      (ceiling_of (default_limit k) (positive (ceilings k)) (positive (entry_limits k)))

-- At most `o`, if it is there.
abbrev pub AtMost : ℕ → Option ℕ → Type 0
AtMost n none = Unit
AtMost n (some m) = n ≤ m

limit_of_lem :
    (default : ℕ) (requested ceiling entry : Option ℕ)
    → AtMost (limit_of requested (ceiling_of default ceiling entry)) requested
      × AtMost
          (limit_of requested (ceiling_of default ceiling entry))
          (some (or_else ceiling default))
      × AtMost (limit_of requested (ceiling_of default ceiling entry)) entry
limit_of_lem default none none none = omega arith
limit_of_lem default none none (some e) = omega arith
limit_of_lem default none (some c) none = omega arith
limit_of_lem default none (some c) (some e) = omega arith
limit_of_lem default (some n) none none = omega arith
limit_of_lem default (some n) none (some e) = omega arith
limit_of_lem default (some n) (some c) none = omega arith
limit_of_lem default (some n) (some c) (some e) = omega arith

limit_of_pos :
    (default : ℕ) (requested ceiling entry : Option ℕ)
    → 0 < default
    → 0 < or_else requested 1
    → 0 < limit_of requested (ceiling_of default (positive ceiling) (positive entry))
limit_of_pos default requested ceiling entry h k = ground arith

default_pos : (k : LimitKey) → 0 < default_limit k
default_pos heap_mb = omega arith
default_pos _ = omega arith

-- Where the module requests no limit of 0, a granted limit is at most what it requests, at most the
-- operator's ceiling (the default where none is set) and at most the limit of the module's policy
-- entry, each where it is given, and is not 0.
narrow_limits-bounds :
    (requested ceilings entry : Limits) (k : LimitKey)
    → 0 < or_else (requested k) 1
    → AtMost (narrow_limits requested ceilings entry k) (requested k)
      × (narrow_limits requested ceilings entry k
          ≤ or_else (positive (ceilings k)) (default_limit k))
      × AtMost (narrow_limits requested ceilings entry k) (positive (entry k))
      × (0 < narrow_limits requested ceilings entry k)
unfolding narrow_limits
narrow_limits-bounds requested ceilings entry k h =
    let (a, b, c) =
      limit_of_lem (default_limit k) (requested k) (positive (ceilings k)) (positive (entry k)) in
    (a, b, c, limit_of_pos (default_limit k) (requested k) (ceilings k) (entry k) (default_pos k) h)
