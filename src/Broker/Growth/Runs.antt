-- ===== src/Broker/Growth/Runs.antt =====
-- Any operations on a descriptor of lib/fs-broker/broker.js, and what the quota counts after them.
use countinghouse.Prelude.{ℕ, ◌<◌, ◌≡◌, Bool, false, List, [], ◌∷◌, Option, none, some}
use countinghouse.Broker.Quota.{Quota}
use countinghouse.Broker.Growth.{Os, Number, whole, Handle, write, ftruncate}

pub data Op : Type 0 where
  write_op : Option Number → (len : ℕ) → Op
  truncate_op : (len : Number) → Op

-- The operations on a descriptor, one after the other.
abbrev pub run : {File : Type 0} → Os File → List Op → Handle File → Handle File
run os [] h = h
run os (write_op position len ∷ ops) h = run os ops (write os position len h).0
run os (truncate_op len ∷ ops) h = run os ops (ftruncate os len h).0

-- A write of some bytes, at no position, or at a whole one of a descriptor that does not append; or a
-- truncation to a whole length.
abbrev pub IsPlain : Bool → Op → Type 0
IsPlain append (write_op none len) = 0 < len
IsPlain append (write_op (some (whole p)) len) = (0 < len) × (append ≡ false)
IsPlain append (write_op (some _) len) = ⊥
IsPlain append (truncate_op (whole len)) = Unit
IsPlain append (truncate_op _) = ⊥
