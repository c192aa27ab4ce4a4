-- ===== src/Broker/Growth.antt =====
-- lib/fs-broker/broker.js: the operations that make a file of /data or /tmp longer or shorter, with
-- the quota that counts them. A file on the host, and what the operating system does with it, are
-- parameters; the operations of one descriptor run in order (`serial`), so each is one step.
pub mod Tracked
pub mod Runs
pub mod Finite
use countinghouse.Prelude.{
  ℕ, zero, suc, ◌+◌, ◌-◌, ◌*◌, Bool, true, false, ◌&&◌, not, List, [], ◌∷◌, ◌++◌, Option, none,
  some, ltb, if◌then◌else◌,
}
use countinghouse.Prelude.Int.{ℤ, pos, negsuc, sub_ℕ}
use countinghouse.Broker.Quota.{Quota, Report, reserve, settle}

-- `MAX_IO`
abbrev pub max_io : ℕ
max_io = 16 * 1024 * 1024

-- A number as the caller gives it, which nothing checks: a whole number from 0, one below 0 (-1 is
-- `below 0`), or NaN. Fractions and infinities are left out.
pub data Number : Type 0 where
  whole below : ℕ → Number
  not_a_number : Number

-- `size` of `stat`, `write` of a handle (opened with O_APPEND or not) at a position, which is null
-- for the cursor's, and `truncate`. `none` and `false` are errors.
pub record Os (File : Type 0) : Type 0 where
  pub size : File → ℕ
  pub write : Bool → Option Number → ℕ → File → Option ℕ × File
  pub truncate : Number → File → Bool × File

-- An entry of the table of descriptors, with its file and the module's quota. `lost` is that the
-- quota's bytes are NaN, which they stay: then each test of them passes, and none is a crossing.
pub record Handle (File : Type 0) : Type 0 where
  pub file : File
  pub append : Bool
  pub counts : Bool
  pub pos_at : ℕ
  pub quota : Option Quota
  pub lost : Bool
  pub reports : List Report

pub data Result : Type 0 where
  wrote : ℕ → Result
  done invalid no_space failed : Result

-- The quota that counts a descriptor: none, one whose bytes are lost, or this one.
pub data Counting : Type 0 where
  not_counted no_longer : Counting
  by : Quota → Counting

abbrev pub counted_by : (lost : Bool) → Option Quota → Counting
counted_by l none = not_counted
counted_by true (some q) = no_longer
counted_by false (some q) = by q

module _ {File : Type 0} where
  abbrev pub with_quota : Quota × List Report → Handle File → Handle File
  with_quota (q, rs) h = record h { quota = some q; reports = h.reports ++ rs }

  -- The quota that counts the handle, if one does.
  abbrev pub counting : Handle File → Counting
  counting h = if h.counts then counted_by h.lost h.quota else not_counted

-- `Math.max(0, at + n - size)`, where `at` is no NaN
abbrev pub grown : Number → (n size : ℕ) → ℕ
grown (whole at) n size = at + n - size
grown (below k) n size = n - (size + suc k)
grown not_a_number n size = 0

module _ {File : Type 0} (os : Os File) where
  -- `at`
  abbrev pub start : Option Number → Handle File → Number
  start (some p) h = p
  start none h = whole (if h.append then os.size h.file else h.pos_at)

  -- `e.pos` afterwards; without a position `at` is whole.
  abbrev pub moved : Option Number → Number → ℕ → Handle File → ℕ
  moved none (whole at) n h = if h.append then at + n else h.pos_at + n
  moved _ at n h = h.pos_at

  abbrev pub write_done :
      Option Number
      → Quota
      → (at : Number) (size growth : ℕ) → Handle File
      → Option ℕ × File
      → Handle File × Result
  write_done position q at size growth h (none, f) =
      (with_quota (settle (pos growth) (pos 0) (pos 0) (pos 0) q) (record h { file = f }), failed)
  write_done position q at size growth h (some n, f) = (
    with_quota (settle (pos growth) (pos 0) (pos (grown at n size)) (pos 0) q)
        (record h { file = f; pos_at = moved position at n h }),
    wrote n,
  )

  abbrev pub write_reserved :
      Option Number
      → (len : ℕ) (at : Number) (size growth : ℕ) → Handle File
      → Option (Quota × List Report)
      → Handle File × Result
  write_reserved position len at size growth h none = (h, no_space)
  write_reserved position len at size growth h (some (q, rs)) =
      write_done position q at size growth (with_quota (q, rs) h)
        (os.write h.append position len h.file)

  abbrev pub write_uncounted : Option Number → Handle File → Option ℕ × File → Handle File × Result
  write_uncounted position h (none, f) = (record h { file = f }, failed)
  write_uncounted (some p) h (some n, f) = (record h { file = f }, wrote n)
  write_uncounted none h (some n, f) = (record h { file = f; pos_at = h.pos_at + n }, wrote n)

  -- With the quota's bytes lost.
  abbrev pub write_lost :
      Option Number → Number → Handle File → Option ℕ × File → Handle File × Result
  write_lost position at h (none, f) = (record h { file = f }, failed)
  write_lost position at h (some n, f) =
      (record h { file = f; pos_at = moved position at n h }, wrote n)

  abbrev pub write_counted : Option Number → Number → ℕ → Handle File → Quota → Handle File × Result
  write_counted position not_a_number len h q =
      write_lost position not_a_number (record h { lost = true })
        (os.write h.append position len h.file)
  write_counted position at len h q =
      let size = os.size h.file in
      let growth = grown at len size in
      write_reserved position len at size growth h (reserve (pos growth) (pos 0) q)

  abbrev pub write_with : Option Number → ℕ → Handle File → Counting → Handle File × Result
  write_with position len h not_counted =
      write_uncounted position h (os.write h.append position len h.file)
  write_with position len h no_longer =
      write_lost position (start position h) h (os.write h.append position len h.file)
  write_with position len h (by q) = write_counted position (start position h) len h q

  unfoldable pub write : Option Number → ℕ → Handle File → Handle File × Result
  write position len h =
      let run = write_with position len h (counting h) in
      if ltb max_io len then (h, invalid) else run

  -- `len - size`
  abbrev pub change : Number → (size : ℕ) → ℤ
  change (whole len) size = sub_ℕ len size
  change (below k) size = negsuc (size + k)
  change not_a_number size = pos 0

  abbrev pub truncate_done :
      Quota → (len : Number) (size growth : ℕ) → Handle File → Bool × File → Handle File × Result
  truncate_done q len size growth h (false, f) =
      (with_quota (settle (pos growth) (pos 0) (pos 0) (pos 0) q) (record h { file = f }), failed)
  truncate_done q len size growth h (true, f) = (
    with_quota (settle (pos growth) (pos 0) (change len size) (pos 0) q) (record h { file = f }),
    done,
  )

  abbrev pub truncate_reserved :
      (len : Number) (size growth : ℕ)
      → Handle File
      → Option (Quota × List Report)
      → Handle File × Result
  truncate_reserved len size growth h none = (h, no_space)
  truncate_reserved len size growth h (some (q, rs)) =
      truncate_done q len size growth (with_quota (q, rs) h) (os.truncate len h.file)

  abbrev pub truncate_uncounted : Handle File → Bool × File → Handle File × Result
  truncate_uncounted h (ok, f) = (record h { file = f }, if ok then done else failed)

  abbrev pub truncate_counted : Number → Handle File → Quota → Handle File × Result
  truncate_counted not_a_number h q =
      truncate_uncounted (record h { lost = true }) (os.truncate not_a_number h.file)
  truncate_counted len h q =
      let size = os.size h.file in
      let growth = grown len 0 size in
      truncate_reserved len size growth h (reserve (pos growth) (pos 0) q)

  abbrev pub ftruncate_with : Number → Handle File → Counting → Handle File × Result
  ftruncate_with len h not_counted = truncate_uncounted h (os.truncate len h.file)
  ftruncate_with len h no_longer = truncate_uncounted h (os.truncate len h.file)
  ftruncate_with len h (by q) = truncate_counted len h q

  -- A length that is not given is 0.
  unfoldable pub ftruncate : Number → Handle File → Handle File × Result
  ftruncate len h = ftruncate_with len h (counting h)

  -- The loop of `writeFile`: fuel, the bytes still to write, and whether all were written; an
  -- error leaves the loop.
  abbrev pub after_write :
      (ℕ → Handle File → Handle File × Result) → ℕ → Handle File × Result → Handle File × Result
  after_write rest left (h, wrote zero) = (h, done)
  after_write rest left (h, wrote (suc n)) = rest (left - suc n) h
  after_write rest left (h, r) = (h, r)

  unfoldable pub write_all : ℕ → ℕ → Handle File → Handle File × Result
  write_all fuel zero h = (h, done)
  write_all zero (suc left) h = (h, invalid)
  write_all (suc fuel) (suc left) h =
      after_write (λ l k. write_all fuel l k) (suc left) (write none (suc left) h)
