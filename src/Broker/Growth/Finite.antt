-- ===== src/Broker/Growth/Finite.antt =====
-- The loop of `writeFile` in lib/fs-broker/broker.js ends.
use countinghouse.Prelude.{
  ℕ, zero, suc, ◌≤◌, ◌-◌, ◌≡◌, ◌≢◌, true, false, List, Option, none, some, arith, ltb,
}
use countinghouse.Prelude.Int.{pos}
use countinghouse.Broker.Quota.{Quota, Report, reserve}
use countinghouse.Broker.Growth.{
  Os, Number, whole, below, not_a_number, Counting, not_counted, no_longer, by, grown, write_lost,
  write_counted, Handle, Result, wrote, done, invalid, no_space, failed, max_io, with_quota,
  counting, start, write_done, write_reserved, write_uncounted, write_with, write, after_write,
  write_all,
}

abbrev IsValid : Result → Type 0
IsValid invalid = ⊥
IsValid _ = Unit

module _ {File : Type 0} (os : Os File) where
  write_done-IsValid :
      (position : Option Number) (q : Quota) (at : Number) (size growth : ℕ) (h : Handle File)
      (w : Option ℕ × File)
      → IsValid (write_done os position q at size growth h w).1
  write_done-IsValid position q at size growth h (none, f) = tt
  write_done-IsValid position q at size growth h (some n, f) = tt

  write_reserved-IsValid :
      (position : Option Number) (len : ℕ) (at : Number) (size growth : ℕ) (h : Handle File)
      (r : Option (Quota × List Report))
      → IsValid (write_reserved os position len at size growth h r).1
  write_reserved-IsValid position len at size growth h none = tt
  write_reserved-IsValid position len at size growth h (some (q, rs)) =
      write_done-IsValid position q at size growth (with_quota (q, rs) h)
        (os.write h.append position len h.file)

  write_uncounted-IsValid :
      (position : Option Number) (h : Handle File) (w : Option ℕ × File)
      → IsValid (write_uncounted os position h w).1
  write_uncounted-IsValid position h (none, f) = tt
  write_uncounted-IsValid none h (some n, f) = tt
  write_uncounted-IsValid (some p) h (some n, f) = tt

  write_lost-IsValid :
      (position : Option Number) (at : Number) (h : Handle File) (w : Option ℕ × File)
      → IsValid (write_lost os position at h w).1
  write_lost-IsValid position at h (none, f) = tt
  write_lost-IsValid position at h (some n, f) = tt

  write_counted-IsValid :
      (position : Option Number) (at : Number) (len : ℕ) (h : Handle File) (q : Quota)
      → IsValid (write_counted os position at len h q).1
  write_counted-IsValid position not_a_number len h q =
      write_lost-IsValid position not_a_number (record h { lost = true })
        (os.write h.append position len h.file)
  write_counted-IsValid position (whole at) len h q =
      let size = os.size h.file in
      write_reserved-IsValid position len (whole at) size (grown (whole at) len size) h
        (reserve (pos (grown (whole at) len size)) (pos 0) q)
  write_counted-IsValid position (below k) len h q =
      let size = os.size h.file in
      write_reserved-IsValid position len (below k) size (grown (below k) len size) h
        (reserve (pos (grown (below k) len size)) (pos 0) q)

  write_with-IsValid :
      (position : Option Number) (len : ℕ) (h : Handle File) (c : Counting)
      → IsValid (write_with os position len h c).1
  write_with-IsValid position len h not_counted =
      write_uncounted-IsValid position h (os.write h.append position len h.file)
  write_with-IsValid position len h no_longer =
      write_lost-IsValid position (start os position h) h (os.write h.append position len h.file)
  write_with-IsValid position len h (by q) =
      write_counted-IsValid position (start os position h) len h q

  write-IsValid :
      (position : Option Number) (len : ℕ) (h : Handle File)
      → len ≤ max_io
      → IsValid (write os position len h).1
  unfolding write
  write-IsValid position len h small =
      let fits : ltb max_io len ≡ false = ground arith in
      rw fits (write_with-IsValid position len h (counting h))

  after_write-IsValid :
      (rest : ℕ → Handle File → Handle File × Result) (fuel left : ℕ) (w : Handle File × Result)
      → IsValid w.1
      → suc fuel ≤ max_io
      → left ≤ suc fuel
      → ((l : ℕ) (k : Handle File) → l ≤ fuel → IsValid (rest l k).1)
      → IsValid (after_write os rest left w).1
  after_write-IsValid rest fuel left (h, wrote zero) v small enough go = tt
  after_write-IsValid rest fuel left (h, wrote (suc n)) v small enough go =
      go (left - suc n) h (omega arith)
  after_write-IsValid rest fuel left (h, done) v small enough go = tt
  after_write-IsValid rest fuel left (h, invalid) v small enough go = absurd v
  after_write-IsValid rest fuel left (h, no_space) v small enough go = tt
  after_write-IsValid rest fuel left (h, failed) v small enough go = tt

  write_all-IsValid :
      (fuel left : ℕ) (h : Handle File)
      → fuel ≤ max_io
      → left ≤ fuel
      → IsValid (write_all os fuel left h).1
  unfolding write_all
  write_all-IsValid fuel zero h small enough = tt
  write_all-IsValid zero (suc left) h small enough = omega arith
  write_all-IsValid (suc fuel) (suc left) h small enough =
      after_write-IsValid (λ l k. write_all os fuel l k) fuel (suc left)
        (write os none (suc left) h) (write-IsValid none (suc left) h (omega arith)) small enough
        (λ l k e. write_all-IsValid fuel l k (omega arith) e)

  invalid-not : (r : Result) → IsValid r → r ≢ invalid
  invalid-not (wrote n) v e = cc
  invalid-not done v e = cc
  invalid-not invalid v e = absurd v
  invalid-not no_space v e = cc
  invalid-not failed v e = cc

  -- For a buffer of at most 16 MiB the loop of `writeFile` ends within as many rounds as the buffer
  -- has bytes, whatever the operating system answers, and no write of it is refused as too long.
  pub write_all-ends :
      (len : ℕ) (h : Handle File) → len ≤ max_io → (write_all os len len h).1 ≢ invalid
  write_all-ends len h small = invalid-not _ (write_all-IsValid len len h small (omega arith))
