-- ===== src/Broker/RwLock.antt =====
-- lib/fs-broker/rwlock.js: one module's read/write lock. A request is named by a number; resolving
-- its promise is the return of that request in the list of those that a step granted.
pub mod Fairness
pub mod Exclusion
use countinghouse.Prelude.{
  ℕ, ◌+◌, ◌-◌, ◌<◌, Bool, true, false, ◌&&◌, not, List, [], ◌∷◌, ◌++◌, ltb, if◌then◌else◌,
}

pub record Request : Type 0 where
  pub id : ℕ
  pub exclusive : Bool

pub record RwLock : Type 0 where
  pub readers : ℕ
  pub writer : Bool
  pub queue : List Request

abbrev pub new_lock : RwLock
new_lock = record { readers = 0; writer = false; queue = [] }

abbrev pub lock_of : ℕ → Bool → List Request → RwLock
lock_of r w qs = record { readers = r; writer = w; queue = qs }

-- `this.queue.shift(); ... next.resolve()` before the rest of the loop.
abbrev pub granting : Request → RwLock × List Request → RwLock × List Request
granting q (l, granted) = (l, q ∷ granted)

-- The loop of `pump` over the queue: the new lock, and the requests that it granted, in order.
unfoldable pub pump_loop : ℕ → Bool → List Request → RwLock × List Request
pump_loop r w [] = (lock_of r w [], [])
pump_loop r true (q ∷ qs) = (lock_of r true (q ∷ qs), [])
pump_loop r false (q ∷ qs) =
    let rest = granting q (pump_loop (r + 1) false qs) in
    if q.exclusive
    then (if ltb 0 r then (lock_of r false (q ∷ qs), []) else (lock_of r true qs, q ∷ []))
    else rest

unfoldable pub pump : RwLock → RwLock × List Request
unfolding pump_loop
pump l = pump_loop l.readers l.writer l.queue

unfoldable pub acquire : Request → RwLock → RwLock × List Request
unfolding pump
acquire q l = pump (record l { queue = l.queue ++ q ∷ [] })

-- The first line of `release`. `readers--` is only made for a reader that holds the lock, so it
-- does not pass 0.
abbrev pub give_back : Bool → RwLock → RwLock
give_back true l = record l { writer = false }
give_back false l = record l { readers = l.readers - 1 }

unfoldable pub release : Bool → RwLock → RwLock × List Request
unfolding pump
release exclusive l = pump (give_back exclusive l)
