-- ===== src/Examples/Lock.antt =====
-- A reader and a writer at the lock of lib/fs-broker/rwlock.js.
use countinghouse.Prelude.{◌≡◌, refl, true, false, List, [], ◌∷◌, ◌++◌}
use countinghouse.Broker.RwLock.{Request, RwLock, acquire, release, pump, pump_loop}
use countinghouse.Broker.RwLock.Fairness.{pump-order, pump-IsPumped, IsPumped}
use countinghouse.Broker.RwLock.Exclusion.{
  System, fresh, after, arrive, leave, Reach, start, next, IsSound, lock-IsSound, idle-served,
}

abbrev reader : Request
reader = record { id = 1; exclusive = false }

abbrev writer : Request
writer = record { id = 2; exclusive = true }

abbrev arriving : Request → System → System
arriving q s = record (after s s.held (acquire q s.lock)) { arrived = s.arrived ++ q ∷ [] }

-- The reader holds the lock, and the writer waits.
abbrev waiting : System
waiting = arriving writer (arriving reader fresh)

waiting-Reach : Reach waiting
waiting-Reach = next (next start (arrive reader)) (arrive writer)

lock-IsSound_example : IsSound waiting
lock-IsSound_example = lock-IsSound waiting-Reach

-- The reader has left, and the writer holds the lock.
abbrev writing : System
writing = after waiting [] (release false waiting.lock)

writing-Reach : Reach writing
unfolding acquire pump_loop
writing-Reach = next waiting-Reach (leave [] [] reader refl)

abbrev no_one : List Request
no_one = []

abbrev quiet : System
quiet = after writing [] (release true writing.lock)

quiet-Reach : Reach quiet
unfolding acquire release pump_loop
quiet-Reach = next writing-Reach (leave [] [] writer refl)

idle-served_example : (quiet.lock.queue ≡ []) × (quiet.served ≡ quiet.arrived)
unfolding acquire release pump_loop
idle-served_example = idle-served quiet-Reach refl

abbrev free_lock : RwLock
free_lock = record { readers = 0; writer = false; queue = reader ∷ reader ∷ writer ∷ [] }

pump-order_example : (pump free_lock).1 ++ (pump free_lock).0.queue ≡ reader ∷ reader ∷ writer ∷ []
pump-order_example = pump-order free_lock

pump-IsPumped_example : IsPumped (pump free_lock).0
pump-IsPumped_example = pump-IsPumped free_lock
