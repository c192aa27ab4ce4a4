-- ===== src/Broker/RwLock/Fairness.antt =====
-- The order in which lib/fs-broker/rwlock.js serves its requests, and that it serves all it can.
use countinghouse.Prelude.{ℕ, ◌+◌, ◌<◌, ◌≡◌, refl, Bool, true, false, List, [], ◌∷◌, ◌++◌, arith}
use countinghouse.Broker.RwLock.{Request, RwLock, pump_loop, pump}

-- The request at the head of the queue, if there is one, cannot be granted now: a writer holds the
-- lock, or the request is exclusive and readers hold it.
abbrev pub MustWait : ℕ → Bool → List Request → Type 0
MustWait r w [] = Unit
MustWait r true (q ∷ qs) = Unit
MustWait r false (q ∷ qs) = (q.exclusive ≡ true) × (0 < r)

abbrev pub IsPumped : RwLock → Type 0
IsPumped l = MustWait l.readers l.writer l.queue

pump_loop-order :
    (r : ℕ) (w : Bool) (qs : List Request) → (pump_loop r w qs).1 ++ (pump_loop r w qs).0.queue ≡ qs
unfolding pump_loop
pump_loop-order r w [] = refl
pump_loop-order r true (q ∷ qs) = refl
pump_loop-order r false (q ∷ qs) = ground (arith, pump_loop-order (r + 1) false qs)

pump_loop-IsPumped : (r : ℕ) (w : Bool) (qs : List Request) → IsPumped (pump_loop r w qs).0
unfolding pump_loop
pump_loop-IsPumped r w [] = tt
pump_loop-IsPumped r true (q ∷ qs) = tt
pump_loop-IsPumped r false (q ∷ qs) = ground (arith, pump_loop-IsPumped (r + 1) false qs)

-- `pump` grants a prefix of the queue and leaves the rest of it.
pub pump-order : (l : RwLock) → (pump l).1 ++ (pump l).0.queue ≡ l.queue
unfolding pump
pump-order l = pump_loop-order l.readers l.writer l.queue

pub pump-IsPumped : (l : RwLock) → IsPumped (pump l).0
unfolding pump
pump-IsPumped l = pump_loop-IsPumped l.readers l.writer l.queue
