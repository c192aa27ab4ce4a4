-- ===== src/Broker/RwLock/Exclusion.antt =====
-- The lock of lib/fs-broker/rwlock.js with its holders, over every sequence of calls in which a
-- request is released only while it holds the lock.
use mathlib.Core.Path.{subst}
use countinghouse.Prelude.{
  ℕ, suc, ◌+◌, ◌≡◌, refl, ap, sym, ◌∙◌, ◌⊎◌, Bool, true, false, List, [], ◌∷◌, ◌++◌, arith,
  if◌then◌else◌, append_assoc, append-nil,
}
use countinghouse.Broker.RwLock.{
  Request, RwLock, new_lock, give_back, pump_loop, pump, acquire, release,
}
use countinghouse.Broker.RwLock.Fairness.{MustWait, IsPumped, pump-order, pump-IsPumped}

abbrev pub shared_count : List Request → ℕ
shared_count [] = 0
shared_count (q ∷ qs) = if q.exclusive then shared_count qs else suc (shared_count qs)

abbrev pub exclusive_count : List Request → ℕ
exclusive_count [] = 0
exclusive_count (q ∷ qs) = if q.exclusive then suc (exclusive_count qs) else exclusive_count qs

shared_count-append :
    (xs ys : List Request) → shared_count (xs ++ ys) ≡ shared_count xs + shared_count ys
shared_count-append [] ys = omega arith
shared_count-append (x ∷ xs) ys = ground (arith, shared_count-append xs ys)

exclusive_count-append :
    (xs ys : List Request) → exclusive_count (xs ++ ys) ≡ exclusive_count xs + exclusive_count ys
exclusive_count-append [] ys = omega arith
exclusive_count-append (x ∷ xs) ys = ground (arith, exclusive_count-append xs ys)

abbrev flag : Bool → ℕ
flag b = if b then 1 else 0

-- The counters agree with the holders, and a writer excludes the readers.
abbrev Fits : ℕ → Bool → ℕ → ℕ → Type 0
Fits r w shared alone =
    (r ≡ shared) × (flag w ≡ alone) × (r ≡ 0) ⊎ (r ≡ shared) × (w ≡ false) × (alone ≡ 0)

pump_loop-Fits :
    (r : ℕ) (w : Bool) (qs : List Request) (sh al : ℕ)
    → Fits r w sh al
    → Fits
        (pump_loop r w qs).0.readers
        (pump_loop r w qs).0.writer
        (sh + shared_count (pump_loop r w qs).1)
        (al + exclusive_count (pump_loop r w qs).1)
unfolding pump_loop
pump_loop-Fits r w [] sh al h = ground arith
pump_loop-Fits r true (q ∷ qs) sh al h = ground arith
pump_loop-Fits r false (q ∷ qs) sh al h =
    ground (arith, pump_loop-Fits (r + 1) false qs (sh + 1) al)

-- A lock, the requests that hold it, and all requests in the order in which they came and in which
-- they were granted.
pub record System : Type 0 where
  pub lock : RwLock
  pub held : List Request
  pub arrived : List Request
  pub served : List Request

abbrev pub fresh : System
fresh = record { lock = new_lock; held = []; arrived = []; served = [] }

abbrev pub after : System → List Request → RwLock × List Request → System
after s kept (l, granted) = record s {
  lock = l;
  held = kept ++ granted;
  served = s.served ++ granted;
}

-- The calls: `acquire`, and `release` by a holder of the lock.
pub data Step (s : System) : System → Type 0 where
  arrive :
      (q : Request)
      → Step s (record (after s s.held (acquire q s.lock)) { arrived = s.arrived ++ q ∷ [] })
  leave :
      (xs ys : List Request) (q : Request)
      → s.held ≡ xs ++ q ∷ ys
      → Step s (after s (xs ++ ys) (release q.exclusive s.lock))

pub data Reach : System → Type 0 where
  start : Reach fresh
  next : {s t : System} → Reach s → Step s t → Reach t

pub record IsSound (s : System) : Type 0 where
  pub fits : Fits s.lock.readers s.lock.writer (shared_count s.held) (exclusive_count s.held)
  pub pumped : IsPumped s.lock
  pub in_order : s.served ++ s.lock.queue ≡ s.arrived

pump-Fits :
    (l : RwLock) (sh al : ℕ)
    → Fits l.readers l.writer sh al
    → Fits
        (pump l).0.readers
        (pump l).0.writer
        (sh + shared_count (pump l).1)
        (al + exclusive_count (pump l).1)
unfolding pump
pump-Fits l sh al h = pump_loop-Fits l.readers l.writer l.queue sh al h

-- One `pump` with the kept holders: the counters fit the holders again, and nothing overtakes.
pump-IsSound :
    (s : System) (kept : List Request) (l : RwLock) (arrived : List Request)
    → Fits l.readers l.writer (shared_count kept) (exclusive_count kept)
    → s.served ++ l.queue ≡ arrived
    → IsSound (record (after s kept (pump l)) { arrived = arrived })
pump-IsSound s kept l arrived h e = record {
  fits = rw (shared_count-append, exclusive_count-append) (pump-Fits l _ _ h);
  pumped = pump-IsPumped l;
  in_order =
      append_assoc s.served (pump l).1 (pump l).0.queue
      ∙ ap (λ x. s.served ++ x) (pump-order l)
      ∙ e;
}

leave-Fits :
    (l : RwLock) (xs ys : List Request) (q : Request)
    → Fits l.readers l.writer (shared_count (xs ++ q ∷ ys)) (exclusive_count (xs ++ q ∷ ys))
    → Fits
        (give_back q.exclusive l).readers
        (give_back q.exclusive l).writer
        (shared_count (xs ++ ys))
        (exclusive_count (xs ++ ys))
leave-Fits l xs ys q h = ground (
  arith,
  shared_count-append xs (q ∷ ys),
  exclusive_count-append xs (q ∷ ys),
  shared_count-append xs ys,
  exclusive_count-append xs ys,
)

queue-give_back : (b : Bool) (l : RwLock) → (give_back b l).queue ≡ l.queue
queue-give_back true l = refl
queue-give_back false l = refl

Step-IsSound : {s t : System} → Step s t → IsSound s → IsSound t
unfolding acquire release
Step-IsSound {s} (arrive q) h =
    pump-IsSound s s.held (record s.lock { queue = s.lock.queue ++ q ∷ [] }) (s.arrived ++ q ∷ [])
      h.fits (sym (append_assoc s.served s.lock.queue (q ∷ [])) ∙ ap (λ x. x ++ q ∷ []) h.in_order)
Step-IsSound {s} (leave xs ys q e) h =
    pump-IsSound s (xs ++ ys) (give_back q.exclusive s.lock) s.arrived
      (leave-Fits s.lock xs ys q (
        subst (λ x. Fits s.lock.readers s.lock.writer (shared_count x) (exclusive_count x)) e
          h.fits))
      (ap (λ x. s.served ++ x) (queue-give_back q.exclusive s.lock) ∙ h.in_order)

-- In every reachable state the lock's counters agree with the holders, a writer excludes readers,
-- the requests were granted in their order of arrival with only the queue left over, and the head
-- of the queue, if any, cannot be granted.
pub lock-IsSound : {s : System} → Reach s → IsSound s
lock-IsSound start = record { fits = ground arith; pumped = tt; in_order = refl }
lock-IsSound (next r st) = Step-IsSound st (lock-IsSound r)

count_all : (xs : List Request) → shared_count xs + exclusive_count xs ≡ 0 → xs ≡ []
count_all [] h = refl
count_all (x ∷ xs) h = absurd (ground arith)

-- Mutual exclusion: in every reachable state, a request that holds the lock exclusively is its only
-- holder.
exclusive_alone :
    {s : System} (r : Reach s) (xs ys : List Request) (q : Request)
    → s.held ≡ xs ++ q ∷ ys
    → q.exclusive ≡ true
    → (xs ≡ []) × (ys ≡ [])
exclusive_alone {s} r xs ys q e h =
    let fits =
      subst (λ x. Fits s.lock.readers s.lock.writer (shared_count x) (exclusive_count x)) e
        (lock-IsSound r).fits in
    (
      count_all xs
          (ground (arith, shared_count-append xs (q ∷ ys), exclusive_count-append xs (q ∷ ys))),
      count_all ys
          (ground (arith, shared_count-append xs (q ∷ ys), exclusive_count-append xs (q ∷ ys))),
    )

idle_lock : (r : ℕ) (w : Bool) (qs : List Request) → Fits r w 0 0 → MustWait r w qs → qs ≡ []
idle_lock r w [] f p = refl
idle_lock r true (q ∷ qs) f p = absurd (ground arith)
idle_lock r false (q ∷ qs) f p = absurd (ground arith)

-- No deadlock: in every reachable state in which no request holds the lock, none waits for it, and
-- all that arrived have been served, in their order of arrival.
pub idle-served :
    {s : System} → Reach s → s.held ≡ [] → (s.lock.queue ≡ []) × (s.served ≡ s.arrived)
idle-served {s} r e =
    let sound = lock-IsSound r in
    let empty =
      idle_lock s.lock.readers s.lock.writer s.lock.queue
        (subst (λ x. Fits s.lock.readers s.lock.writer (shared_count x) (exclusive_count x)) e
          sound.fits)
        sound.pumped in
    (empty, sym (append-nil s.served) ∙ ap (λ x. s.served ++ x) (sym empty) ∙ sound.in_order)
