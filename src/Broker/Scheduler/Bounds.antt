-- ===== src/Broker/Scheduler/Bounds.antt =====
-- The bounds that lib/fs-broker/scheduler.js keeps: the global cap, the count of the running tasks
-- of each worker, and the bound on each queue.
use countinghouse.Prelude.{
  ℕ, zero, suc, ◌+◌, ◌≤◌, ◌<◌, ◌≡◌, refl, inl, inr, String, List, [], ◌∷◌, ◌++◌, Option, none, some,
  arith, length, ltb, leb, ◌==◌, string_eq, or_else, All, Bool-cases, length-append,
}
use countinghouse.Prelude.Dict.{Dict, get, put, del}
use countinghouse.Broker.Scheduler.{
  Scheduler, Started, new_scheduler, start_with, start_one, turn, queue_of, active_of, pass, rounds,
  pump, ensure_for, ensure, enqueue, submit, forget, one_less, finished,
}

abbrev pub total : Dict String ℕ → ℕ
total [] = 0
total ((k, n) ∷ d) = n + total d

total-put :
    (k : String) (n : ℕ) (d : Dict String ℕ) → total (put k n d) + or_else (get k d) 0 ≡ total d + n
unfolding put get
total-put k n [] = omega arith
total-put k n ((j, m) ∷ d) = ground (arith, total-put k n d)

abbrev pub IsShort : ℕ → List ℕ → Type 0
IsShort cap q = length q ≤ cap

module _ (P : List ℕ → Type 0) where
  abbrev pub Each : Dict String (List ℕ) → Type 0
  Each d = All (λ e. P e.1) d

  Each-put : (k : String) (q : List ℕ) (d : Dict String (List ℕ)) → P q → Each d → Each (put k q d)
  unfolding put
  Each-put k q [] p h = (p, tt)
  Each-put k q ((j, w) ∷ d) p h = elim (Bool-cases (j == k)) [
    | inl e ↦ rw e (p, h.1)
    | inr e ↦ rw e (h.0, Each-put k q d p h.1)
  ]

  Each-del : (k : String) (d : Dict String (List ℕ)) → Each d → Each (del k d)
  unfolding del
  Each-del k [] h = tt
  Each-del k ((j, w) ∷ d) h = elim (Bool-cases (j == k)) [
    | inl e ↦ rw e (Each-del k d h.1)
    | inr e ↦ rw e (h.0, Each-del k d h.1)
  ]

  Each-get : (k : String) (d : Dict String (List ℕ)) → P [] → Each d → P (or_else (get k d) [])
  unfolding get
  Each-get k [] p h = p
  Each-get k ((j, w) ∷ d) p h = elim (Bool-cases (j == k)) [
    | inl e ↦ rw e h.0
    | inr e ↦ rw e (Each-get k d p h.1)
  ]

-- The running tasks are within the cap and are those counted for the workers, and no queue is
-- longer than its cap.
pub record IsSound (s : Scheduler) : Type 0 where
  pub capped : s.running ≤ s.global_cap
  pub balanced : total s.active ≡ s.running
  pub queued : Each (IsShort s.queue_cap) s.queues
  pub roomy : 0 < s.queue_cap

start_with-IsSound :
    (k : String) (q : List ℕ) (s : Scheduler)
    → s.running < s.global_cap
    → length q ≤ s.queue_cap
    → IsSound s
    → IsSound (start_with k q s).0
unfolding start_with
start_with-IsSound k [] s h p v = v
start_with-IsSound k (t ∷ ts) s h p v =
    ground (
      arith,
      total-put k (active_of k s + 1) s.active,
      Each-put (IsShort s.queue_cap) k ts s.queues,
    )

start_one-IsSound :
    (k : String) (s : Scheduler) → s.running < s.global_cap → IsSound s → IsSound (start_one k s).0
unfolding start_one
start_one-IsSound k s h v =
    start_with-IsSound k (queue_of k s) s h
      (Each-get (IsShort s.queue_cap) k s.queues (omega (arith, v.roomy)) v.queued) v

turn-IsSound :
    (rest : Scheduler → Scheduler × Started) (keys : List String) (s : Scheduler)
    → ((t : Scheduler) → IsSound t → IsSound (rest t).0)
    → s.running < s.global_cap
    → IsSound s
    → IsSound (turn rest keys s).0
unfolding turn
turn-IsSound rest [] s ih h v = v
turn-IsSound rest (k ∷ ks) s ih h v = ih _ (
    start_one-IsSound k _ h
      (record { capped = v.capped; balanced = v.balanced; queued = v.queued; roomy = v.roomy }))

pass-IsSound : (n : ℕ) (s : Scheduler) → IsSound s → IsSound (pass n s).0
unfolding pass
pass-IsSound zero s v = v
pass-IsSound (suc n) s v = elim (Bool-cases (ltb s.running s.global_cap)) [
  | inl room ↦ rw room (turn-IsSound (pass n) s.order s (pass-IsSound n) (ground arith) v)
  | inr full ↦ rw full v
]

rounds-IsSound : (n : ℕ) (s : Scheduler) → IsSound s → IsSound (rounds n s).0
unfolding rounds
rounds-IsSound zero s v = v
rounds-IsSound (suc n) s v =
    ground (arith, pass-IsSound (length s.order) s v, rounds-IsSound n (pass (length s.order) s).0)

pump-IsSound : (s : Scheduler) → IsSound s → IsSound (pump s).0
unfolding pump
pump-IsSound s v = rounds-IsSound (s.global_cap + 1) s v

ensure_for-IsSound :
    (found : Option (List ℕ)) (key : String) (s : Scheduler)
    → IsSound s
    → IsSound (ensure_for found key s)
ensure_for-IsSound (some q) key s v = v
ensure_for-IsSound none key s v = record {
  capped = v.capped;
  balanced = v.balanced;
  queued = Each-put (IsShort s.queue_cap) key [] s.queues (omega (arith, v.roomy)) v.queued;
  roomy = v.roomy;
}

queue_cap-ensure_for :
    (found : Option (List ℕ)) (key : String) (s : Scheduler)
    → (ensure_for found key s).queue_cap ≡ s.queue_cap
queue_cap-ensure_for (some q) key s = refl
queue_cap-ensure_for none key s = refl

enqueue-IsSound :
    (key : String) (t : ℕ) (s : Scheduler)
    → length (queue_of key s) < s.queue_cap
    → IsSound s
    → IsSound (enqueue key t s)
enqueue-IsSound key t s h v = record {
  capped = v.capped;
  balanced = v.balanced;
  queued =
      Each-put (IsShort s.queue_cap) key (queue_of key s ++ t ∷ []) s.queues
        (omega (arith, length-append (queue_of key s) (t ∷ []))) v.queued;
  roomy = v.roomy;
}

-- A submission, accepted or refused, keeps the bounds.
pub submit-IsSound : (key : String) (t : ℕ) (s : Scheduler) → IsSound s → IsSound (submit key t s).0
unfolding submit
submit-IsSound key t s v =
    let ready = ensure_for-IsSound (get key s.queues) key s v in
    elim (Bool-cases (leb s.queue_cap (length (queue_of key (ensure key s))))) [
      | inl full ↦ rw full ready
      | inr room ↦ rw room (
          pump-IsSound _ (
            enqueue-IsSound key t (ensure key s)
              (ground (arith, queue_cap-ensure_for (get key s.queues) key s)) ready))
    ]

-- Dropping a worker's queue keeps the bounds.
pub forget-IsSound : (key : String) (s : Scheduler) → IsSound s → IsSound (forget key s).0
unfolding forget
forget-IsSound key s v = record {
  capped = v.capped;
  balanced = v.balanced;
  queued = Each-del (IsShort s.queue_cap) key s.queues v.queued;
  roomy = v.roomy;
}

-- The end of a task that was started for the worker keeps the bounds.
pub finished-IsSound :
    (key : String) (s : Scheduler) → 0 < active_of key s → IsSound s → IsSound (finished key s).0
unfolding finished
finished-IsSound key s h v = pump-IsSound _ (record {
  capped = omega (arith, v.capped);
  balanced = ground (arith, total-put key (one_less (get key s.active)) s.active);
  queued = v.queued;
  roomy = v.roomy;
})

-- The events of the pool: the calls, and the end of a task that was started for its worker.
pub data Step (s : Scheduler) : Scheduler → Type 0 where
  submitting : (key : String) (t : ℕ) → Step s (submit key t s).0
  forgetting : (key : String) → Step s (forget key s).0
  finishing : (key : String) → 0 < active_of key s → Step s (finished key s).0

pub data Reach (cap share room : ℕ) : Scheduler → Type 0 where
  start : Reach cap share room (new_scheduler cap share room)
  next : {s t : Scheduler} → Reach cap share room s → Step s t → Reach cap share room t

-- In every reachable state the running tasks are within the global cap and are those counted for
-- the workers, and no queue is longer than its cap.
pub pool-IsSound : {cap share room : ℕ} {s : Scheduler} → Reach cap share room s → IsSound s
unfolding new_scheduler
pool-IsSound {room} start = record {
  capped = omega arith;
  balanced = refl;
  queued = tt;
  roomy = ground arith;
}
pool-IsSound (next r (submitting key t)) = submit-IsSound key t _ (pool-IsSound r)
pool-IsSound (next r (forgetting key)) = forget-IsSound key _ (pool-IsSound r)
pool-IsSound (next r (finishing key h)) = finished-IsSound key _ h (pool-IsSound r)
