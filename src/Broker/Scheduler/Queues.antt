-- ===== src/Broker/Scheduler/Queues.antt =====
-- No task is lost, doubled or overtaken in its own queue: lib/fs-broker/scheduler.js.
use countinghouse.Prelude.{
  ℕ, zero, suc, ◌+◌, ◌≡◌, refl, ap, ◌∙◌, inl, inr, String, List, [], ◌∷◌, ◌++◌, arith, length, ltb,
  ◌==◌, string_eq, Bool-cases, if◌then◌else◌, append_assoc,
}
use countinghouse.Prelude.Dict.{get-put}
use countinghouse.Broker.Scheduler.{
  Scheduler, Started, start_with, start_one, turn, queue_of, also, pass, rounds, again, pump,
}

-- The tasks of one worker among those that were started, in order.
abbrev pub tasks_of : String → Started → List ℕ
tasks_of key [] = []
tasks_of key ((k, t) ∷ l) = if k == key then t ∷ tasks_of key l else tasks_of key l

-- What was started for the worker, and what is left in its queue, are the queue as it was.
abbrev Splits : String → List ℕ → Scheduler × Started → Type 0
Splits key q (s, started) = tasks_of key started ++ queue_of key s ≡ q

tasks_of-append :
    (key : String) (xs ys : Started) → tasks_of key (xs ++ ys) ≡ tasks_of key xs ++ tasks_of key ys
tasks_of-append key [] ys = refl
tasks_of-append key ((k, t) ∷ xs) ys = ground (arith, tasks_of-append key xs ys)

start_with-Splits :
    (key k : String) (q : List ℕ) (s : Scheduler)
    → queue_of k s ≡ q
    → Splits key (queue_of key s) (start_with k q s)
unfolding start_with
start_with-Splits key k [] s e = refl
start_with-Splits key k (t ∷ ts) s e =
    ground (arith, get-put k key ts s.queues, string_eq.beq_iff k key)

start_one-Splits : (key k : String) (s : Scheduler) → Splits key (queue_of key s) (start_one k s)
unfolding start_one
start_one-Splits key k s = start_with-Splits key k (queue_of k s) s refl

also-Splits :
    (key : String) (q : List ℕ) (started : Started) (r : Scheduler × Started) (mid : List ℕ)
    → Splits key mid r
    → tasks_of key started ++ mid ≡ q
    → Splits key q (also started r)
also-Splits key q started (s, more) mid h e =
    ap (λ x. x ++ queue_of key s) (tasks_of-append key started more)
    ∙ append_assoc (tasks_of key started) (tasks_of key more) (queue_of key s)
    ∙ ap (λ x. tasks_of key started ++ x) h
    ∙ e

turn-Splits :
    (key : String) (rest : Scheduler → Scheduler × Started) (keys : List String) (s : Scheduler)
    → ((t : Scheduler) → Splits key (queue_of key t) (rest t))
    → Splits key (queue_of key s) (turn rest keys s)
unfolding turn
turn-Splits key rest [] s ih = refl
turn-Splits key rest (k ∷ ks) s ih =
    let (s', started) = start_one k (record s { order = ks ++ k ∷ [] }) in
    also-Splits key (queue_of key s) started (rest s') (queue_of key s') (ih s')
      (start_one-Splits key k (record s { order = ks ++ k ∷ [] }))

pass-Splits : (key : String) (n : ℕ) (s : Scheduler) → Splits key (queue_of key s) (pass n s)
unfolding pass
pass-Splits key zero s = refl
pass-Splits key (suc n) s = elim (Bool-cases (ltb s.running s.global_cap)) [
  | inl room ↦ rw room (turn-Splits key (pass n) s.order s (pass-Splits key n))
  | inr full ↦ rw full refl
]

again-Splits :
    (key : String) (q : List ℕ) (p r : Scheduler × Started)
    → Splits key q p
    → Splits key (queue_of key p.0) r
    → Splits key q (again p.1 p.0 r)
again-Splits key q (s, []) r h k = h
again-Splits key q (s, t ∷ ts) r h k = also-Splits key q (t ∷ ts) r (queue_of key s) k h

rounds-Splits : (key : String) (n : ℕ) (s : Scheduler) → Splits key (queue_of key s) (rounds n s)
unfolding rounds
rounds-Splits key zero s = refl
rounds-Splits key (suc n) s = elim (Bool-cases (ltb s.running s.global_cap)) [
  | inl room ↦ rw room (
      again-Splits key (queue_of key s) (pass (length s.order) s)
        (rounds n (pass (length s.order) s).0) (pass-Splits key (length s.order) s)
        (rounds-Splits key n (pass (length s.order) s).0))
  | inr full ↦ rw full refl
]

-- `pump` starts a prefix of each worker's queue, in order, and leaves the rest of it.
pump-splits :
    (key : String) (s : Scheduler)
    → tasks_of key (pump s).1 ++ queue_of key (pump s).0 ≡ queue_of key s
unfolding pump
pump-splits key s = rounds-Splits key (s.global_cap + 1) s
