-- ===== src/Broker/Scheduler/Progress.antt =====
-- `pump` of lib/fs-broker/scheduler.js leaves no slot idle that a waiting task may take.
use mathlib.Core.Path.{subst}
use countinghouse.Prelude.{
  ℕ, zero, suc, ◌+◌, ◌≤◌, ◌<◌, ◌≡◌, refl, ap, sym, ◌∙◌, ◌⊎◌, inl, inr, String, true, List, [], ◌∷◌,
  ◌++◌, arith, length, ltb, All, Bool-cases, append_assoc, append-nil, length-append,
}
use countinghouse.Broker.Scheduler.{
  Scheduler, Started, start_with, start_one, turn, queue_of, active_of, waiting_others, also, again,
  pass, rounds, pump,
}

-- The worker has nothing to start: its queue is empty, or it has its share of the pool while
-- another worker waits.
abbrev pub IsServed : Scheduler → String → Type 0
IsServed s key =
    (queue_of key s ≡ []) ⊎ (s.per_worker ≤ active_of key s) × (waiting_others key s.queues ≡ true)

-- What a step started, it counts as running.
abbrev Counts : Scheduler → Scheduler × Started → Type 0
Counts s (s', started) = (s'.running ≡ s.running + length started) × (s'.global_cap ≡ s.global_cap)

start_with-idle :
    (k : String) (s : Scheduler) (q : List ℕ)
    → queue_of k s ≡ q
    → (start_with k q s).1 ≡ []
    → ((start_with k q s).0 ≡ s) × IsServed s k
unfolding start_with
start_with-idle k s [] e h = (refl, inl e)
start_with-idle k s (t ∷ ts) e h = ground arith

start_with-Counts : (k : String) (q : List ℕ) (s : Scheduler) → Counts s (start_with k q s)
unfolding start_with
start_with-Counts k [] s = ground arith
start_with-Counts k (t ∷ ts) s = ground arith

start_one-idle :
    (k : String) (s : Scheduler) → (start_one k s).1 ≡ [] → ((start_one k s).0 ≡ s) × IsServed s k
unfolding start_one
start_one-idle k s h = start_with-idle k s (queue_of k s) refl h

start_one-Counts : (k : String) (s : Scheduler) → Counts s (start_one k s)
unfolding start_one
start_one-Counts k s = start_with-Counts k (queue_of k s) s

also-idle :
    (started : Started) (r : Scheduler × Started)
    → (also started r).1 ≡ []
    → (started ≡ []) × (r.1 ≡ []) × ((also started r).0 ≡ r.0)
also-idle [] (s, []) h = (refl, refl, refl)
also-idle [] (s, t ∷ ts) h = cc
also-idle (t ∷ ts) (s, more) h = cc

module _ (rest : Scheduler → Scheduler × Started) where
  abbrev rotated : String → List String → Scheduler → Scheduler
  rotated k ks s = record s { order = ks ++ k ∷ [] }

  turn-idle :
      (k : String) (ks : List String) (s : Scheduler)
      → (turn rest (k ∷ ks) s).1 ≡ []
      → IsServed s k
        × ((rest (rotated k ks s)).1 ≡ [])
        × ((turn rest (k ∷ ks) s).0 ≡ (rest (rotated k ks s)).0)
  unfolding turn
  turn-idle k ks s h =
      let (s', started) = start_one k (rotated k ks s) in
      let (none_now, none_later, same) = also-idle started (rest s') h in
      let (unmoved, served) = start_one-idle k (rotated k ks s) none_now in
      (served, rw unmoved at none_later, same ∙ ap (λ t. (rest t).0) unmoved)

  turn-Counts :
      (keys : List String) (s : Scheduler)
      → ((t : Scheduler) → Counts t (rest t))
      → Counts s (turn rest keys s)
  unfolding turn
  turn-Counts [] s ih = ground arith
  turn-Counts (k ∷ ks) s ih =
      let (s', started) = start_one k (rotated k ks s) in
      ground (arith, start_one-Counts k (rotated k ks s), ih s', length-append started (rest s').1)

-- A pass over the first keys of the rotation that starts nothing: each of them is served, and they
-- have moved to its end.
pass-idle :
    (xs ys : List String) (s : Scheduler)
    → s.running < s.global_cap
    → s.order ≡ xs ++ ys
    → (pass (length xs) s).1 ≡ []
    → All (IsServed s) xs × ((pass (length xs) s).0 ≡ record s { order = ys ++ xs })
unfolding pass
pass-idle [] ys s room e h = (tt, ap (λ o. record s { order = o }) (e ∙ sym (append-nil ys)))
pass-idle (k ∷ xs) ys s room e h =
    let rest = pass (length xs) in
    let enter : ltb s.running s.global_cap ≡ true = ground arith in
    let went : pass (suc (length xs)) s ≡ turn rest (k ∷ xs ++ ys) s =
      rw enter (ap (λ o. turn rest o s) e) in
    let (served, idle, same) = turn-idle rest k (xs ++ ys) s (sym (ap (λ r. r.1) went) ∙ h) in
    let s' = rotated rest k (xs ++ ys) s in
    let (others, moved) = pass-idle xs (ys ++ k ∷ []) s' room (append_assoc xs ys (k ∷ [])) idle in
    (
      (served, others),
      ap (λ r. r.0) went
          ∙ same
          ∙ moved
          ∙ ap (λ o. record s { order = o }) (append_assoc ys (k ∷ []) xs),
    )

pass-Counts : (n : ℕ) (s : Scheduler) → Counts s (pass n s)
unfolding pass
pass-Counts zero s = ground arith
pass-Counts (suc n) s = ground (arith, turn-Counts (pass n) s.order s (pass-Counts n))

-- The pool is full, or every worker in the rotation is served.
abbrev pub IsBusy : Scheduler → Type 0
IsBusy s = (s.global_cap ≤ s.running) ⊎ All (IsServed s) s.order

again-IsBusy :
    (p r : Scheduler × Started)
    → (p.1 ≡ [] → IsBusy p.0)
    → (0 < length p.1 → IsBusy r.0)
    → IsBusy (again p.1 p.0 r).0
again-IsBusy (s, []) r f g = f refl
again-IsBusy (s, t ∷ ts) r f g = g (omega arith)

-- More fuel than slots are free is enough.
rounds-IsBusy : (n : ℕ) (s : Scheduler) → s.global_cap < s.running + n → IsBusy (rounds n s).0
unfolding rounds
rounds-IsBusy zero s h = inl (omega arith)
rounds-IsBusy (suc n) s h =
    let p = pass (length s.order) s in
    elim (Bool-cases (ltb s.running s.global_cap)) [
      | inl room ↦ rw room (
          again-IsBusy p (rounds n p.0)
            (λ idle.
              let (served, same) =
                pass-idle s.order [] s (ground arith) (sym (append-nil s.order)) idle in
              subst IsBusy (sym same) (inr served))
            (λ some_started. rounds-IsBusy n p.0 (omega (arith, pass-Counts (length s.order) s))))
      | inr full ↦ rw full (inl (ground arith))
    ]

-- `pump` is work-conserving: when it ends, the pool is full, or each worker in the rotation has an
-- empty queue, or has its share of the pool while another worker waits.
pub pump-IsBusy : (s : Scheduler) → IsBusy (pump s).0
unfolding pump
pump-IsBusy s = rounds-IsBusy (s.global_cap + 1) s (omega arith)
