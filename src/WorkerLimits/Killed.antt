-- ===== src/WorkerLimits/Killed.antt =====
-- The watch of lib/worker-limits.js terminates a worker at most once.
use countinghouse.Prelude.{
  ℕ, ◌+◌, ◌-◌, ◌*◌, ◌≡◌, refl, ◌⊎◌, inl, inr, Bool, true, ◌||◌, List, [], ◌∷◌, Option, none, some,
  arith, ltb, nat_eq, if-cases, if◌then◌else◌,
}
use countinghouse.WorkerLimits.{
  Limits, KillReason, Ping, Watch, blocked_event_loop, external_memory_limit, watch, kill,
  check_ping, tick, answer, pong, heap_statistics, stop, Event, ticks, pongs, heap_told, stops,
  step, run,
}

-- Not terminated, and no reason; or stopped, terminated once, for a reason.
abbrev pub IsOnce : Watch → Type 0
IsOnce w =
    ((w.terminations ≡ 0) × (w.kill_reason ≡ none))
    ⊎ ((w.stopped ≡ true) × (w.terminations ≡ 1) × ((r : KillReason) × (w.kill_reason ≡ some r)))

kill-IsOnce : (r : KillReason) (w : Watch) → IsOnce w → IsOnce (kill r w)
unfolding kill
kill-IsOnce r w h =
    let killed : Watch = record w {
      stopped = true;
      kill_reason = some r;
      terminations = w.terminations + 1;
    } in
    if-cases IsOnce w.stopped w killed (λ e. h)
      (λ e. elim h [
        | inl (none_yet, no_reason) ↦ inr (refl, omega (arith, none_yet), (r, refl))
        | inr (stopped, once, reason) ↦ cc
      ])

check_ping-IsOnce :
    (now : ℕ) (waits : Bool) (o : Option Ping) (w : Watch)
    → IsOnce w
    → IsOnce (check_ping now waits o w)
check_ping-IsOnce now waits none w h = h
check_ping-IsOnce now waits (some p) w h =
    let later : Watch = record w { pending = some (record p { since = now }) } in
    let killed = kill blocked_event_loop w in
    if-cases IsOnce waits later (if ltb w.limits.max_block_ms (now - p.since) then killed else w)
      (λ e. h)
      (λ e.
        if-cases IsOnce (ltb w.limits.max_block_ms (now - p.since)) killed w
          (λ e. kill-IsOnce blocked_event_loop w h) (λ e. h))

answer-IsOnce : (id : ℕ) (o : Option Ping) (w : Watch) → IsOnce w → IsOnce (answer id o w)
answer-IsOnce id none w h = h
answer-IsOnce id (some p) w h =
    if-cases IsOnce (nat_eq p.id id) (record w { pending = none }) w (λ e. h) (λ e. h)

step-IsOnce : (e : Event) (w : Watch) → IsOnce w → IsOnce (step e w)
unfolding tick pong heap_statistics stop
step-IsOnce (ticks now busy) w h =
    let w' : Watch = record w { last_tick = now } in
    let waits = ltb (2 * w.interval_ms) (now - w.last_tick) || busy in
    if-cases IsOnce w.stopped w (check_ping now waits w.pending w') (λ e. h)
      (λ e. check_ping-IsOnce now waits w.pending w' h)
step-IsOnce (pongs id) w h = answer-IsOnce id w.pending w h
step-IsOnce (heap_told m) w h =
    if-cases IsOnce (ltb (w.limits.external_mb * 1024 * 1024) m) (kill external_memory_limit w) w
      (λ e. kill-IsOnce external_memory_limit w h) (λ e. h)
step-IsOnce stops w (inl h) = inl h
step-IsOnce stops w (inr (stopped, once, reason)) = inr (refl, once, reason)

-- After any ticks, replies, heap statistics and stops, in any order, the worker has been terminated
-- once, with a reason, and the watch has stopped, or it has not been terminated and there is no
-- reason.
run-IsOnce :
    (limits : Limits) (interval : Option ℕ) (now : ℕ) (es : List Event)
    → IsOnce (run es (watch limits interval now))
unfolding watch
run-IsOnce limits interval now [] = inl (refl, refl)
run-IsOnce limits interval now (e ∷ es) =
    step-IsOnce e (run es (watch limits interval now)) (run-IsOnce limits interval now es)
