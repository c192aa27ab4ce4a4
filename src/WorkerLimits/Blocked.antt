-- ===== src/WorkerLimits/Blocked.antt =====
-- How lib/worker-limits.js finds a worker that blocks: pings without replies.
use mathlib.Core.Path.{subst}
use countinghouse.Prelude.{
  ℕ, suc, ◌+◌, ◌-◌, ◌*◌, ◌≤◌, ◌<◌, ◌≡◌, refl, sym, ap, ◌⊎◌, inl, inr, true, false, ◌||◌, List, [],
  ◌∷◌, none, some, arith, ltb, if-cases,
}
use countinghouse.WorkerLimits.{Ping, Watch, blocked_event_loop, kill, check_ping, tick}

-- Ticks at these times, the last first; the worker is not busy.
abbrev pub tick_all : List ℕ → Watch → Watch
tick_all [] w = w
tick_all (now ∷ before) w = tick now false (tick_all before w)

-- The last tick, and no tick is late.
abbrev pub latest : List ℕ → Watch → ℕ
latest [] w = w.last_tick
latest (now ∷ before) w = now

abbrev pub AreRegular : List ℕ → Watch → Type 0
AreRegular [] w = Unit
AreRegular (now ∷ before) w =
    (latest before w ≤ now) × (now ≤ latest before w + 2 * w.interval_ms) × AreRegular before w

-- A ping has been pending since its time, and the limit is not passed.
pub record IsWaiting (p : Ping) (w : Watch) : Type 0 where
  pub pending : w.pending ≡ some p
  pub live : w.stopped ≡ false
  pub unkilled : w.kill_reason ≡ none
  pub order : p.since ≤ w.last_tick
  pub within_limit : w.last_tick ≤ p.since + w.limits.max_block_ms

module _ (p : Ping) (w : Watch) where
  record IsAlive (last : ℕ) (v : Watch) : Type 0 where
    waiting : IsWaiting p v
    ticked : v.last_tick ≡ last
    interval : v.interval_ms ≡ w.interval_ms
    limit : v.limits ≡ w.limits
    spared : v.terminations ≡ w.terminations

  record IsKilled (last : ℕ) (v : Watch) : Type 0 where
    late : p.since + w.limits.max_block_ms < last
    stopped : v.stopped ≡ true
    reason : v.kill_reason ≡ some blocked_event_loop
    once : v.terminations ≡ suc w.terminations

  abbrev IsSeen : ℕ → Watch → Type 0
  IsSeen last v = IsAlive last v ⊎ IsKilled last v

  kill-IsKilled :
      (v : Watch) (last : ℕ)
      → v.stopped ≡ false
      → v.terminations ≡ w.terminations
      → p.since + w.limits.max_block_ms < last
      → IsKilled last (kill blocked_event_loop v)
  unfolding kill
  kill-IsKilled v last live spared late =
      if-cases (IsKilled last) v.stopped v
        (record v {
          stopped = true;
          kill_reason = some blocked_event_loop;
          terminations = v.terminations + 1;
        })
        (λ e. cc)
        (λ e. record { late = late; stopped = refl; reason = refl; once = omega (arith, spared) })

  check-IsSeen :
      (last now : ℕ) (v : Watch)
      → IsAlive last v
      → last ≤ now
      → IsSeen now (check_ping now false (some p) (record v { last_tick = now }))
  check-IsSeen last now v a after =
      let v' : Watch = record v { last_tick = now } in
      let same : v.limits.max_block_ms ≡ w.limits.max_block_ms = ap (λ l. l.max_block_ms) a.limit in
      let order : p.since ≤ last = omega (arith, a.waiting.order, a.ticked) in
      if-cases (IsSeen now) (ltb v.limits.max_block_ms (now - p.since)) (kill blocked_event_loop v')
        v'
        (λ e.
          let late : p.since + w.limits.max_block_ms < now = ground (arith, same, order, e) in
          inr (kill-IsKilled v' now a.waiting.live a.spared late))
        (λ e. inl (record {
          waiting = record {
            pending = a.waiting.pending;
            live = a.waiting.live;
            unkilled = a.waiting.unkilled;
            order = omega (arith, order, after);
            within_limit = ground (arith, e, order, after);
          };
          ticked = refl;
          interval = a.interval;
          limit = a.limit;
          spared = a.spared;
        }))

  tick-IsSeen :
      (last now : ℕ) (v : Watch)
      → IsSeen last v
      → last ≤ now
      → now ≤ last + 2 * w.interval_ms
      → IsSeen now (tick now false v)
  unfolding tick
  tick-IsSeen last now v (inl a) after regular =
      let v' : Watch = record v { last_tick = now } in
      let on_time : (ltb (2 * v.interval_ms) (now - v.last_tick) || false) ≡ false =
        ground (arith, a.interval, a.ticked, regular, after) in
      let seen : IsSeen now
          (check_ping now (ltb (2 * v.interval_ms) (now - v.last_tick) || false) v.pending v') =
        subst (λ b. IsSeen now (check_ping now b v.pending v')) (sym on_time)
          (subst (λ o. IsSeen now (check_ping now false o v')) (sym a.waiting.pending)
            (check-IsSeen last now v a after)) in
      if-cases (IsSeen now) v.stopped v
        (check_ping now (ltb (2 * v.interval_ms) (now - v.last_tick) || false) v.pending v')
        (λ e. let live = a.waiting.live in cc) (λ e. seen)
  tick-IsSeen last now v (inr k) after regular =
      let killed : IsKilled now v = record {
        late = omega (arith, k.late, after);
        stopped = k.stopped;
        reason = k.reason;
        once = k.once;
      } in
      if-cases (IsSeen now) v.stopped v
        (check_ping now (ltb (2 * v.interval_ms) (now - v.last_tick) || false) v.pending
          (record v { last_tick = now }))
        (λ e. inr killed) (λ e. let stopped = k.stopped in cc)

  tick_all-IsSeen :
      (ts : List ℕ) → IsWaiting p w → AreRegular ts w → IsSeen (latest ts w) (tick_all ts w)
  tick_all-IsSeen [] h regular =
      inl (record { waiting = h; ticked = refl; interval = refl; limit = refl; spared = refl })
  tick_all-IsSeen (now ∷ ts) h (after, on_time, regular) =
      tick-IsSeen (latest ts w) now (tick_all ts w) (tick_all-IsSeen ts h regular) after on_time

  -- The worker has been terminated once more, for a blocked event loop, and the watch has stopped;
  -- or it has not been terminated, there is no reason, and the watch goes on.
  abbrev pub IsTerminated : Watch → Type 0
  IsTerminated v =
      (v.terminations ≡ suc w.terminations)
      × (v.kill_reason ≡ some blocked_event_loop)
      × (v.stopped ≡ true)

  abbrev pub IsSpared : Watch → Type 0
  IsSpared v = (v.terminations ≡ w.terminations) × (v.kill_reason ≡ none) × (v.stopped ≡ false)

  -- A ping is pending, and all that follows are ticks, with no reply, heap statistics or exit in
  -- between; they come no later than twice the interval, and the worker waits for no file call. If
  -- the last tick is more than the limit after the ping's time, `terminate` has been called once,
  -- for a blocked event loop, and the watch has stopped; if not, it has not been called, and the
  -- watch goes on.
  pub tick_all-IsJudged :
      (ts : List ℕ)
      → IsWaiting p w
      → AreRegular ts w
      → (p.since + w.limits.max_block_ms < latest ts w) × IsTerminated (tick_all ts w)
        ⊎ (latest ts w ≤ p.since + w.limits.max_block_ms) × IsSpared (tick_all ts w)
  tick_all-IsJudged ts h regular = elim (tick_all-IsSeen ts h regular) [
    | inl a ↦
        let same : (tick_all ts w).limits.max_block_ms ≡ w.limits.max_block_ms =
          ap (λ l. l.max_block_ms) a.limit in
        inr (
          omega (arith, a.waiting.within_limit, a.ticked, same),
          (a.spared, a.waiting.unkilled, a.waiting.live),
        )
    | inr k ↦ inl (k.late, (k.once, k.reason, k.stopped))
  ]
