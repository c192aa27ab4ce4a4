-- ===== src/WorkerLimits.antt =====
-- lib/worker-limits.js: the watch on a module's worker, which terminates one that blocks its event
-- loop or takes too much memory outside the heap. Times are in milliseconds; a ping is its number.
pub mod Killed
pub mod Blocked
use countinghouse.Prelude.{
  ℕ, ◌+◌, ◌-◌, ◌*◌, ◌/◌, min, max, Bool, true, false, ◌||◌, List, [], ◌∷◌, Option, none, some, ltb,
  nat_eq, if◌then◌else◌,
}

pub record Limits : Type 0 where
  pub max_block_ms : ℕ
  pub external_mb : ℕ

pub data KillReason : Type 0 where
  blocked_event_loop external_memory_limit : KillReason

-- The ping that waits for its reply.
pub record Ping : Type 0 where
  pub id : ℕ
  pub since : ℕ

-- `terminations` counts the calls of `terminate`, `pings` the pings that were sent.
pub record Watch : Type 0 where
  pub interval_ms : ℕ
  pub limits : Limits
  pub pending : Option Ping
  pub last_tick : ℕ
  pub stopped : Bool
  pub kill_reason : Option KillReason
  pub terminations : ℕ
  pub pings : ℕ

-- `opts.intervalMs`, or what the limit gives.
abbrev pub interval_of : Option ℕ → Limits → ℕ
interval_of (some ms) limits = ms
interval_of none limits = max 50 (min 1000 (limits.max_block_ms / 2))

unfoldable pub watch : Limits → Option ℕ → (now : ℕ) → Watch
watch limits interval now = record {
  interval_ms = interval_of interval limits;
  limits = limits;
  pending = none;
  last_tick = now;
  stopped = false;
  kill_reason = none;
  terminations = 0;
  pings = 0;
}

unfoldable pub kill : KillReason → Watch → Watch
kill reason w =
    if w.stopped
    then w
    else record w { stopped = true; kill_reason = some reason; terminations = w.terminations + 1 }

abbrev pub check_ping : (now : ℕ) → (waits : Bool) → Option Ping → Watch → Watch
check_ping now waits (some p) w =
    let later = record w { pending = some (record p { since = now }) } in
    let killed = kill blocked_event_loop w in
    if waits then later else if ltb w.limits.max_block_ms (now - p.since) then killed else w
check_ping now waits none w = record w {
  pending = some (record { id = w.pings; since = now });
  pings = w.pings + 1;
}

-- The callback of the interval; `busy` is what the option answers.
unfoldable pub tick : (now : ℕ) → (busy : Bool) → Watch → Watch
tick now busy w =
    let stalled = ltb (2 * w.interval_ms) (now - w.last_tick) in
    let checked = check_ping now (stalled || busy) w.pending (record w { last_tick = now }) in
    if w.stopped then w else checked

abbrev pub answer : ℕ → Option Ping → Watch → Watch
answer id none w = w
answer id (some p) w = if nat_eq p.id id then record w { pending = none } else w

-- The reply to a ping.
unfoldable pub pong : ℕ → Watch → Watch
pong id w = answer id w.pending w

-- The heap statistics that a tick has asked for.
unfoldable pub heap_statistics : (external_memory : ℕ) → Watch → Watch
heap_statistics external_memory w =
    let killed = kill external_memory_limit w in
    if ltb (w.limits.external_mb * 1024 * 1024) external_memory then killed else w

-- The worker's exit, and `stop`.
unfoldable pub stop : Watch → Watch
stop w = record w { stopped = true }

pub data Event : Type 0 where
  ticks : (now : ℕ) → (busy : Bool) → Event
  pongs : ℕ → Event
  heap_told : ℕ → Event
  stops : Event

abbrev pub step : Event → Watch → Watch
step (ticks now busy) w = tick now busy w
step (pongs id) w = pong id w
step (heap_told external_memory) w = heap_statistics external_memory w
step stops w = stop w

-- The events, the last first.
abbrev pub run : List Event → Watch → Watch
run [] w = w
run (e ∷ es) w = step e (run es w)
