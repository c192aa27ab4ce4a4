-- ===== src/Examples/Watching.antt =====
-- A worker that does not answer the watch of lib/worker-limits.js.
use countinghouse.Prelude.{ℕ, ◌+◌, ◌<◌, ◌≤◌, ◌⊎◌, refl, false, List, [], ◌∷◌, none, some, arith}
use countinghouse.WorkerLimits.{Ping, Watch}
use countinghouse.WorkerLimits.Blocked.{
  tick_all, latest, AreRegular, IsWaiting, IsTerminated, IsSpared, tick_all-IsJudged,
}

abbrev ping : Ping
ping = record { id = 0; since = 1000 }

abbrev watched : Watch
watched = record {
  interval_ms = 50;
  limits = record { max_block_ms = 100; external_mb = 64 };
  pending = some ping;
  last_tick = 1000;
  stopped = false;
  kill_reason = none;
  terminations = 0;
  pings = 1;
}

abbrev times : List ℕ
times = 1150 ∷ 1100 ∷ 1050 ∷ []

watched-IsWaiting : IsWaiting ping watched
watched-IsWaiting = record {
  pending = refl;
  live = refl;
  unkilled = refl;
  order = omega arith;
  within_limit = omega arith;
}

times-AreRegular : AreRegular times watched
times-AreRegular =
    (omega arith, omega arith, (omega arith, omega arith, (omega arith, omega arith, tt)))

tick_all-IsJudged_example :
    (ping.since + watched.limits.max_block_ms < latest times watched)
      × IsTerminated ping watched (tick_all times watched)
    ⊎ (latest times watched ≤ ping.since + watched.limits.max_block_ms)
      × IsSpared ping watched (tick_all times watched)
tick_all-IsJudged_example = tick_all-IsJudged ping watched times watched-IsWaiting times-AreRegular
