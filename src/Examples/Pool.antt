-- ===== src/Examples/Pool.antt =====
-- Two workers at a pool of two, lib/fs-broker/scheduler.js.
use countinghouse.Broker.Scheduler.{Scheduler, new_scheduler, submit, pump, enqueue, ensure}
use countinghouse.Broker.Scheduler.Bounds.{IsSound, Reach, start, next, submitting, pool-IsSound}
use countinghouse.Broker.Scheduler.Progress.{IsBusy, pump-IsBusy}

abbrev full : Scheduler
full = (submit "a" 3 (submit "b" 2 (submit "a" 1 (new_scheduler 2 2 8)).0).0).0

full-Reach : Reach 2 2 8 full
full-Reach = next (next (next start (submitting "a" 1)) (submitting "b" 2)) (submitting "a" 3)

pool-IsSound_example : IsSound full
pool-IsSound_example = pool-IsSound full-Reach

-- Before `pump`, with a task for each worker.
abbrev two_queued : Scheduler
two_queued = enqueue "b" 2 (ensure "b" (enqueue "a" 1 (ensure "a" (new_scheduler 1 2 8))))

pump-IsBusy_example : IsBusy (pump two_queued).0
pump-IsBusy_example = pump-IsBusy two_queued
