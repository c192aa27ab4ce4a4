-- ===== src/Examples/Restarts.antt =====
-- A module that crashes, under lib/module-supervisor.js.
use countinghouse.Prelude.{String, Bool, ◌+◌, ◌||◌, ◌==◌, string_eq, [], ◌∷◌, none, some, keep, leb}
use countinghouse.Prelude.Dict.{get}
use countinghouse.Supervisor.{
  Supervisor, new_supervisor, Specs, track, exited, fire, error_for_device,
}
use countinghouse.Supervisor.Policy.{exits_of, IsAfterExit, exited-IsAfterExit}
use countinghouse.Supervisor.Timers.{
  Reach, start, next, tracking, exiting, IsRightful, fire-IsRightful,
}
use countinghouse.Supervisor.Errors.{Answers, error_for_device-Answers}

abbrev specs : Specs
specs = ("device", "spec") ∷ []

abbrev tracked : Supervisor
tracked = track "scan" none (some "1.0.0") new_supervisor

abbrev crashed : Supervisor
crashed = (exited "scan" "crash" specs 5000 tracked).0

crashed-Reach : Reach crashed
crashed-Reach =
    next (next start (tracking "scan" none (some "1.0.0"))) (exiting "scan" "crash" specs 5000)

exited-IsAfterExit_example :
    IsAfterExit 9000 "scan" "crash" specs
      (keep (λ e. leb 9000 (e.at + 600000)) (exits_of (get "scan" crashed.records)))
      (exited "scan" "crash" specs 9000 crashed).0
      (exited "scan" "crash" specs 9000 crashed).1
exited-IsAfterExit_example = exited-IsAfterExit "scan" "crash" specs 9000 crashed

fire-IsRightful_example : IsRightful crashed (fire 0 crashed).1
fire-IsRightful_example = fire-IsRightful crashed-Reach 0

-- The names that a plain object inherits, two of them.
abbrev inherited : String → Bool
inherited d = d == "constructor" || d == "toString"

error_for_device-Answers_example :
    Answers inherited "device" crashed.records (error_for_device inherited "device" crashed)
error_for_device-Answers_example = error_for_device-Answers inherited "device" crashed
