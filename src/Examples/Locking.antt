-- ===== src/Examples/Locking.antt =====
-- Three tasks of two modules under lib/module-lifecycle.js.
use countinghouse.Prelude.{List, [], ◌∷◌}
use countinghouse.Lifecycle.{Event, runs, starts, finishes, cleans, after_events}
use countinghouse.Lifecycle.Chained.{AreInTurn}
use countinghouse.Lifecycle.Turns.{after_events-AreInTurn}

abbrev events : List Event
events =
    starts 1
    ∷ cleans 0 "scan"
    ∷ finishes 0
    ∷ starts 1
    ∷ starts 2
    ∷ starts 0
    ∷ runs "mail"
    ∷ runs "scan"
    ∷ runs "scan"
    ∷ []

after_events-AreInTurn_example : AreInTurn (after_events events).tasks
after_events-AreInTurn_example = after_events-AreInTurn events
