-- ===== src/Examples/Sessions.antt =====
-- Calls through lib/session.js.
use countinghouse.Prelude.{ℕ, ◌≤◌, ◌≡◌, refl, ◌⊎◌, String, true, false, List, [], ◌∷◌, none, some}
use countinghouse.Prelude.Text.{codes}
use countinghouse.Session.{
  Session, new_session, callback, expire, Event, timer_set, device_answers, run,
}
use countinghouse.Session.Once.{replies, run-answers}
use countinghouse.Session.Metered.{IsPaid, run-IsPaid}

-- The device answers in time, and again.
abbrev answered : List (Event String String)
answered = device_answers none (some "bright") ∷ device_answers none (some "dim") ∷ timer_set ∷ []

abbrev waiting : List (Event String String)
waiting = timer_set ∷ []

abbrev asked : Session String String
asked = run true "late" waiting (new_session none false none)

run-answers_example :
    (replies asked.effects ≤ 1)
    × ((asked.called ≡ true)
        ⊎ (asked.timer ≡ none)
        ⊎ ((id : ℕ) × (asked.timer ≡ some id)
            × (replies (expire true "late" id asked).effects ≡ 1)
            × (replies (callback true none (some "dim") asked).effects ≡ 1)))
run-answers_example = run-answers true "late" waiting none false none none (some "dim") asked refl

run-IsPaid_example :
    IsPaid true false
      (codes "key")
      (codes "lamp")
      (run true "late" answered
        (new_session (some (codes "key")) false (some (codes "lamp")))).effects
run-IsPaid_example = run-IsPaid true false (codes "key") (codes "lamp") "late" answered
