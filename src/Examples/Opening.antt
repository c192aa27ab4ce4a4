-- ===== src/Examples/Opening.antt =====
-- A file of /data opened for writing, by lib/fs-broker/broker.js.
use countinghouse.Prelude.{
  ℕ, ◌+◌, ◌<◌, ◌≡◌, List, ◌⊎◌, refl, true, [], ◌∷◌, none, some, length, ℕ_eq, ◌==◌, if◌then◌else◌,
}
use countinghouse.Prelude.Text.{Text, codes}
use countinghouse.Prelude.Dict.{get}
use countinghouse.Broker.Namespace.{
  keep_declared, clash, longest_first, insert_longest, inside, prepare, root_for_real,
}
use countinghouse.Broker.Place.{Want, enforce, Outcome, placed, State, found}
use countinghouse.Broker.Open.Flags.{Flag, flag_text, numeric_flags, trunc, creat, wronly}
use countinghouse.Broker.Open.{
  Answers, Opened, regular, want_of, FdEntry, Broker, open_file, begin_open, end_open,
  verify_opened,
}
use countinghouse.Broker.Open.Verified.{IsInside, open_file-IsInside}
use countinghouse.Broker.Open.UnderWay.{
  new_broker, Event, begins, Table, run, widest, end_open-IsNew,
}
use countinghouse.Examples.Placing.{namespace, state, landed}

-- `place` for `/data/x`.
abbrev at_x : Want → State → State × Outcome
at_x want s = (s, placed landed)

abbrev given : ℕ
given = 3

abbrev other : ℕ
other = 4

abbrev opened : Opened
opened = record { dev = 1; ino = 2; size = 0; type = regular; link = some (codes "/d/x") }

abbrev answers : Answers
answers = record {
  before = true;
  opened = some opened;
  parent_real = found (codes "/d");
  truncates = true;
  linux = true;
}

abbrev fresh : Broker
fresh = new_broker state none

abbrev after : Broker
after = (open_file at_x namespace enforce answers (flag_text (codes "w")) fresh).0

open_file-IsInside_example :
    (e : FdEntry) × (get 3 after.fds ≡ some e)
    × ((at_x (want_of (trunc ∷ creat ∷ wronly ∷ [])) fresh.state).1 ≡ placed e.at)
    × ((e.at.ident ≡ none)
        ⊎ (e.fh.link ≡ none)
        ⊎ ((link : Text) × (e.fh.link ≡ some link) × IsInside namespace e.at link))
unfolding open_file begin_open end_open numeric_flags verify_opened get prepare keep_declared clash
    longest_first insert_longest inside root_for_real
open_file-IsInside_example =
    open_file-IsInside namespace at_x answers (flag_text (codes "w")) (trunc ∷ creat ∷ wronly ∷ [])
      fresh after 3 refl refl refl refl

-- The opening has begun, and another one after it.
abbrev both_begun : List Event
both_begun = begins at_x (flag_text (codes "r")) ∷ begins at_x (flag_text (codes "w")) ∷ []

abbrev table : Table
table = run namespace enforce state none both_begun

abbrev written : List Flag
written = trunc ∷ creat ∷ wronly ∷ []

abbrev after_both : Broker
after_both = (end_open namespace enforce answers written landed table.broker).0

end_open-IsNew_example :
    (get given table.broker.fds ≡ none)
    × (length after_both.fds < 256 + widest namespace enforce state none both_begun)
    × ((e : FdEntry) × (get other after_both.fds
          ≡ (if given == other then some e else get other table.broker.fds)))
unfolding begin_open end_open numeric_flags verify_opened get prepare keep_declared clash
    longest_first insert_longest inside root_for_real
end_open-IsNew_example =
    end_open-IsNew namespace enforce state none both_begun 1 answers written landed
      (([], landed) ∷ []) table after_both given other refl refl refl
