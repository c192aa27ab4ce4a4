-- ===== src/Lifecycle.antt =====
-- lib/module-lifecycle.js: the lock of each module's name, a chain of promises, and the worker that
-- is tracked under the name. A task is a call of `run`; it may start when the promise that it follows
-- is settled. `settleAfterExit` and `boundedIdle` only join promises and a timer.
pub mod Chained
pub mod Turns
use countinghouse.Prelude.{
  ℕ, ◌+◌, String, string_eq, ℕ_eq, Bool, true, false, ◌&&◌, ◌||◌, not, List, [], ◌∷◌, Option, none,
  some, contains, if◌then◌else◌, ◌==◌,
}
use countinghouse.Prelude.Dict.{Dict, get, put, del}

pub data Status : Type 0 where
  waiting running done : Status

abbrev pub is_done : Status → Bool
is_done done = true
is_done _ = false

-- `after` is the task whose promise it follows.
pub record Task : Type 0 where
  pub id : ℕ
  pub name : String
  pub after : Option ℕ
  pub status : Status

-- The last task first; `chains` has the last task of a name.
pub record ModuleLifecycle : Type 0 where
  pub chains : Dict String ℕ
  pub tasks : List Task
  pub next : ℕ

unfoldable pub new_lifecycle : ModuleLifecycle
new_lifecycle = record { chains = []; tasks = []; next = 0 }

-- `run`
unfoldable pub run : String → ModuleLifecycle → ModuleLifecycle
run name l = record {
  chains = put name l.next l.chains;
  tasks =
      record { id = l.next; name = name; after = get name l.chains; status = waiting } ∷ l.tasks;
  next = l.next + 1;
}

abbrev pub is_done_in : ℕ → List Task → Bool
is_done_in id [] = true
is_done_in id (t ∷ ts) =
    let rest = is_done_in id ts in if t.id == id then is_done t.status else rest

-- Whether the promise that a task follows is settled.
abbrev pub prior_done : Option ℕ → List Task → Bool
prior_done none ts = true
prior_done (some id) ts = is_done_in id ts

abbrev pub started : Bool → Status → Status
started true waiting = running
started _ s = s

abbrev pub finished : Status → Status
finished running = done
finished s = s

-- A task's function is called, if it may be.
unfoldable pub start : ℕ → List Task → List Task
start id [] = []
start id (t ∷ ts) =
    let rest = start id ts in
    if t.id == id
    then record t { status = started (prior_done t.after ts) t.status } ∷ ts
    else t ∷ rest

-- A task's function has returned, or thrown.
unfoldable pub finish : ℕ → List Task → List Task
finish id [] = []
finish id (t ∷ ts) =
    let rest = finish id ts in
    if t.id == id then record t { status = finished t.status } ∷ ts else t ∷ rest

abbrev pub is_last : ℕ → Option ℕ → Bool
is_last id none = false
is_last id (some k) = k == id

-- What follows `tail`: the chain of the name is dropped, if the task is still its last.
unfoldable pub clean : ℕ → String → ModuleLifecycle → ModuleLifecycle
clean id name l =
    if is_done_in id l.tasks && is_last id (get name l.chains)
    then record l { chains = del name l.chains }
    else l

pub data Event : Type 0 where
  runs : String → Event
  starts finishes : ℕ → Event
  cleans : ℕ → String → Event

abbrev pub step : Event → ModuleLifecycle → ModuleLifecycle
step (runs name) l = run name l
step (starts id) l = record l { tasks = start id l.tasks }
step (finishes id) l = record l { tasks = finish id l.tasks }
step (cleans id name) l = clean id name l

-- The events, the last first.
abbrev pub after_events : List Event → ModuleLifecycle
after_events [] = new_lifecycle
after_events (e ∷ es) = step e (after_events es)

-- `entries`, by the numbers of the tracked workers, and those that have exited.
pub record Tracking : Type 0 where
  pub entries : Dict String ℕ
  pub exited : List ℕ

unfoldable pub track : String → ℕ → Tracking → Tracking
track name worker t = record t { entries = put name worker t.entries }

-- `entry.exited` and `entry.settled`
unfoldable pub worker_exited : ℕ → Tracking → Tracking
worker_exited worker t = record t { exited = worker ∷ t.exited }

unfoldable pub worker_settled : String → ℕ → Tracking → Tracking
worker_settled name worker t =
    if is_last worker (get name t.entries) then record t { entries = del name t.entries } else t

abbrev pub unless_exited : List ℕ → Option ℕ → Option ℕ
unless_exited exited none = none
unless_exited exited (some worker) = if contains worker exited then none else some worker

unfoldable pub live : String → Tracking → Option ℕ
live name t = unless_exited t.exited (get name t.entries)
