-- ===== src/Broker/Scheduler.antt =====
-- lib/fs-broker/scheduler.js: the pool of brokered file operations. A task is named by a number;
-- starting it is its return in the list of those that a step started, and its end is the event
-- `finished`. The caps are those of the constructor, with its defaults put in.
pub mod Bounds
pub mod Queues
pub mod Progress
use countinghouse.Prelude.{
  ℕ, zero, suc, ◌+◌, ◌-◌, ◌*◌, ◌/◌, String, Bool, true, false, ◌&&◌, not, List, [], ◌∷◌, ◌++◌,
  Option, none, some, any, keep, length, ltb, leb, ◌==◌, string_eq, or_else, if◌then◌else◌,
}
use countinghouse.Prelude.Dict.{Dict, get, put, del}

pub record Scheduler : Type 0 where
  pub global_cap : ℕ
  pub per_worker : ℕ
  pub queue_cap : ℕ
  pub queues : Dict String (List ℕ)
  pub active : Dict String ℕ
  pub running : ℕ
  pub order : List String

-- `Math.max(1, Math.floor(size * 3 / 4))`, for a size that is a number
unfoldable pub cap_for : ℕ → ℕ
cap_for size = if leb 1 (size * 3 / 4) then size * 3 / 4 else 1

-- `opts.n || d`
abbrev pub or_default : ℕ → ℕ → ℕ
or_default zero d = d
or_default (suc n) d = suc n

unfoldable pub new_scheduler : ℕ → ℕ → ℕ → Scheduler
new_scheduler global_cap per_worker queue_cap = record {
  global_cap = global_cap;
  per_worker = or_default per_worker 2;
  queue_cap = or_default queue_cap 4096;
  queues = [];
  active = [];
  running = 0;
  order = [];
}

abbrev pub Started : Type 0
Started = List (String × ℕ)

abbrev pub is_waiting : List ℕ → Bool
is_waiting [] = false
is_waiting (t ∷ ts) = true

unfoldable pub waiting_others : String → Dict String (List ℕ) → Bool
waiting_others key queues = any (λ e. not (e.0 == key) && is_waiting e.1) queues

abbrev pub queue_of : String → Scheduler → List ℕ
queue_of key s = or_else (get key s.queues) []

abbrev pub active_of : String → Scheduler → ℕ
active_of key s = or_else (get key s.active) 0

-- The body of the inner loop of `pump` for the key at the front, after the rotation.
start_with : String → List ℕ → Scheduler → Scheduler × Started
start_with key [] s = (s, [])
start_with key (t ∷ ts) s =
    if leb s.per_worker (active_of key s) && waiting_others key s.queues then (s, []) else (
      record s {
        queues = put key ts s.queues;
        active = put key (active_of key s + 1) s.active;
        running = s.running + 1;
      },
      (key, t) ∷ [],
    )

unfoldable pub start_one : String → Scheduler → Scheduler × Started
unfolding start_with
start_one key s = start_with key (queue_of key s) s

abbrev pub also : Started → Scheduler × Started → Scheduler × Started
also started (s, more) = (s, started ++ more)

-- A round of the inner loop of `pump`, for the keys in rotation, with the rounds that follow it.
turn : (Scheduler → Scheduler × Started) → List String → Scheduler → Scheduler × Started
turn rest [] s = (s, [])
turn rest (key ∷ keys) s =
    let (s', started) = start_one key (record s { order = keys ++ key ∷ [] }) in
    also started (rest s')

-- The inner loop of `pump`, for the rounds that are left of `order.length`.
unfoldable pub pass : ℕ → Scheduler → Scheduler × Started
unfolding turn
pass zero s = (s, [])
pass (suc n) s =
    let next = turn (pass n) s.order s in if ltb s.running s.global_cap then next else (s, [])

abbrev again : Started → Scheduler → Scheduler × Started → Scheduler × Started
again [] s rest = (s, [])
again (t ∷ ts) s rest = also (t ∷ ts) rest

-- The outer loop of `pump`: it goes round while the inner loop starts something. Each round that
-- does makes `running` larger, so `global_cap + 1` rounds are enough.
unfoldable pub rounds : ℕ → Scheduler → Scheduler × Started
rounds zero s = (s, [])
rounds (suc fuel) s =
    let (s', started) = pass (length s.order) s in
    let next = again started s' (rounds fuel s') in
    if ltb s.running s.global_cap then next else (s, [])

unfoldable pub pump : Scheduler → Scheduler × Started
pump s = rounds (s.global_cap + 1) s

-- `submit`'s first two lines: a key that has no queue gets one, at the end of the rotation.
abbrev pub ensure_for : Option (List ℕ) → String → Scheduler → Scheduler
ensure_for (some q) key s = s
ensure_for none key s = record s { queues = put key [] s.queues; order = s.order ++ key ∷ [] }

abbrev pub ensure : String → Scheduler → Scheduler
ensure key s = ensure_for (get key s.queues) key s

-- `q.push(...)`
abbrev pub enqueue : String → ℕ → Scheduler → Scheduler
enqueue key task s = record s { queues = put key (queue_of key s ++ task ∷ []) s.queues }

-- `none` is the rejection with EMFILE, beside the state that it leaves.
unfoldable pub submit : String → ℕ → Scheduler → Scheduler × Option Started
submit key task s =
    let s' = ensure key s in
    let (s'', started) = pump (enqueue key task s') in
    if leb s.queue_cap (length (queue_of key s')) then (s', none) else (s'', some started)

-- The tasks that are rejected with EIO come back.
unfoldable pub forget : String → Scheduler → Scheduler × List ℕ
forget key s = (
  record s { queues = del key s.queues; order = keep (λ k. not (k == key)) s.order },
  queue_of key s,
)

-- `(this.active.get(key) || 1) - 1`
abbrev pub one_less : Option ℕ → ℕ
one_less none = 0
one_less (some zero) = 0
one_less (some (suc n)) = n

-- The `finally` of a task.
unfoldable pub finished : String → Scheduler → Scheduler × Started
finished key s =
    pump (record s {
      running = s.running - 1;
      active = put key (one_less (get key s.active)) s.active;
    })
