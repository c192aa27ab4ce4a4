-- ===== src/Supervisor.antt =====
-- lib/module-supervisor.js: the restart policy of the module workers. Times are in milliseconds.
-- A record is an object that the restart timers and `isCurrent` compare by identity: `serial` is
-- its identity, and the objects that `clear` has taken out of `records` are kept in `detached`.
-- `timers` holds the timers that are set and have neither fired nor been cleared.
pub mod Policy
pub mod Timers
pub mod Errors
use countinghouse.Prelude.{
  ℕ, zero, suc, ◌+◌, ◌-◌, ◌*◌, ◌^◌, String, Bool, true, false, ◌&&◌, ◌||◌, not, List, [], ◌∷◌, ◌++◌,
  Option, none, some, keep, length, leb, min, ◌==◌, string_eq, ℕ_eq, is_some, or_else,
  if◌then◌else◌,
}
use countinghouse.Prelude.Dict.{Dict, get, put, del}

abbrev pub backoff_base_ms : ℕ
backoff_base_ms = 1000

abbrev pub backoff_max_ms : ℕ
backoff_max_ms = 60000

abbrev pub suspend_after : ℕ
suspend_after = 3

abbrev pub window_ms : ℕ
window_ms = 600000

pub data State : Type 0 where
  running restarting suspended : State

pub record Exit : Type 0 where
  pub at : ℕ
  pub reason : String

abbrev pub Specs : Type 0
Specs = Dict String String

pub record Record : Type 0 where
  pub serial : ℕ
  pub state : State
  pub module_path : Option String
  pub version : Option String
  pub exits : List Exit
  pub last_reason : Option String
  pub next_restart_at : Option ℕ
  pub timer : Option ℕ
  pub specs : Specs

pub record Supervisor : Type 0 where
  pub records : Dict String Record
  pub detached : Dict ℕ Record
  pub timers : Dict ℕ (String × ℕ)
  pub next_serial : ℕ
  pub next_timer : ℕ

abbrev pub new_supervisor : Supervisor
new_supervisor = record {
  records = [];
  detached = [];
  timers = [];
  next_serial = 0;
  next_timer = 0;
}

-- `Math.min(BACKOFF_BASE_MS * Math.pow(2, nthExit - 1), BACKOFF_MAX_MS)`, called with 1 and more
unfoldable pub backoff_for : ℕ → ℕ
backoff_for n = min (backoff_base_ms * 2 ^ (n - 1)) backoff_max_ms

abbrev pub blank : ℕ → Record
blank serial = record {
  serial = serial;
  state = running;
  module_path = none;
  version = none;
  exits = [];
  last_reason = none;
  next_restart_at = none;
  timer = none;
  specs = [];
}

-- `this.records[name] = r`; the methods that change a record in place end in such a write too.
abbrev pub write : String → Record → Supervisor → Supervisor
write name r s = record s { records = put name r s.records }

abbrev record_or_new : Option Record → Supervisor → Record
record_or_new (some r) s = r
record_or_new none s = blank s.next_serial

abbrev serial_after : Option Record → Supervisor → Supervisor
serial_after (some r) s = s
serial_after none s = record s { next_serial = s.next_serial + 1 }

-- `recordFor`: the record, and the state in which it stands under its name.
unfoldable pub record_for : String → Supervisor → Record × Supervisor
record_for name s =
    let r = record_or_new (get name s.records) s in
    (r, write name r (serial_after (get name s.records) s))

unfoldable pub track : String → Option String → Option String → Supervisor → Supervisor
unfolding record_for
track name module_path version s =
    let (r, s') = record_for name s in
    write name
      (record r {
        module_path = module_path;
        version = version;
        state = running;
        next_restart_at = none;
        specs = [];
      })
      s'

abbrev pub clear_timer : Option ℕ → Supervisor → Supervisor
clear_timer none s = s
clear_timer (some id) s = record s { timers = del id s.timers }

pub data Action : Type 0 where
  suspend_it : Action
  restart_at : (delay_ms at : ℕ) → Action

-- `now - e.at <= WINDOW_MS`
abbrev pub is_recent : ℕ → Exit → Bool
is_recent now e = leb now (e.at + window_ms)

abbrev pub exits_after : ℕ → String → Record → List Exit
exits_after now reason r = keep (is_recent now) r.exits ++ record { at = now; reason = reason } ∷ []

-- `exited` once its timer is cleared: suspended, or restarting with a timer.
unfoldable pub exited_with : String → ℕ → Record → Supervisor → Supervisor × Action
exited_with name now r s =
    let delay = backoff_for (length r.exits) in
    if leb suspend_after (length r.exits)
    then (
      write name (record r { state = suspended; next_restart_at = none; timer = none }) s,
      suspend_it,
    )
    else (
      write name
          (record r {
            state = restarting;
            next_restart_at = some (now + delay);
            timer = some s.next_timer;
          })
          (record s {
            timers = put s.next_timer (name, r.serial) s.timers;
            next_timer = s.next_timer + 1;
          }),
      restart_at delay (now + delay),
    )

unfoldable pub exited : String → String → Specs → ℕ → Supervisor → Supervisor × Action
exited name reason device_specs now s =
    let (r, s') = record_for name s in
    let r' = record r {
      exits = exits_after now reason r;
      last_reason = some reason;
      specs = device_specs;
    } in
    exited_with name now r' (clear_timer r.timer s')

clear_found : Option Record → String → Supervisor → Supervisor
clear_found none name s = s
clear_found (some r) name s =
    let s' = clear_timer r.timer s in
    record s' { records = del name s'.records; detached = put r.serial r s'.detached }

unfoldable pub clear : String → Supervisor → Supervisor
unfolding clear_found
clear name s = clear_found (get name s.records) name s

-- `this.records[name] === record`
unfoldable pub is_current : String → Record → Supervisor → Bool
is_current name r s = elim (get name s.records) [ none ↦ false | some r' ↦ r'.serial == r.serial ]

suspend_found : Option Record → String → String → Supervisor → Supervisor × Bool
suspend_found none name reason s = (s, false)
suspend_found (some r) name reason s = (
  write name
      (record r {
        timer = none;
        state = suspended;
        last_reason = some reason;
        next_restart_at = none;
      })
      (clear_timer r.timer s),
  true,
)

unfoldable pub suspend : String → String → Supervisor → Supervisor × Bool
unfolding suspend_found
suspend name reason s = suspend_found (get name s.records) name reason s

-- The call `this.restart(name, r)` of the timer's callback, if it is made.
abbrev pub restart_call : State → String → ℕ → Option (String × ℕ)
restart_call restarting name serial = some (name, serial)
restart_call _ name serial = none

-- The callback on the object that it captured: the one under its name, or a detached one.
fire_on : String → ℕ → Option Record → Supervisor → Supervisor × Option (String × ℕ)
fire_on name serial none s = (
  record s {
    detached =
        put serial (record (or_else (get serial s.detached) (blank serial)) { timer = none })
          s.detached;
  },
  restart_call (or_else (get serial s.detached) (blank serial)).state name serial,
)
fire_on name serial (some r) s =
    (write name (record r { timer = none }) s, restart_call r.state name r.serial)

-- The record under the name, if it is the object with that identity.
abbrev same_object : ℕ → Option Record → Option Record
same_object serial none = none
same_object serial (some r) = if r.serial == serial then some r else none

fire_found : ℕ → Option (String × ℕ) → Supervisor → Supervisor × Option (String × ℕ)
unfolding fire_on
fire_found id none s = (s, none)
fire_found id (some (name, serial)) s =
    fire_on name serial (same_object serial (get name s.records)) (clear_timer (some id) s)

-- The timer goes off, if it is set.
unfoldable pub fire : ℕ → Supervisor → Supervisor × Option (String × ℕ)
unfolding fire_found
fire id s = fire_found id (get id s.timers) s

pub data ErrorCode : Type 0 where
  module_suspended module_restarting : ErrorCode

pub record ModuleError : Type 0 where
  pub code : ErrorCode
  pub module_name : String
  pub reason : Option String
  pub retry_at : Option ℕ

abbrev pub is_running : State → Bool
is_running running = true
is_running _ = false

abbrev pub is_suspended : State → Bool
is_suspended suspended = true
is_suspended _ = false

abbrev pub error_of : String → Record → ModuleError
error_of name r = record {
  code = if is_suspended r.state then module_suspended else module_restarting;
  module_name = name;
  reason = r.last_reason;
  retry_at = r.next_restart_at;
}

-- `inherited` tells the names under which a plain object such as `r.specs` has a member without an
-- entry of its own, `constructor` for one.
module _ (inherited : String → Bool) where
  abbrev pub serves : String → Record → Bool
  serves device r = is_some (get device r.specs) || inherited device

  unfoldable pub error_in : String → Dict String Record → Option ModuleError
  error_in device [] = none
  error_in device ((name, r) ∷ rs) =
      let rest = error_in device rs in
      if is_running r.state || not (serves device r) then rest else some (error_of name r)

  unfoldable pub error_for_device : String → Supervisor → Option ModuleError
  error_for_device device s = error_in device s.records

-- `Object.assign(out, specs)`
unfoldable pub assign : Specs → Specs → Specs
assign out [] = out
assign out ((k, v) ∷ specs) = assign (put k v out) specs

unfoldable pub retained_in : Specs → Dict String Record → Specs
retained_in out [] = out
retained_in out ((name, r) ∷ rs) =
    retained_in (if is_running r.state then out else assign out r.specs) rs

unfoldable pub retained_specs : Supervisor → Specs
retained_specs s = retained_in [] s.records

pub record Status : Type 0 where
  pub state : State
  pub last_reason : Option String
  pub exits : List Exit
  pub next_restart_at : Option ℕ

abbrev pub status_of : Record → Status
status_of r = record {
  state = r.state;
  last_reason = r.last_reason;
  exits = r.exits;
  next_restart_at = r.next_restart_at;
}

unfoldable pub status : String → Supervisor → Option Status
status name s = elim (get name s.records) [ none ↦ none | some r ↦ some (status_of r) ]

unfoldable pub recorded : String → Supervisor → Option (Option String × Option String)
recorded name s = elim (get name s.records) [
  | none ↦ none
  | some r ↦ some (r.module_path, r.version)
]
