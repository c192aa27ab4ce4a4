-- ===== src/Supervisor/Timers.antt =====
-- The restart timers of lib/module-supervisor.js: a timer that is set is the one of the record that
-- stands under its name.
use countinghouse.Prelude.{
  ℕ, ◌+◌, ◌≡◌, refl, inl, inr, String, true, Option, none, some, arith, length, leb, ◌==◌,
  string_eq, ℕ_eq, Bool-cases,
}
use countinghouse.Prelude.Dict.{get, put, del, get-put, get-del, get-put_self}
use countinghouse.Supervisor.{
  State, restarting, Specs, Record, Supervisor, new_supervisor, blank, suspend_after, write,
  record_or_new, serial_after, record_for, track, clear_timer, exited_with, exited, clear_found,
  clear, suspend_found, suspend, restart_call, fire_on, same_object, fire_found, fire,
}

-- The record under the name is the object, and its timer is this one.
abbrev Owns : Option Record → ℕ → ℕ → Type 0
Owns none serial id = ⊥
Owns (some r) serial id = (r.serial ≡ serial) × (r.timer ≡ some id)

pub record IsTimed (s : Supervisor) : Type 0 where
  pub owned :
      (id : ℕ) (name : String) (serial : ℕ)
      → get id s.timers ≡ some (name, serial)
      → Owns (get name s.records) serial id

-- No timer is set for the name.
record IsFree (name : String) (s : Supervisor) : Type 0 where
  at : (id serial : ℕ) → get id s.timers ≡ some (name, serial) → ⊥

module _ (name : String) (s : Supervisor) where
  cleared-IsFree :
      (t : Option ℕ)
      → ((id serial : ℕ) → get id s.timers ≡ some (name, serial) → t ≡ some id)
      → IsFree name (clear_timer t s)
  cleared-IsFree none own = record { at = λ id o h. cc (own id o h) }
  cleared-IsFree (some j) own = record {
    at = λ id o h. ground (arith, own id o, get-del j id s.timers);
  }

  clear_timer-IsFree :
      (r : Record) → IsTimed s → get name s.records ≡ some r → IsFree name (clear_timer r.timer s)
  clear_timer-IsFree r v e = cleared-IsFree r.timer (λ id o h. ground (arith, v.owned id name o h))

  clear_timer-IsTimed : (t : Option ℕ) → IsTimed s → IsTimed (clear_timer t s)
  clear_timer-IsTimed none v = v
  clear_timer-IsTimed (some id) v = record {
    owned = λ j n o h. ground (arith, v.owned j n o, get-del id j s.timers);
  }

  write-IsTimed : (r : Record) → IsFree name s → IsTimed s → IsTimed (write name r s)
  write-IsTimed r f v = record {
    owned = λ j n o h.
        ground
          (arith, v.owned j n o, f.at j o, get-put name n r s.records, string_eq.beq_iff name n);
  }

  -- The record is changed in place, and neither its identity nor its timer.
  update-IsTimed :
      (r r' : Record)
      → get name s.records ≡ some r
      → r'.serial ≡ r.serial
      → r'.timer ≡ r.timer
      → IsTimed s
      → IsTimed (write name r' s)
  update-IsTimed r r' e same kept v = record {
    owned = λ j n o h.
        ground (arith, v.owned j n o, get-put name n r' s.records, string_eq.beq_iff name n);
  }

  arm-IsTimed :
      (r : Record) (id : ℕ)
      → r.timer ≡ some id
      → IsFree name s
      → IsTimed s
      → IsTimed (
          write name r
            (record s { timers = put id (name, r.serial) s.timers; next_timer = id + 1 }))
  arm-IsTimed r id e f v = record {
    owned = λ j n o h. ground (
      arith,
      v.owned j n o,
      f.at j o,
      get-put name n r s.records,
      get-put id j (name, r.serial) s.timers,
      string_eq.beq_iff name n,
    );
  }

  remove-IsTimed :
      (r : Record)
      → IsFree name s
      → IsTimed s
      → IsTimed (record s { records = del name s.records; detached = put r.serial r s.detached })
  remove-IsTimed r f v = record {
    owned = λ j n o h.
        ground (arith, v.owned j n o, f.at j o, get-del name n s.records, string_eq.beq_iff name n);
  }

records-clear_timer : (t : Option ℕ) (s : Supervisor) → (clear_timer t s).records ≡ s.records
records-clear_timer none s = refl
records-clear_timer (some id) s = refl

module _ (name : String) (s : Supervisor) (v : IsTimed s) where
  enter-IsTimed :
      (found : Option Record)
      → get name s.records ≡ found
      → IsTimed (write name (record_or_new found s) (serial_after found s))
  enter-IsTimed (some r) e = update-IsTimed name s r r e refl refl v
  enter-IsTimed none e =
      write-IsTimed name (record s { next_serial = s.next_serial + 1 }) (blank s.next_serial)
        (record { at = λ id o h. ground (arith, v.owned id name o h) }) (record { owned = v.owned })

  record_for-IsTimed : IsTimed (record_for name s).1
  unfolding record_for
  record_for-IsTimed = enter-IsTimed (get name s.records) refl

  get-record_for : get name (record_for name s).1.records ≡ some (record_for name s).0
  unfolding record_for
  get-record_for = get-put_self name _ _

  track-IsTimed : (path version : Option String) → IsTimed (track name path version s)
  unfolding track
  track-IsTimed path version =
      update-IsTimed name (record_for name s).1 (record_for name s).0 _ get-record_for refl refl
        record_for-IsTimed

exited_with-IsTimed :
    (name : String) (now : ℕ) (r : Record) (s : Supervisor)
    → IsFree name s
    → IsTimed s
    → IsTimed (exited_with name now r s).0
unfolding exited_with
exited_with-IsTimed name now r s f v = elim (Bool-cases (leb suspend_after (length r.exits))) [
  | inl many ↦ rw many (write-IsTimed name s _ f v)
  | inr few ↦ rw few (arm-IsTimed name s _ s.next_timer refl f v)
]

module _ (name : String) (s : Supervisor) (v : IsTimed s) where
  exited-IsTimed :
      (reason : String) (specs : Specs) (now : ℕ) → IsTimed (exited name reason specs now s).0
  unfolding exited
  exited-IsTimed reason specs now =
      let (r, s') = record_for name s in
      exited_with-IsTimed name now _ (clear_timer r.timer s')
        (clear_timer-IsFree name s' r (record_for-IsTimed name s v) (get-record_for name s v))
        (clear_timer-IsTimed name s' r.timer (record_for-IsTimed name s v))

  clear_found-IsTimed :
      (found : Option Record) → get name s.records ≡ found → IsTimed (clear_found found name s)
  unfolding clear_found
  clear_found-IsTimed none e = v
  clear_found-IsTimed (some r) e =
      remove-IsTimed name (clear_timer r.timer s) r (clear_timer-IsFree name s r v e)
        (clear_timer-IsTimed name s r.timer v)

  clear-IsTimed : IsTimed (clear name s)
  unfolding clear
  clear-IsTimed = clear_found-IsTimed (get name s.records) refl

  suspend_found-IsTimed :
      (found : Option Record) (reason : String)
      → get name s.records ≡ found
      → IsTimed (suspend_found found name reason s).0
  unfolding suspend_found
  suspend_found-IsTimed none reason e = v
  suspend_found-IsTimed (some r) reason e =
      write-IsTimed name (clear_timer r.timer s) _ (clear_timer-IsFree name s r v e)
        (clear_timer-IsTimed name s r.timer v)

  suspend-IsTimed : (reason : String) → IsTimed (suspend name reason s).0
  unfolding suspend
  suspend-IsTimed reason = suspend_found-IsTimed (get name s.records) reason refl

-- The restart that a timer asks for is of the record that stands under the name, and that record
-- is restarting.
abbrev pub IsRightful : Supervisor → Option (String × ℕ) → Type 0
IsRightful s none = Unit
IsRightful s (some (name, serial)) =
    (r : Record) × (get name s.records ≡ some r) × (r.serial ≡ serial) × (r.state ≡ restarting)

module _ (s : Supervisor) (name : String) (r : Record) (e : get name s.records ≡ some r) where
  restart_call-IsRightful :
      (st : State) → r.state ≡ st → IsRightful s (restart_call st name r.serial)
  restart_call-IsRightful restarting k = (r, e, refl, k)
  restart_call-IsRightful _ k = tt

module _ (s : Supervisor) (v : IsTimed s) (id : ℕ) where
  fire_on_lem :
      (name : String) (serial : ℕ) (found : Option Record)
      → get name s.records ≡ found
      → Owns found serial id
      → IsTimed (fire_on name serial (same_object serial found) (clear_timer (some id) s)).0
        × IsRightful s (fire_on name serial (same_object serial found) (clear_timer (some id) s)).1
  unfolding fire_on
  fire_on_lem name serial none e own = absurd own
  fire_on_lem name serial (some r) e own =
      let same : (r.serial == serial) ≡ true = ground (arith, ℕ_eq.beq_iff r.serial serial) in
      let s' = clear_timer (some id) s in
      rw same (
        write-IsTimed name s' _
            (cleared-IsFree name s (some id) (λ j o h. ground (arith, v.owned j name o h)))
            (clear_timer-IsTimed name s (some id) v),
        restart_call-IsRightful s name r e r.state refl,
      )

  fire_found_lem :
      (found : Option (String × ℕ))
      → get id s.timers ≡ found
      → IsTimed (fire_found id found s).0 × IsRightful s (fire_found id found s).1
  unfolding fire_found
  fire_found_lem none h = (v, tt)
  fire_found_lem (some (name, serial)) h =
      fire_on_lem name serial (get name s.records) refl (v.owned id name serial h)

  fire_lem : IsTimed (fire id s).0 × IsRightful s (fire id s).1
  unfolding fire
  fire_lem = fire_found_lem (get id s.timers) refl

-- The calls, and a timer that goes off.
pub data Step (s : Supervisor) : Supervisor → Type 0 where
  tracking : (name : String) (path version : Option String) → Step s (track name path version s)
  exiting :
      (name reason : String) (specs : Specs) (now : ℕ) → Step s (exited name reason specs now s).0
  clearing : (name : String) → Step s (clear name s)
  suspending : (name reason : String) → Step s (suspend name reason s).0
  firing : (id : ℕ) → Step s (fire id s).0

pub data Reach : Supervisor → Type 0 where
  start : Reach new_supervisor
  next : {s t : Supervisor} → Reach s → Step s t → Reach t

-- In every reachable state, a timer that is set is the one of the record under its name: so a
-- record has one timer at most, and none is left of a record that was cleared.
Reach-IsTimed : {s : Supervisor} → Reach s → IsTimed s
Reach-IsTimed start = record { owned = λ id n o h. unfold get in cc h }
Reach-IsTimed (next r (tracking name path version)) =
    track-IsTimed name _ (Reach-IsTimed r) path version
Reach-IsTimed (next r (exiting name reason specs now)) =
    exited-IsTimed name _ (Reach-IsTimed r) reason specs now
Reach-IsTimed (next r (clearing name)) = clear-IsTimed name _ (Reach-IsTimed r)
Reach-IsTimed (next r (suspending name reason)) = suspend-IsTimed name _ (Reach-IsTimed r) reason
Reach-IsTimed (next r (firing id)) = (fire_lem _ (Reach-IsTimed r) id).0

-- In every reachable state, a timer that goes off restarts nothing, or a module whose record is
-- restarting and is the object that the timer was set for: never one that was cleared, is running
-- again or is suspended.
pub fire-IsRightful : {s : Supervisor} (r : Reach s) (id : ℕ) → IsRightful s (fire id s).1
fire-IsRightful r id = (fire_lem _ (Reach-IsTimed r) id).1
