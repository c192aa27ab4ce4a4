-- ===== src/Supervisor/Policy.antt =====
-- When lib/module-supervisor.js restarts a module and when it suspends it.
use native.Mathlib.Nat.{pow-suc}
use countinghouse.Prelude.{
  ℕ, zero, suc, ◌+◌, ◌-◌, ◌*◌, ◌^◌, ◌≤◌, ◌<◌, ◌≡◌, refl, ap, ◌⊎◌, inl, inr, String, List, [], ◌∷◌,
  ◌++◌, ℕ_eq, Option, none, some, arith, length, leb, min, keep, string_eq, All, All-append,
  Bool-cases, length-append,
}
use countinghouse.Prelude.Dict.{Dict, get, get-put_self}
use countinghouse.Supervisor.{
  restarting, suspended, Exit, Specs, Record, Supervisor, backoff_base_ms, backoff_max_ms,
  suspend_after, window_ms, backoff_for, is_recent, exits_after, record_for, Action, suspend_it,
  restart_at, exited_with, exited, record_or_new,
}

pow-pos : (n : ℕ) → 1 ≤ 2 ^ n
pow-pos zero = omega arith
pow-pos (suc n) = rw pow-suc (omega (arith, pow-pos n))

-- The delay of the first exit is the base; each later one doubles it up to the maximum.
backoff_for-doubles :
    (n : ℕ)
    → (backoff_for 1 ≡ backoff_base_ms)
      × (backoff_for (suc (suc n)) ≡ min (2 * backoff_for (suc n)) backoff_max_ms)
      × (backoff_base_ms ≤ backoff_for (suc n))
      × (backoff_for (suc n) ≤ backoff_max_ms)
unfolding backoff_for
backoff_for-doubles n =
    let one : suc n - 1 ≡ n = omega arith in
    let two : suc (suc n) - 1 ≡ suc n = omega arith in
    rw (two, one, pow-suc) (omega (arith, pow-pos n))

-- Every recorded exit is recent.
abbrev pub AreRecent : ℕ → List Exit → Type 0
AreRecent now xs = All (λ e. now ≤ e.at + window_ms) xs

keep-AreRecent : (now : ℕ) (xs : List Exit) → AreRecent now (keep (is_recent now) xs)
keep-AreRecent now [] = tt
keep-AreRecent now (x ∷ xs) = ground (arith, keep-AreRecent now xs)

exits_after-AreRecent :
    (now : ℕ) (reason : String) (r : Record) → AreRecent now (exits_after now reason r)
exits_after-AreRecent now reason r =
    All-append (λ e. now ≤ e.at + window_ms) (keep (is_recent now) r.exits) _
      (keep-AreRecent now r.exits) (omega arith)

-- The exits that are on record for a module.
abbrev pub exits_of : Option Record → List Exit
exits_of none = []
exits_of (some r) = r.exits

-- What an exit after `n` recent ones leads to, for the record that it leaves and the timers. Of two
-- or more the module is suspended, with no restart due and no timer. After none it is restarted in
-- one second, after one in two, and a timer that stands for this very record is set.
abbrev pub Follows : ℕ → ℕ → String → Record → Dict ℕ (String × ℕ) → Action → Type 0
Follows now n name r timers action =
    (2 ≤ n)
      × (action ≡ suspend_it)
      × (r.state ≡ suspended)
      × (r.next_restart_at ≡ none)
      × (r.timer ≡ none)
    ⊎ (delay : ℕ) × (((n ≡ 0) × (delay ≡ 1000)) ⊎ ((n ≡ 1) × (delay ≡ 2000)))
      × (action ≡ restart_at delay (now + delay))
      × (r.state ≡ restarting)
      × (r.next_restart_at ≡ some (now + delay))
      × ((id : ℕ) × (r.timer ≡ some id) × (get id timers ≡ some (name, r.serial)))

pub record IsAfterExit (now : ℕ) (name reason : String) (specs : Specs) (before : List Exit)
    (after : Supervisor) (action : Action) : Type 0 where
  pub left : Record
  pub there : get name after.records ≡ some left
  pub exits : left.exits ≡ before ++ record { at = now; reason = reason } ∷ []
  pub recent : AreRecent now left.exits
  pub reason_kept : left.last_reason ≡ some reason
  pub specs_kept : left.specs ≡ specs
  pub follows : Follows now (length before) name left after.timers action

delay_of :
    (n : ℕ)
    → n < 2
    → ((n ≡ 0) × (backoff_for (suc n) ≡ 1000)) ⊎ ((n ≡ 1) × (backoff_for (suc n) ≡ 2000))
unfolding backoff_for
delay_of zero h = inl (refl, refl)
delay_of (suc zero) h = inr (refl, refl)
delay_of (suc (suc n)) h = absurd (omega (arith, h))

exited_with-IsAfterExit :
    (name reason : String) (now : ℕ) (before : List Exit) (r : Record) (s : Supervisor)
    → r.exits ≡ before ++ record { at = now; reason = reason } ∷ []
    → AreRecent now r.exits
    → length r.exits ≡ suc (length before)
    → r.last_reason ≡ some reason
    → IsAfterExit now name reason r.specs before
        (exited_with name now r s).0
        (exited_with name now r s).1
unfolding exited_with
exited_with-IsAfterExit name reason now before r s x h e k =
    elim (Bool-cases (leb suspend_after (length r.exits))) [
      | inl many ↦ rw many (record {
        left = record r { state = suspended; next_restart_at = none; timer = none };
        there = get-put_self name _ s.records;
        exits = x;
        recent = h;
        reason_kept = k;
        specs_kept = refl;
        follows = inl (ground (arith, e, many), refl, refl, refl, refl);
      })
      | inr few ↦ rw few (record {
        left = record r {
          state = restarting;
          next_restart_at = some (now + backoff_for (length r.exits));
          timer = some s.next_timer;
        };
        there = get-put_self name _ s.records;
        exits = x;
        recent = h;
        reason_kept = k;
        specs_kept = refl;
        follows = inr (
          backoff_for (length r.exits),
          rw e (delay_of (length before) (ground (arith, e, few))),
          refl,
          refl,
          refl,
          (s.next_timer, refl, get-put_self s.next_timer _ s.timers),
        );
      })
    ]

length-exits_after :
    (now : ℕ) (reason : String) (r : Record)
    → length (exits_after now reason r) ≡ suc (length (keep (is_recent now) r.exits))
length-exits_after now reason r = omega (arith, length-append (keep (is_recent now) r.exits) _)

exits-record_or_new :
    (found : Option Record) (s : Supervisor) → (record_or_new found s).exits ≡ exits_of found
exits-record_or_new (some r) s = refl
exits-record_or_new none s = refl

-- An unexpected exit leaves a record of the module with its reason and specs, whose exits are the
-- recorded ones of the last ten minutes and this one, with its time and reason. With two or more
-- earlier ones the module is suspended, with no restart due and no timer; else it is restarting, in
-- one second when there is none and in two when there is one, and the timer that is set for it is
-- that of this record.
pub exited-IsAfterExit :
    (name reason : String) (specs : Specs) (now : ℕ) (s : Supervisor)
    → IsAfterExit now name reason specs
        (keep (λ e. leb now (e.at + 600000)) (exits_of (get name s.records)))
        (exited name reason specs now s).0
        (exited name reason specs now s).1
unfolding exited record_for
exited-IsAfterExit name reason specs now s =
    let r = record_or_new (get name s.records) s in
    let same = exits-record_or_new (get name s.records) s in
    let r' = record r {
      exits = exits_after now reason r;
      last_reason = some reason;
      specs = specs;
    } in
    exited_with-IsAfterExit name reason now (keep (is_recent now) (exits_of (get name s.records)))
      r' _ (ap (λ xs. keep (is_recent now) xs ++ record { at = now; reason = reason } ∷ []) same)
      (exits_after-AreRecent now reason r) (rw (← same) (length-exits_after now reason r)) refl
