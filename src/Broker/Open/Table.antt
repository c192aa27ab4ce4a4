-- ===== src/Broker/Open/Table.antt =====
-- What an opening of lib/fs-broker/broker.js does to the table of descriptors.
use countinghouse.Prelude.{
  ℕ, ◌+◌, ◌<◌, ◌≡◌, refl, ap, ◌⊎◌, inl, inr, Bool, true, false, ◌&&◌, not, List, Option, none, some,
  any, arith, ℕ_eq, ltb, length, leb, keep, Bool-cases, if-cases, if◌then◌else◌,
}
use countinghouse.Prelude.Int.{pos}
use countinghouse.Prelude.Text.{Text}
use countinghouse.Prelude.Dict.{Dict, put}
use countinghouse.Broker.Namespace.{Namespace}
use countinghouse.Broker.Quota.{Quota, Report, reserve}
use countinghouse.Broker.Names.{quota_root}
use countinghouse.Broker.Place.{
  Mode, is_enforce, Want, Placed, Outcome, placed, refused, State, special_rule, escape_rule,
  with_report,
}
use countinghouse.Broker.Open.Flags.{Flag, writes, is_trunc, is_creat, is_append}
use countinghouse.Broker.Open.{
  Opened, is_special, is_regular, Answers, open_call, close_call, truncate_call, escaped, eperm,
  host_failed, FdEntry, Broker, Result, opened_as, failed_with, call, with_quota, verify_opened,
  max_fds, counts, add_entry, give_back, truncate_opened, after_special, after_verify, after_open,
  host_open, reserve_entry, new_entry, open_host, open_placed, want_of, open_with, opening,
  end_open,
}

abbrev pub is_failed : Result → Bool
is_failed (opened_as fd) = false
is_failed (failed_with f) = true

-- Nothing changes in the table, or the next number is given to a new entry.
unfoldable pub IsStep : Dict ℕ FdEntry → ℕ → Broker × Result → Type 0
IsStep fds next r =
    ((r.0.fds ≡ fds) × (r.0.next_fd ≡ next) × (is_failed r.1 ≡ true))
    ⊎ ((e : FdEntry) × (r.0.fds ≡ put next e fds)
        × (r.0.next_fd ≡ next + 1)
        × (r.1 ≡ opened_as next))

module _ (n : Namespace) (mode : Mode) (fs : List Flag) (a : Answers) where
  add_entry-IsStep :
      (p : Placed) (o : Opened) (b : Broker) → IsStep b.fds b.next_fd (add_entry n mode fs a p o b)
  unfolding IsStep
  add_entry-IsStep p o b = inr (_, refl, refl, refl)

  give_back-same :
      (p : Placed) (size : ℕ) (q : Option Quota) (b : Broker)
      → ((give_back n mode fs a p size q b).fds ≡ b.fds)
        × ((give_back n mode fs a p size q b).next_fd ≡ b.next_fd)
  give_back-same p size none b = (refl, refl)
  give_back-same p size (some q) b = elim (Bool-cases (quota_root p && ltb 0 size)) [
    | inl e ↦ rw e (refl, refl)
    | inr e ↦ rw e (refl, refl)
  ]

  truncate_opened-IsStep :
      (p : Placed) (o : Opened) (b : Broker)
      → IsStep b.fds b.next_fd (truncate_opened n mode fs a p o b)
  unfolding IsStep
  truncate_opened-IsStep p o b =
      let b' = call (truncate_call o) b in
      let given = give_back n mode fs a p o.size b.quota b' in
      let (same, next) = give_back-same p o.size b.quota b' in
      if-cases (IsStep b.fds b.next_fd) a.truncates (add_entry n mode fs a p o given)
        (b', failed_with host_failed)
        (λ e. inr (
          record {
            fh = o;
            at = p;
            appends = any is_append fs;
            counts = counts n mode fs a given.quota p;
          },
          rw (same, next) refl,
          ap (λ k. k + 1) next,
          ap (λ k. opened_as k) next,
        ))
        (λ e. inl (refl, refl, refl))

  after_special-IsStep :
      (p : Placed) (o : Opened) (b : Broker)
      → IsStep b.fds b.next_fd (after_special n mode fs a p o b)
  after_special-IsStep p o b =
      if-cases (IsStep b.fds b.next_fd) (any is_trunc fs && is_regular o.type)
        (truncate_opened n mode fs a p o b) (add_entry n mode fs a p o b)
        (λ e. truncate_opened-IsStep p o b) (λ e. add_entry-IsStep p o b)

  after_verify-IsStep :
      (p : Placed) (o : Opened) (b : Broker)
      → IsStep b.fds b.next_fd (after_verify n mode fs a p o b)
  unfolding IsStep
  after_verify-IsStep p o b =
      let b' = record b { state = with_report mode special_rule p.virtual b.state } in
      let refused_special : Broker × Result = (call (close_call o) b', failed_with eperm) in
      let audited = after_special n mode fs a p o b' in
      if-cases (IsStep b.fds b.next_fd) (is_special o.type)
        (if is_enforce mode then refused_special else audited) (after_special n mode fs a p o b)
        (λ e.
          if-cases (IsStep b.fds b.next_fd) (is_enforce mode) refused_special audited
            (λ e. inl (refl, refl, refl)) (λ e. after_special-IsStep p o b'))
        (λ e. after_special-IsStep p o b)

  after_open-IsStep :
      (p : Placed) (o : Option Opened) (entry : Bool) (b : Broker)
      → IsStep b.fds b.next_fd (after_open n mode fs a p o entry b)
  unfolding IsStep
  after_open-IsStep p (some o) entry b =
      let escape =
        call (close_call o) (record b { state = with_report mode escape_rule p.virtual b.state }) in
      if-cases (IsStep b.fds b.next_fd) (verify_opened n mode p (writes fs) a o)
        (after_verify n mode fs a p o b) (escape, failed_with escaped)
        (λ e. after_verify-IsStep p o b) (λ e. inl (refl, refl, refl))
  after_open-IsStep p none false b = inl (refl, refl, refl)
  after_open-IsStep p none true b = go b.quota refl
    where
      go :
          (q : Option Quota)
          → b.quota ≡ q
          → IsStep b.fds b.next_fd (after_open n mode fs a p none true b)
      go none e = rw e (inl (refl, refl, refl))
      go (some q) e = rw e (inl (refl, refl, refl))

  host_open-IsStep :
      (p : Placed) (entry : Bool) (b : Broker)
      → IsStep b.fds b.next_fd (host_open n mode fs a p entry b)
  host_open-IsStep p entry b =
      after_open-IsStep p a.opened entry (call (open_call p (keep (λ f. not (is_trunc f)) fs)) b)

  reserve_entry-IsStep :
      (p : Placed) (r : Option (Quota × List Report)) (b : Broker)
      → IsStep b.fds b.next_fd (reserve_entry n mode fs a p r b)
  unfolding IsStep
  reserve_entry-IsStep p none b = inl (refl, refl, refl)
  reserve_entry-IsStep p (some (q, rs)) b = host_open-IsStep p true (with_quota (q, rs) b)

  new_entry-IsStep :
      (p : Placed) (q : Option Quota) (b : Broker)
      → IsStep b.fds b.next_fd (new_entry n mode fs a p q b)
  new_entry-IsStep p none b = host_open-IsStep p false b
  new_entry-IsStep p (some q) b =
      if-cases (IsStep b.fds b.next_fd) (quota_root p && not a.before && any is_creat fs)
        (reserve_entry n mode fs a p (reserve (pos 0) (pos 1) q) b)
        (host_open n mode fs a p false b)
        (λ e. reserve_entry-IsStep p (reserve (pos 0) (pos 1) q) b)
        (λ e. host_open-IsStep p false b)

  pub end_open-IsStep :
      (p : Placed) (b : Broker) → IsStep b.fds b.next_fd (end_open n mode a fs p b)
  unfolding end_open
  end_open-IsStep p b = new_entry-IsStep p b.quota b

-- Beginning does nothing to the table, and finds room in it.
open_host-room :
    (fs : List Flag) (p : Placed) (host : Option Text) (b : Broker) (gs : List Flag) (q : Placed)
    → open_host fs p host b ≡ opening gs q
    → length b.fds < max_fds
open_host-room fs p none b gs q h = cc h
open_host-room fs p (some path) b gs q h = elim (Bool-cases (leb max_fds (length b.fds))) [
  | inl full ↦ absurd (ground (arith, full, h))
  | inr room ↦ ground (arith, room)
]

open_placed-same :
    (fs : List Flag) (o : State × Outcome) (b : Broker)
    → ((open_placed fs o b).0.fds ≡ b.fds) × ((open_placed fs o b).0.next_fd ≡ b.next_fd)
open_placed-same fs (s, placed p) b = (refl, refl)
open_placed-same fs (s, refused c) b = (refl, refl)

open_placed-room :
    (fs : List Flag) (o : State × Outcome) (b : Broker) (gs : List Flag) (q : Placed)
    → (open_placed fs o b).1 ≡ opening gs q
    → length b.fds < max_fds
open_placed-room fs (s, placed p) b gs q h = open_host-room fs p p.host b gs q h
open_placed-room fs (s, refused c) b gs q h = cc h

pub open_with-same :
    (place_path : Want → State → State × Outcome) (fs : Option (List Flag)) (b : Broker)
    → ((open_with place_path fs b).0.fds ≡ b.fds)
      × ((open_with place_path fs b).0.next_fd ≡ b.next_fd)
open_with-same place_path none b = (refl, refl)
open_with-same place_path (some fs) b = open_placed-same fs (place_path (want_of fs) b.state) b

pub open_with-room :
    (place_path : Want → State → State × Outcome) (fs : Option (List Flag)) (b : Broker)
    (gs : List Flag) (q : Placed)
    → (open_with place_path fs b).1 ≡ opening gs q
    → length b.fds < max_fds
open_with-room place_path none b gs q h = cc h
open_with-room place_path (some fs) b gs q h =
    open_placed-room fs (place_path (want_of fs) b.state) b gs q h
