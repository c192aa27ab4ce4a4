-- ===== src/Broker/Open/UnderWay.antt =====
-- The table of descriptors of lib/fs-broker/broker.js, with openings that overlap: each one awaits the
-- host between the test of `fds.size` and `fds.set`, and openings that create nothing hold the lock
-- together.
use mathlib.Core.Path.{subst}
use countinghouse.Prelude.{
  ℕ, zero, suc, max, ◌+◌, ◌<◌, ◌≡◌, refl, ap, ◌∙◌, inl, inr, List, [], ◌∷◌, Option, none, some,
  arith, ℕ_eq, length, All, All-weaken, if◌then◌else◌, ◌==◌,
}
use countinghouse.Prelude.Dict.{
  Dict, get, put, get-put, All-put, All-del, get-All, length-put, length-del,
}
use countinghouse.Broker.Namespace.{Namespace}
use countinghouse.Broker.Quota.{Quota}
use countinghouse.Broker.Place.{Mode, Want, Placed, Outcome, State}
use countinghouse.Broker.Open.Flags.{Flag, FlagArg, numeric_flags}
use countinghouse.Broker.Open.{
  Answers, FdEntry, Broker, Result, opened_as, max_fds, open_with, close_entry, close, Begun,
  opening, refused_with, begin_open, end_open,
}
use countinghouse.Broker.Open.Table.{IsStep, end_open-IsStep, open_with-same, open_with-room}

-- The openings that are under way, the last that began first.
pub record Table : Type 0 where
  pub broker : Broker
  pub under_way : List (List Flag × Placed)

-- An opening begins, the one at a place of the list ends, or a descriptor is closed.
pub data Event : Type 0 where
  begins : (Want → State → State × Outcome) → FlagArg → Event
  ends : ℕ → Answers → Event
  closes : ℕ → Event

abbrev pub with_head {ℓ} : {A : Type ℓ} → A → Option (A × List A) → Option (A × List A)
with_head x none = none
with_head x (some (y, ys)) = some (y, x ∷ ys)

-- The item at a place of a list, and the others.
abbrev pub take_out {ℓ} : {A : Type ℓ} → ℕ → List A → Option (A × List A)
take_out k [] = none
take_out zero (x ∷ xs) = some (x, xs)
take_out (suc k) (x ∷ xs) = with_head x (take_out k xs)

abbrev begun : List (List Flag × Placed) → Broker × Begun → Table
begun under_way (b, opening fs p) = record { broker = b; under_way = (fs, p) ∷ under_way }
begun under_way (b, refused_with f) = record { broker = b; under_way = under_way }

abbrev closed : Broker → Option Broker → Broker
closed b none = b
closed b (some b') = b'

-- The broker of a new worker: `nextFd` is 3.
abbrev pub new_broker : State → Option Quota → Broker
new_broker s q = record { state = s; quota = q; reports = []; fds = []; next_fd = 3; calls = [] }

module _ (n : Namespace) (mode : Mode) where
  abbrev ended : Answers → Table → Option ((List Flag × Placed) × List (List Flag × Placed)) → Table
  ended a t none = t
  ended a t (some ((fs, p), rest)) = record {
    broker = (end_open n mode a fs p t.broker).0;
    under_way = rest;
  }

  abbrev step : Event → Table → Table
  step (begins place_path arg) t = begun t.under_way (begin_open place_path arg t.broker)
  step (ends k a) t = ended a t (take_out k t.under_way)
  step (closes fd) t = record t { broker = closed t.broker (close fd t.broker) }

  -- The events, the last first.
  abbrev pub run : State → Option Quota → List Event → Table
  run s q [] = record { broker = new_broker s q; under_way = [] }
  run s q (e ∷ es) = step e (run s q es)

  -- The most openings that were under way at once.
  abbrev pub widest : State → Option Quota → List Event → ℕ
  widest s q [] = 0
  widest s q (e ∷ es) = max (length (run s q (e ∷ es)).under_way) (widest s q es)

-- Every descriptor has been given out, and there are fewer of them, with the openings under way, than
-- 256 and `wide`.
record IsTable (wide : ℕ) (t : Table) : Type 0 where
  given : All (λ (e : ℕ × FdEntry). e.0 < t.broker.next_fd) t.broker.fds
  few : length t.broker.fds + length t.under_way < max_fds + wide

with_head-length :
    {A : Type 0} (y : A) (ys : List A) (o : Option (A × List A)) (x : A) (rest : List A)
    → ((z : A) (zs : List A) → o ≡ some (z, zs) → length ys ≡ suc (length zs))
    → with_head y o ≡ some (x, rest)
    → suc (length ys) ≡ suc (length rest)
with_head-length y ys none x rest f h = cc h
with_head-length y ys (some (z, zs)) x rest f h =
    let same : y ∷ zs ≡ rest = cc h in
    let count : suc (length zs) ≡ length rest = ap length same in omega (arith, count, f z zs refl)

take_out-length :
    {A : Type 0} (k : ℕ) (xs : List A) (x : A) (rest : List A)
    → take_out k xs ≡ some (x, rest)
    → length xs ≡ suc (length rest)
take_out-length k [] x rest h = cc h
take_out-length zero (y ∷ ys) x rest h =
    let same : ys ≡ rest = cc h in ap (λ zs. suc (length zs)) same
take_out-length (suc k) (y ∷ ys) x rest h =
    with_head-length y ys (take_out k ys) x rest (λ z zs e. take_out-length k ys z zs e) h

begun-IsTable :
    (w : ℕ) (t : Table) (x : Broker × Begun)
    → x.0.fds ≡ t.broker.fds
    → x.0.next_fd ≡ t.broker.next_fd
    → ((gs : List Flag) (q : Placed) → x.1 ≡ opening gs q → length t.broker.fds < max_fds)
    → IsTable w t
    → IsTable (max (length (begun t.under_way x).under_way) w) (begun t.under_way x)
begun-IsTable w t (b, refused_with f) same next room h = record {
  given = rw (same, next) h.given;
  few = rw same (omega (arith, h.few));
}
begun-IsTable w t (b, opening fs p) same next room h = record {
  given = rw (same, next) h.given;
  few = rw same (omega (arith, room fs p refl));
}

ended-IsTable :
    (w : ℕ) (t : Table) (r : Broker × Result) (rest : List (List Flag × Placed))
    → length t.under_way ≡ suc (length rest)
    → IsStep t.broker.fds t.broker.next_fd r
    → IsTable w t
    → IsTable (max (length rest) w) (record { broker = r.0; under_way = rest })
unfolding IsStep
ended-IsTable w t r rest fewer (inl (same, next, failure)) h = record {
  given = rw (same, next) h.given;
  few = rw same (omega (arith, fewer, h.few));
}
ended-IsTable w t r rest fewer (inr (e, added, next, result)) h =
    let older : All (λ (k : ℕ × FdEntry). k.0 < t.broker.next_fd + 1) t.broker.fds =
      All-weaken (λ k h. omega (arith, h)) t.broker.fds h.given in
    let all : All (λ (k : ℕ × FdEntry). k.0 < t.broker.next_fd + 1)
        (put t.broker.next_fd e t.broker.fds) =
      All-put (λ k. k.0 < t.broker.next_fd + 1) t.broker.next_fd e t.broker.fds (omega arith)
        older in
    record {
      given = rw (added, next) all;
      few = rw added (omega (arith, fewer, h.few, length-put t.broker.next_fd e t.broker.fds));
    }

closed-IsTable :
    (w fd : ℕ) (t : Table) (o : Option FdEntry)
    → IsTable w t
    → IsTable
        (max (length t.under_way) w)
        (record t { broker = closed t.broker (close_entry fd o t.broker) })
closed-IsTable w fd t none h = record { given = h.given; few = omega (arith, h.few) }
closed-IsTable w fd t (some e) h = record {
  given = All-del (λ k. k.0 < t.broker.next_fd) fd t.broker.fds h.given;
  few = omega (arith, h.few, length-del fd t.broker.fds);
}

not_given :
    (next : ℕ) (fds : Dict ℕ FdEntry)
    → All (λ (e : ℕ × FdEntry). e.0 < next) fds
    → get next fds ≡ none
not_given next fds all = go (get next fds) refl
  where
    go : (o : Option FdEntry) → get next fds ≡ o → o ≡ none
    go none e = refl
    go (some entry) e =
        let before : next < next = get-All (λ e. e.0 < next) next entry fds all e in
        let none_such : ⊥ = omega (arith, before) in absurd none_such

module _ (n : Namespace) (mode : Mode) where
  step-IsTable :
      (w : ℕ) (e : Event) (t : Table)
      → IsTable w t
      → IsTable (max (length (step n mode e t).under_way) w) (step n mode e t)
  unfolding begin_open close
  step-IsTable w (begins place_path arg) t h =
      let (same, next) = open_with-same place_path (numeric_flags arg) t.broker in
      begun-IsTable w t (open_with place_path (numeric_flags arg) t.broker) same next
        (λ gs q e. open_with-room place_path (numeric_flags arg) t.broker gs q e) h
  step-IsTable w (closes fd) t h = closed-IsTable w fd t (get fd t.broker.fds) h
  step-IsTable w (ends k a) t h = go (take_out k t.under_way) refl
    where
      go :
          (o : Option ((List Flag × Placed) × List (List Flag × Placed)))
          → take_out k t.under_way ≡ o
          → IsTable (max (length (ended n mode a t o).under_way) w) (ended n mode a t o)
      go none e = record { given = h.given; few = omega (arith, h.few) }
      go (some ((fs, p), rest)) e =
          ended-IsTable w t (end_open n mode a fs p t.broker) rest
            (take_out-length k t.under_way (fs, p) rest e) (end_open-IsStep n mode fs a p t.broker)
            h

  run-IsTable :
      (s : State) (q : Option Quota) (es : List Event)
      → IsTable (widest n mode s q es) (run n mode s q es)
  run-IsTable s q [] = record { given = tt; few = omega arith }
  run-IsTable s q (e ∷ es) =
      step-IsTable (widest n mode s q es) e (run n mode s q es) (run-IsTable s q es)

  -- After any openings that begin, openings that end and closings, in any order, an opening that
  -- ends with success gives a descriptor that is not in use and leaves every other descriptor its
  -- entry; and there are then fewer descriptors than 256 and the most openings that were under way
  -- at once, so at most 256 when there never was more than one.
  pub end_open-IsNew :
      (s : State) (q : Option Quota) (es : List Event) (k : ℕ) (a : Answers) (fs : List Flag)
      (p : Placed) (rest : List (List Flag × Placed)) (t : Table) (b' : Broker) (fd j : ℕ)
      → run n mode s q es ≡ t
      → take_out k t.under_way ≡ some ((fs, p), rest)
      → end_open n mode a fs p t.broker ≡ (b', opened_as fd)
      → (get fd t.broker.fds ≡ none)
        × (length b'.fds < 256 + widest n mode s q es)
        × ((e : FdEntry) × (get j b'.fds ≡ (if fd == j then some e else get j t.broker.fds)))
  unfolding IsStep
  end_open-IsNew s q es k a fs p rest t b' fd j reached waits h =
      let w = widest n mode s q es in
      let ok : IsTable w t = subst (IsTable w) reached (run-IsTable s q es) in
      let fewer = take_out-length k t.under_way (fs, p) rest waits in
      let given : IsStep t.broker.fds t.broker.next_fd (b', opened_as fd) =
        subst (IsStep t.broker.fds t.broker.next_fd) h (end_open-IsStep n mode fs a p t.broker) in
      let unused : get t.broker.next_fd t.broker.fds ≡ none =
        not_given t.broker.next_fd t.broker.fds ok.given in
      elim given [
        | inl (same, next, failure) ↦ cc
        | inr (e, added, next, result) ↦
            let number : t.broker.next_fd ≡ fd = cc in
            let free : get fd t.broker.fds ≡ none =
              subst (λ i. get i t.broker.fds ≡ none) number unused in
            let entry : get j b'.fds ≡ (if fd == j then some e else get j t.broker.fds) =
              subst (λ i. get j b'.fds ≡ (if i == j then some e else get j t.broker.fds)) number
                (ap (λ d. get j d) added ∙ get-put t.broker.next_fd j e t.broker.fds) in
            let put_fits = length-put t.broker.next_fd e t.broker.fds in
            let same_size : length b'.fds ≡ length (put t.broker.next_fd e t.broker.fds) =
              ap length added in
            (free, omega (arith, ok.few, fewer, put_fits, same_size), (e, entry))
      ]
