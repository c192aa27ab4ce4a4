-- ===== src/Peer/Channel/Capacity.antt =====
-- How each step of lib/peer-channel.js moves the counters of its backpressure, on the caller's and
-- on the callee's side.
use mathlib.Core.Path.{subst}
use countinghouse.Prelude.{
  ℕ, ◌+◌, ◌-◌, ◌≤◌, ◌<◌, ◌≡◌, refl, ap, sym, ◌⊎◌, inl, inr, Bool, true, false, List, [], ◌∷◌, ◌++◌,
  Option, none, some, arith, length, keep, map, contains, length-append, ℕ_eq, Bool-cases,
}
use countinghouse.Peer.Channel.{
  Request, Reply, Effect, post_invoke, dispatched, answered, peer_gone, Channel, at_capacity,
  Outcome, send_invoke, submit, invoke, timed_out, drain_sends, drain_send_queue, dispatch_invoke,
  handle_invoke, drain_dispatches, drain_dispatch_queue, dispatch_finished, settle, then_settle,
  handle_reply, closing, invalidate,
}

-- The requests that the effects send, and those whose handling they begin.
abbrev pub sent : List Effect → List Request
sent [] = []
sent (post_invoke r ∷ es) = r ∷ sent es
sent (_ ∷ es) = sent es

abbrev pub begun : List Effect → List Request
begun [] = []
begun (dispatched r ∷ es) = r ∷ begun es
begun (_ ∷ es) = begun es

-- A counter within the cap, and a queue that is used at the cap only.
abbrev pub IsBounded : Option ℕ → ℕ → List Request → Type 0
IsBounded none active queue = queue ≡ []
IsBounded (some m) active queue = (active ≤ m) × ((queue ≡ []) ⊎ (m ≤ active))

-- The two bounds of a channel, and how far a step moves its counters.
abbrev pub Bounds : Channel → Type 0
Bounds c =
    IsBounded c.max_concurrent c.active_sends c.send_queue
    × IsBounded c.max_concurrent c.active_dispatches c.dispatch_queue

abbrev pub Moves : Channel → Outcome → Type 0
Moves c o =
    Bounds o.0
    × (o.0.active_sends ≡ c.active_sends + length (sent o.1))
    × (o.0.active_dispatches ≡ c.active_dispatches + length (begun o.1))

-- A bound after one of the active requests has ended and before the queue is drained.
abbrev IsLowered : Option ℕ → ℕ → List Request → Type 0
IsLowered none active queue = queue ≡ []
IsLowered (some m) active queue = (active ≤ m) × ((queue ≡ []) ⊎ (m ≤ active + 1))

module _ (a : ℕ) (q : List Request) where
  IsBounded-full :
      (m : Option ℕ) (q' : List Request)
      → IsBounded m a q
      → at_capacity m a ≡ true
      → IsBounded m a q'
  IsBounded-full none q' b h = cc
  IsBounded-full (some m) q' b h = ground arith

  IsBounded-room :
      (m : Option ℕ) → IsBounded m a q → at_capacity m a ≡ false → IsBounded m (a + 1) q
  IsBounded-room none b h = b
  IsBounded-room (some m) b h = ground arith

  IsBounded-empty : (m : Option ℕ) → IsBounded m a q → IsBounded m a []
  IsBounded-empty none b = refl
  IsBounded-empty (some m) b = ground arith

  lowered : (m : Option ℕ) → 0 < a → IsBounded m a q → IsLowered m (a - 1) q
  lowered none h b = b
  lowered (some m) h b = ground arith

  lowered-full : (m : Option ℕ) → IsLowered m a q → at_capacity m a ≡ true → IsBounded m a q
  lowered-full none b h = cc
  lowered-full (some m) b h = ground arith

lowered-empty : (a : ℕ) (m : Option ℕ) → IsLowered m a [] → IsBounded m a []
lowered-empty a none b = refl
lowered-empty a (some m) b = (b.0, inl refl)

lowered-room :
    (a : ℕ) (r : Request) (q : List Request) (m : Option ℕ)
    → IsLowered m a (r ∷ q)
    → at_capacity m a ≡ false
    → IsBounded m (a + 1) q
lowered-room a r q none b h = cc
lowered-room a r q (some m) b h = ground arith

submit-Moves : (r : Request) (c : Channel) → Bounds c → Moves c (submit r c)
unfolding submit send_invoke
submit-Moves r c b = elim (Bool-cases (at_capacity c.max_concurrent c.active_sends)) [
  | inl full ↦ rw full (
    (IsBounded-full c.active_sends c.send_queue c.max_concurrent _ b.0 full, b.1),
    omega arith,
    omega arith,
  )
  | inr room ↦ rw room (
    (IsBounded-room c.active_sends c.send_queue c.max_concurrent b.0 room, b.1),
    omega arith,
    omega arith,
  )
]

pub invoke-Moves : (r : Request) (c : Channel) → Bounds c → Moves c (invoke r c)
unfolding invoke
invoke-Moves r c b = elim (Bool-cases c.closed) [
  | inl gone ↦ rw gone (b, omega arith, omega arith)
  | inr there ↦ rw there (submit-Moves _ _ b)
]

pub handle_invoke-Moves : (r : Request) (c : Channel) → Bounds c → Moves c (handle_invoke r c)
unfolding handle_invoke dispatch_invoke
handle_invoke-Moves r c b = elim (Bool-cases c.has_on_invoke) [
  | inr none_there ↦ rw none_there (b, omega arith, omega arith)
  | inl there ↦ elim (Bool-cases (at_capacity c.max_concurrent c.active_dispatches)) [
    | inl full ↦
        rw (there, full)
          (
            (b.0, IsBounded-full c.active_dispatches c.dispatch_queue c.max_concurrent _ b.1 full),
            omega arith,
            omega arith,
          )
    | inr room ↦
        rw (there, room)
          (
            (b.0, IsBounded-room c.active_dispatches c.dispatch_queue c.max_concurrent b.1 room),
            omega arith,
            omega arith,
          )
  ]
]

drain_sends-Moves :
    (rs : List Request) (c : Channel)
    → c.send_queue ≡ rs
    → IsLowered c.max_concurrent c.active_sends rs
    → IsBounded c.max_concurrent c.active_dispatches c.dispatch_queue
    → Moves c (drain_sends rs c)
unfolding drain_sends send_invoke
drain_sends-Moves [] c e l b = (
  (
    subst (IsBounded c.max_concurrent c.active_sends) (sym e)
        (lowered-empty c.active_sends c.max_concurrent l),
    b,
  ),
  omega arith,
  omega arith,
)
drain_sends-Moves (r ∷ rs) c e l b =
    elim (Bool-cases (at_capacity c.max_concurrent c.active_sends)) [
      | inl full ↦ rw full (
        (
          subst (IsBounded c.max_concurrent c.active_sends) (sym e)
              (lowered-full c.active_sends (r ∷ rs) c.max_concurrent l full),
          b,
        ),
        omega arith,
        omega arith,
      )
      | inr room ↦
          rw room (
            (lowered-room c.active_sends r rs c.max_concurrent l room, b),
            omega arith,
            omega arith,
          )
    ]

drain_dispatches-Moves :
    (rs : List Request) (c : Channel)
    → c.dispatch_queue ≡ rs
    → IsBounded c.max_concurrent c.active_sends c.send_queue
    → IsLowered c.max_concurrent c.active_dispatches rs
    → Moves c (drain_dispatches rs c)
unfolding drain_dispatches dispatch_invoke
drain_dispatches-Moves [] c e b l = (
  (
    b,
    subst (IsBounded c.max_concurrent c.active_dispatches) (sym e)
        (lowered-empty c.active_dispatches c.max_concurrent l),
  ),
  omega arith,
  omega arith,
)
drain_dispatches-Moves (r ∷ rs) c e b l =
    elim (Bool-cases (at_capacity c.max_concurrent c.active_dispatches)) [
      | inl full ↦ rw full (
        (
          b,
          subst (IsBounded c.max_concurrent c.active_dispatches) (sym e)
              (lowered-full c.active_dispatches (r ∷ rs) c.max_concurrent l full),
        ),
        omega arith,
        omega arith,
      )
      | inr room ↦ rw room (
        (b, lowered-room c.active_dispatches r rs c.max_concurrent l room),
        omega arith,
        omega arith,
      )
    ]

IsBounded-keep :
    (m : Option ℕ) (a : ℕ) (q : List Request) (p : Request → Bool)
    → IsBounded m a q
    → IsBounded m a (keep p q)
IsBounded-keep none a q p b = ap (keep p) b
IsBounded-keep (some m) a q p (le, inl e) = (le, inl (ap (keep p) e))
IsBounded-keep (some m) a q p (le, inr h) = (le, inr h)

pub timed_out-Moves : (id : ℕ) (c : Channel) → Bounds c → Moves c (timed_out id c)
unfolding timed_out
timed_out-Moves id c b = (
  (IsBounded-keep c.max_concurrent c.active_sends c.send_queue _ b.0, b.1),
  omega arith,
  omega arith,
)

sent-append : (xs ys : List Effect) → sent (xs ++ ys) ≡ sent xs ++ sent ys
sent-append [] ys = refl
sent-append (post_invoke r ∷ xs) ys = ap (λ l. r ∷ l) (sent-append xs ys)
sent-append (_ ∷ xs) ys = sent-append xs ys

begun-append : (xs ys : List Effect) → begun (xs ++ ys) ≡ begun xs ++ begun ys
begun-append [] ys = refl
begun-append (dispatched r ∷ xs) ys = ap (λ l. r ∷ l) (begun-append xs ys)
begun-append (_ ∷ xs) ys = begun-append xs ys

settle-Moves : (id : ℕ) (reply : Reply) (c : Channel) → Bounds c → Moves c (settle id reply c)
settle-Moves id reply c b = elim (Bool-cases (contains id c.pending)) [
  | inl here ↦ rw here (b, omega arith, omega arith)
  | inr gone ↦ rw gone (b, omega arith, omega arith)
]

then_settle-Moves :
    (id : ℕ) (reply : Reply) (c : Channel) (o : Outcome)
    → Moves c o
    → Moves c (then_settle id reply o)
then_settle-Moves id reply c (c', es) m =
    let (b, sends, dispatches) = settle-Moves id reply c' m.0 in
    let more = (settle id reply c').1 in
    (
      b,
      omega
          (arith, m.1, sends, ap length (sent-append es more), length-append (sent es) (sent more)),
      omega (
        arith,
        m.2,
        dispatches,
        ap length (begun-append es more),
        length-append (begun es) (begun more),
      ),
    )

-- The counters after a reply: one request less in flight, and those that are sent now.
pub handle_reply-Moves :
    (id : ℕ) (reply : Reply) (c : Channel)
    → 0 < c.active_sends
    → Bounds c
    → Moves (record c { active_sends = c.active_sends - 1 }) (handle_reply id reply c)
unfolding handle_reply drain_send_queue
handle_reply-Moves id reply c h b =
    let c' = record c { active_sends = c.active_sends - 1 } in
    then_settle-Moves id reply c' (drain_sends c.send_queue c') (
      drain_sends-Moves c.send_queue c' refl
        (lowered c.active_sends c.send_queue c.max_concurrent h b.0) b.1)

pub dispatch_finished-Moves :
    (id : ℕ) (reply : Reply) (c : Channel)
    → 0 < c.active_dispatches
    → Bounds c
    → Moves
        (record c { active_dispatches = c.active_dispatches - 1 })
        (dispatch_finished id reply c)
unfolding dispatch_finished drain_dispatch_queue
dispatch_finished-Moves id reply c h b =
    let c' = record c { active_dispatches = c.active_dispatches - 1 } in
    drain_dispatches-Moves c.dispatch_queue c' refl b.0
      (lowered c.active_dispatches c.dispatch_queue c.max_concurrent h b.1)

sent-peer_gone :
    (ids : List ℕ) (c : Channel) → sent (map (λ id. answered id peer_gone) ids ++ closing c) ≡ []
sent-peer_gone [] c = ground arith
sent-peer_gone (id ∷ ids) c = sent-peer_gone ids c

begun-peer_gone :
    (ids : List ℕ) (c : Channel) → begun (map (λ id. answered id peer_gone) ids ++ closing c) ≡ []
begun-peer_gone [] c = ground arith
begun-peer_gone (id ∷ ids) c = begun-peer_gone ids c

pub invalidate-Moves : (c : Channel) → Bounds c → Moves c (invalidate c)
unfolding invalidate
invalidate-Moves c b = elim (Bool-cases c.closed) [
  | inl gone ↦ rw gone (b, omega arith, omega arith)
  | inr there ↦ rw there (
    (
      IsBounded-empty c.active_sends c.send_queue c.max_concurrent b.0,
      IsBounded-empty c.active_dispatches c.dispatch_queue c.max_concurrent b.1,
    ),
    omega (arith, ap length (sent-peer_gone c.pending c)),
    omega (arith, ap length (begun-peer_gone c.pending c)),
  )
]
