-- ===== src/Peer/Channel/Flow.antt =====
-- The requests in flight and in hand on a channel of lib/peer-channel.js stay within its cap.
use countinghouse.Prelude.{
  ℕ, suc, ◌-◌, ◌≡◌, refl, ap, Bool, List, [], ◌∷◌, ◌++◌, Option, none, some, arith, length,
  length-append, inl,
}
use countinghouse.Peer.Channel.{
  Request, Reply, Channel, new_channel, Outcome, invoke, timed_out, handle_invoke,
  dispatch_finished, handle_reply, invalidate,
}
use countinghouse.Peer.Channel.Capacity.{
  sent, begun, IsBounded, Moves, invoke-Moves, handle_invoke-Moves, timed_out-Moves,
  handle_reply-Moves, dispatch_finished-Moves, invalidate-Moves,
}

-- A channel, the requests that it sent and that have no reply, and those that it handles.
pub record Traffic : Type 0 where
  pub channel : Channel
  pub in_flight : List Request
  pub handling : List Request

abbrev pub after : List Request → List Request → Outcome → Traffic
after in_flight handling (c, es) = record {
  channel = c;
  in_flight = in_flight ++ sent es;
  handling = handling ++ begun es;
}

pub record IsFlowing (t : Traffic) : Type 0 where
  pub sends : t.channel.active_sends ≡ length t.in_flight
  pub dispatches : t.channel.active_dispatches ≡ length t.handling
  pub send_bound : IsBounded t.channel.max_concurrent t.channel.active_sends t.channel.send_queue
  pub dispatch_bound :
      IsBounded t.channel.max_concurrent t.channel.active_dispatches t.channel.dispatch_queue

-- What happens to a channel; a reply comes for a request in flight, and a handler ends for a
-- request that is handled.
pub data Step (t : Traffic) : Traffic → Type 0 where
  calling : (r : Request) → Step t (after t.in_flight t.handling (invoke r t.channel))
  timing_out : (id : ℕ) → Step t (after t.in_flight t.handling (timed_out id t.channel))
  replying :
      (xs ys : List Request) (r : Request) (reply : Reply)
      → t.in_flight ≡ xs ++ r ∷ ys
      → Step t (after (xs ++ ys) t.handling (handle_reply r.id reply t.channel))
  receiving : (r : Request) → Step t (after t.in_flight t.handling (handle_invoke r t.channel))
  finishing :
      (xs ys : List Request) (r : Request) (reply : Reply)
      → t.handling ≡ xs ++ r ∷ ys
      → Step t (after t.in_flight (xs ++ ys) (dispatch_finished r.id reply t.channel))
  ending : Step t (after t.in_flight t.handling (invalidate t.channel))

pub data Reach (c : Channel) : Traffic → Type 0 where
  start : Reach c (record { channel = c; in_flight = []; handling = [] })
  next : {t u : Traffic} → Reach c t → Step t u → Reach c u

Moves-IsFlowing :
    (c : Channel) (o : Outcome) (in_flight handling : List Request)
    → c.active_sends ≡ length in_flight
    → c.active_dispatches ≡ length handling
    → Moves c o
    → IsFlowing (after in_flight handling o)
Moves-IsFlowing c (c', es) in_flight handling e f m = record {
  sends = omega (arith, e, m.1, length-append in_flight (sent es));
  dispatches = omega (arith, f, m.2, length-append handling (begun es));
  send_bound = m.0.0;
  dispatch_bound = m.0.1;
}

length-split :
    (all xs ys : List Request) (r : Request)
    → all ≡ xs ++ r ∷ ys
    → length all ≡ suc (length (xs ++ ys))
length-split all xs ys r e =
    omega (arith, ap length e, length-append xs (r ∷ ys), length-append xs ys)

Step-IsFlowing : {t u : Traffic} → Step t u → IsFlowing t → IsFlowing u
Step-IsFlowing {t} (calling r) v =
    Moves-IsFlowing t.channel (invoke r t.channel) t.in_flight t.handling v.sends v.dispatches
      (invoke-Moves r t.channel (v.send_bound, v.dispatch_bound))
Step-IsFlowing {t} (timing_out id) v =
    Moves-IsFlowing t.channel (timed_out id t.channel) t.in_flight t.handling v.sends v.dispatches
      (timed_out-Moves id t.channel (v.send_bound, v.dispatch_bound))
Step-IsFlowing {t} (replying xs ys r reply e) v =
    let n = length-split t.in_flight xs ys r e in
    let c = t.channel in
    Moves-IsFlowing (record c { active_sends = c.active_sends - 1 }) (handle_reply r.id reply c)
      (xs ++ ys) t.handling (omega (arith, n, v.sends)) v.dispatches
      (handle_reply-Moves r.id reply c (omega (arith, n, v.sends)) (v.send_bound, v.dispatch_bound))
Step-IsFlowing {t} (receiving r) v =
    Moves-IsFlowing t.channel (handle_invoke r t.channel) t.in_flight t.handling v.sends
      v.dispatches (handle_invoke-Moves r t.channel (v.send_bound, v.dispatch_bound))
Step-IsFlowing {t} (finishing xs ys r reply e) v =
    let n = length-split t.handling xs ys r e in
    let c = t.channel in
    Moves-IsFlowing (record c { active_dispatches = c.active_dispatches - 1 })
      (dispatch_finished r.id reply c) t.in_flight (xs ++ ys) v.sends
      (omega (arith, n, v.dispatches))
      (dispatch_finished-Moves r.id reply c (omega (arith, n, v.dispatches))
        (v.send_bound, v.dispatch_bound))
Step-IsFlowing {t} ending v =
    Moves-IsFlowing t.channel (invalidate t.channel) t.in_flight t.handling v.sends v.dispatches
      (invalidate-Moves t.channel (v.send_bound, v.dispatch_bound))

IsBounded-new : (max : Option ℕ) → IsBounded max 0 []
IsBounded-new none = refl
IsBounded-new (some m) = (omega arith, inl refl)

-- In every reachable state of a channel, on each side: the counter is the number of requests in
-- flight (in hand), with a cap it is at most the cap, and requests wait in the queue only while the
-- counter is at the cap.
pub Reach-IsFlowing :
    {max : Option ℕ} {serves tells : Bool} {t : Traffic}
    → Reach (new_channel max serves tells) t
    → IsFlowing t
Reach-IsFlowing {max} start = record {
  sends = refl;
  dispatches = refl;
  send_bound = IsBounded-new max;
  dispatch_bound = IsBounded-new max;
}
Reach-IsFlowing (next r st) = Step-IsFlowing st (Reach-IsFlowing r)
