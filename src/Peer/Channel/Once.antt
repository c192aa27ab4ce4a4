-- ===== src/Peer/Channel/Once.antt =====
-- Every call on a channel of lib/peer-channel.js is answered once.
use countinghouse.Prelude.{
  ℕ, ◌+◌, ◌-◌, ◌≤◌, ◌≡◌, refl, ap, inl, inr, Bool, List, [], ◌∷◌, ◌++◌, Option, arith, map,
  contains, count, count-append, ltb, ◌==◌, ℕ_eq, Bool-cases, if◌then◌else◌,
}
use countinghouse.Peer.Channel.{
  Request, Reply, Effect, answered, peer_gone, Message, null_message, other_message, peer_invoke,
  peer_reply, Channel, new_channel, Outcome, without, send_invoke, submit, invoke, timed_out,
  drain_sends, drain_send_queue, dispatch_invoke, handle_invoke, drain_dispatches,
  drain_dispatch_queue, dispatch_finished, settle, then_settle, handle_reply, on_message, closing,
  invalidate,
}

-- The ids of the calls that are answered among the effects.
abbrev pub answers : List Effect → List ℕ
answers [] = []
answers (answered id a ∷ es) = id ∷ answers es
answers (_ ∷ es) = answers es

answers-append : (xs ys : List Effect) → answers (xs ++ ys) ≡ answers xs ++ answers ys
answers-append [] ys = refl
answers-append (answered id a ∷ xs) ys = ap (λ l. id ∷ l) (answers-append xs ys)
answers-append (_ ∷ xs) ys = answers-append xs ys

count-without :
    (id j : ℕ) (ids : List ℕ) → count id (without j ids) ≡ (if id == j then 0 else count id ids)
count-without id j [] = ground arith
count-without id j (i ∷ ids) = ground (arith, count-without id j ids)

contains-count : (id : ℕ) (ids : List ℕ) → contains id ids ≡ ltb 0 (count id ids)
contains-count id [] = refl
contains-count id (i ∷ ids) = ground (arith, contains-count id ids)

-- How often a call is pending or among those answered.
abbrev tally : ℕ → Outcome → ℕ
tally id (c, es) = count id c.pending + count id (answers es)

-- A step that issues no id and answers what it takes out of `pending`.
abbrev Keeps : Channel → Outcome → Type 0
Keeps c o = (id : ℕ) → (tally id o ≡ count id c.pending) × (o.0.msg_id ≡ c.msg_id)

submit-Keeps : (r : Request) (c : Channel) → Keeps c (submit r c)
unfolding submit send_invoke
submit-Keeps r c id = ground arith

timed_out-Keeps : (j : ℕ) (c : Channel) → count j c.pending ≡ 1 → Keeps c (timed_out j c)
unfolding timed_out
timed_out-Keeps j c h id = ground (arith, count-without id j c.pending)

drain_sends-Keeps : (rs : List Request) (c : Channel) → Keeps c (drain_sends rs c)
unfolding drain_sends send_invoke
drain_sends-Keeps [] c id = ground arith
drain_sends-Keeps (r ∷ rs) c id = ground arith

drain_dispatches-Keeps : (rs : List Request) (c : Channel) → Keeps c (drain_dispatches rs c)
unfolding drain_dispatches dispatch_invoke
drain_dispatches-Keeps [] c id = ground arith
drain_dispatches-Keeps (r ∷ rs) c id = ground arith

handle_invoke-Keeps : (r : Request) (c : Channel) → Keeps c (handle_invoke r c)
unfolding handle_invoke dispatch_invoke
handle_invoke-Keeps r c id = ground arith

dispatch_finished-Keeps :
    (j : ℕ) (reply : Reply) (c : Channel) → Keeps c (dispatch_finished j reply c)
unfolding dispatch_finished drain_dispatch_queue
dispatch_finished-Keeps j reply c id =
    drain_dispatches-Keeps c.dispatch_queue
      (record c { active_dispatches = c.active_dispatches - 1 }) id

settle-Keeps :
    (j : ℕ) (reply : Reply) (c : Channel) → count j c.pending ≤ 1 → Keeps c (settle j reply c)
settle-Keeps j reply c h id =
    ground (arith, count-without id j c.pending, contains-count j c.pending)

then_settle-Keeps :
    (j : ℕ) (reply : Reply) (c : Channel) (o : Outcome)
    → Keeps c o
    → answers o.1 ≡ []
    → count j c.pending ≤ 1
    → Keeps c (then_settle j reply o)
then_settle-Keeps j reply c (c', es) k none_yet h id = ground (
  arith,
  k id,
  k j,
  settle-Keeps j reply c' (omega (arith, k j, ap (count j) none_yet)) id,
  answers-append es (settle j reply c').1,
)

answers-drain_sends : (rs : List Request) (c : Channel) → answers (drain_sends rs c).1 ≡ []
unfolding drain_sends send_invoke
answers-drain_sends [] c = refl
answers-drain_sends (r ∷ rs) c = ground arith

handle_reply-Keeps :
    (j : ℕ) (reply : Reply) (c : Channel) → count j c.pending ≤ 1 → Keeps c (handle_reply j reply c)
unfolding handle_reply drain_send_queue
handle_reply-Keeps j reply c h =
    let c' = record c { active_sends = c.active_sends - 1 } in
    then_settle-Keeps j reply c' (drain_sends c.send_queue c') (drain_sends-Keeps c.send_queue c')
      (answers-drain_sends c.send_queue c') h

answers-peer_gone :
    (ids : List ℕ) (c : Channel)
    → answers (map (λ id. answered id peer_gone) ids ++ closing c) ≡ ids
answers-peer_gone [] c = ground arith
answers-peer_gone (id ∷ ids) c = ap (λ l. id ∷ l) (answers-peer_gone ids c)

invalidate-Keeps : (c : Channel) → Keeps c (invalidate c)
unfolding invalidate
invalidate-Keeps c id = ground (arith, answers-peer_gone c.pending c)

-- A channel, and the ids of the calls whose callbacks have been called.
pub record Life : Type 0 where
  pub channel : Channel
  pub done : List ℕ

abbrev pub after : Life → Outcome → Life
after l (c, es) = record { channel = c; done = l.done ++ answers es }

-- What happens to a channel: a call, a timer of a pending call, a message, the end of a served
-- call, and its end, in any order.
pub data Step (l : Life) : Life → Type 0 where
  calling : (r : Request) → Step l (after l (invoke r l.channel))
  timing_out : (id : ℕ) → count id l.channel.pending ≡ 1 → Step l (after l (timed_out id l.channel))
  receiving : (m : Message) → Step l (after l (on_message m l.channel))
  finishing : (id : ℕ) (reply : Reply) → Step l (after l (dispatch_finished id reply l.channel))
  ending : Step l (after l (invalidate l.channel))

pub data Reach (c : Channel) : Life → Type 0 where
  start : Reach c (record { channel = c; done = [] })
  next : {l m : Life} → Reach c l → Step l m → Reach c m

-- Every id that was given out is pending or was answered, once in all; no other id is either.
pub record IsOnce (l : Life) : Type 0 where
  pub once :
      (id : ℕ)
      → count id l.channel.pending + count id l.done ≡ (if ltb id l.channel.msg_id then 1 else 0)

Keeps-IsOnce : (l : Life) (o : Outcome) → Keeps l.channel o → IsOnce l → IsOnce (after l o)
Keeps-IsOnce l (c, es) k v = record {
  once = λ id. ground (arith, k id, v.once id, count-append id l.done (answers es));
}

on_message-Keeps :
    (m : Message) (c : Channel) → ((id : ℕ) → count id c.pending ≤ 1) → Keeps c (on_message m c)
unfolding on_message
on_message-Keeps null_message c h id = ground arith
on_message-Keeps other_message c h id = ground arith
on_message-Keeps (peer_invoke r) c h id = handle_invoke-Keeps r c id
on_message-Keeps (peer_reply j reply) c h id = handle_reply-Keeps j reply c (h j) id

invoke-IsOnce : (r : Request) (l : Life) → IsOnce l → IsOnce (after l (invoke r l.channel))
unfolding invoke
invoke-IsOnce r l v = elim (Bool-cases l.channel.closed) [
  | inl gone ↦
      rw gone (record { once = λ id. ground (arith, v.once id, count-append id l.done []) })
  | inr there ↦
      let c = l.channel in
      let c' = record c { msg_id = c.msg_id + 1; pending = c.pending ++ c.msg_id ∷ [] } in
      let r' = record r { id = c.msg_id } in
      rw there (record {
        once = λ id. ground (
          arith,
          submit-Keeps r' c' id,
          v.once id,
          count-append id c.pending (c.msg_id ∷ []),
          count-append id l.done (answers (submit r' c').1),
        );
      })
]

pending-le-one : (l : Life) → IsOnce l → (id : ℕ) → count id l.channel.pending ≤ 1
pending-le-one l v id = ground (arith, v.once id)

Step-IsOnce : {l m : Life} → Step l m → IsOnce l → IsOnce m
Step-IsOnce {l} (calling r) v = invoke-IsOnce r l v
Step-IsOnce {l} (timing_out id h) v =
    Keeps-IsOnce l (timed_out id l.channel) (timed_out-Keeps id l.channel h) v
Step-IsOnce {l} (receiving m) v =
    Keeps-IsOnce l (on_message m l.channel) (on_message-Keeps m l.channel (pending-le-one l v)) v
Step-IsOnce {l} (finishing id reply) v =
    Keeps-IsOnce l (dispatch_finished id reply l.channel)
      (dispatch_finished-Keeps id reply l.channel) v
Step-IsOnce {l} ending v = Keeps-IsOnce l (invalidate l.channel) (invalidate-Keeps l.channel) v

-- Whatever happens to a new channel, in any order: each call that got an id is pending or had its
-- callback called, and this once in all; no callback is called for an id that was not given out.
pub Reach-IsOnce :
    {max : Option ℕ} {serves tells : Bool} {l : Life}
    → Reach (new_channel max serves tells) l
    → IsOnce l
Reach-IsOnce start = record { once = λ id. ground arith }
Reach-IsOnce (next r st) = Step-IsOnce st (Reach-IsOnce r)
