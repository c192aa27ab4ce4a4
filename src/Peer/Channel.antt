-- ===== src/Peer/Channel.antt =====
-- lib/peer-channel.js: one end of a channel between two workers. What a method does outside the
-- object (a message on the port, a call of a callback) is an effect in the list that it returns. A
-- callback and its timer are named by the id of their request; the timer is set exactly while the
-- request is in `pending`, so it goes off only then. The message of an error of the program's own is
-- written as its code.
pub mod Once
pub mod Capacity
pub mod Flow
use countinghouse.Prelude.{
  ℕ, ◌+◌, ◌-◌, String, Bool, true, false, not, List, [], ◌∷◌, ◌++◌, Option, none, some, map, keep,
  contains, leb, ◌==◌, ℕ_eq, string_eq, if◌then◌else◌,
}

pub record Request : Type 0 where
  pub id : ℕ
  pub device_id : String
  pub service_id : String
  pub action_name : String
  pub input : String
  pub billing_key : Option String

-- The payload of a `peer-reply`.
pub record Reply : Type 0 where
  pub err_msg : Option String
  pub err_code : Option String
  pub result : Option String
  pub metering : Option String

-- What the callback of `invoke` is called with.
pub data Answer : Type 0 where
  peer_gone peer_channel_timeout : Answer
  remote_error : String → Option String → Option String → Answer
  answer : Option String → Option String → Answer

pub data Effect : Type 0 where
  post_invoke : Request → Effect
  post_reply : ℕ → Reply → Effect
  -- `onInvoke` is called
  dispatched : Request → Effect
  answered : ℕ → Answer → Effect
  -- the callback of a call that got no id
  refused : Answer → Effect
  port_closed closed_callback : Effect

pub data Message : Type 0 where
  null_message other_message : Message
  peer_invoke : Request → Message
  peer_reply : ℕ → Reply → Message

pub record Channel : Type 0 where
  pub max_concurrent : Option ℕ
  pub has_on_invoke : Bool
  pub has_on_close : Bool
  pub active_sends : ℕ
  pub send_queue : List Request
  pub active_dispatches : ℕ
  pub dispatch_queue : List Request
  pub msg_id : ℕ
  pub pending : List ℕ
  pub closed : Bool

abbrev pub new_channel : Option ℕ → Bool → Bool → Channel
new_channel max_concurrent has_on_invoke has_on_close = record {
  max_concurrent = max_concurrent;
  has_on_invoke = has_on_invoke;
  has_on_close = has_on_close;
  active_sends = 0;
  send_queue = [];
  active_dispatches = 0;
  dispatch_queue = [];
  msg_id = 0;
  pending = [];
  closed = false;
}

abbrev pub Outcome : Type 0
Outcome = Channel × List Effect

abbrev pub also : List Effect → Outcome → Outcome
also es (c, more) = (c, es ++ more)

-- `this.maxConcurrentInvokes != null && active >= this.maxConcurrentInvokes`
abbrev pub at_capacity : Option ℕ → ℕ → Bool
at_capacity none active = false
at_capacity (some m) active = leb m active

-- `delete this.pending[id]`
abbrev pub without : ℕ → List ℕ → List ℕ
without id ids = keep (λ j. not (j == id)) ids

unfoldable pub send_invoke : Request → Channel → Outcome
send_invoke r c = (record c { active_sends = c.active_sends + 1 }, post_invoke r ∷ [])

-- `invoke`, once the request has its id and its timer is set.
unfoldable pub submit : Request → Channel → Outcome
submit r c =
    if at_capacity c.max_concurrent c.active_sends
    then (record c { send_queue = c.send_queue ++ r ∷ [] }, [])
    else send_invoke r c

-- The id in the argument is not read: the channel gives the request its own.
unfoldable pub invoke : Request → Channel → Outcome
invoke r c =
    if c.closed
    then (c, refused peer_gone ∷ [])
    else submit (record r { id = c.msg_id })
        (record c { msg_id = c.msg_id + 1; pending = c.pending ++ c.msg_id ∷ [] })

-- The timer of a pending request goes off.
unfoldable pub timed_out : ℕ → Channel → Outcome
timed_out id c = (
  record c {
    pending = without id c.pending;
    send_queue = keep (λ r. not (r.id == id)) c.send_queue;
  },
  answered id peer_channel_timeout ∷ [],
)

drain_sends : List Request → Channel → Outcome
drain_sends [] c = (c, [])
drain_sends (r ∷ rs) c =
    if at_capacity c.max_concurrent c.active_sends
    then (c, [])
    else send_invoke r (record c { send_queue = rs })

unfoldable pub drain_send_queue : Channel → Outcome
unfolding drain_sends
drain_send_queue c = drain_sends c.send_queue c

unfoldable pub dispatch_invoke : Request → Channel → Outcome
dispatch_invoke r c = (record c { active_dispatches = c.active_dispatches + 1 }, dispatched r ∷ [])

abbrev pub no_handler : Reply
no_handler = record {
  err_msg = some "PEER_NO_HANDLER";
  err_code = some "PEER_NO_HANDLER";
  result = none;
  metering = none;
}

unfoldable pub handle_invoke : Request → Channel → Outcome
handle_invoke r c =
    if not c.has_on_invoke
    then (c, post_reply r.id no_handler ∷ [])
    else if at_capacity c.max_concurrent c.active_dispatches
    then (record c { dispatch_queue = c.dispatch_queue ++ r ∷ [] }, [])
    else dispatch_invoke r c

drain_dispatches : List Request → Channel → Outcome
drain_dispatches [] c = (c, [])
drain_dispatches (r ∷ rs) c =
    if at_capacity c.max_concurrent c.active_dispatches
    then (c, [])
    else dispatch_invoke r (record c { dispatch_queue = rs })

unfoldable pub drain_dispatch_queue : Channel → Outcome
unfolding drain_dispatches
drain_dispatch_queue c = drain_dispatches c.dispatch_queue c

-- The callback that `_dispatchInvoke` hands to `onInvoke`, called for the request with that id.
unfoldable pub dispatch_finished : ℕ → Reply → Channel → Outcome
dispatch_finished id reply c =
    also (post_reply id reply ∷ [])
      (drain_dispatch_queue (record c { active_dispatches = c.active_dispatches - 1 }))

abbrev pub answer_of : Reply → Answer
answer_of reply = elim reply.err_msg [
  | some msg ↦ remote_error msg reply.err_code reply.result
  | none ↦ answer reply.result reply.metering
]

abbrev pub settle : ℕ → Reply → Channel → Outcome
settle id reply c =
    if contains id c.pending
    then (record c { pending = without id c.pending }, answered id (answer_of reply) ∷ [])
    else (c, [])

abbrev pub then_settle : ℕ → Reply → Outcome → Outcome
then_settle id reply (c, es) = also es (settle id reply c)

-- `activeSends--` is made once for each request that was sent, so it does not pass 0.
unfoldable pub handle_reply : ℕ → Reply → Channel → Outcome
handle_reply id reply c =
    then_settle id reply (drain_send_queue (record c { active_sends = c.active_sends - 1 }))

unfoldable pub on_message : Message → Channel → Outcome
on_message null_message c = (c, [])
on_message other_message c = (c, [])
on_message (peer_invoke r) c = handle_invoke r c
on_message (peer_reply id reply) c = handle_reply id reply c

abbrev pub closing : Channel → List Effect
closing c = if c.has_on_close then port_closed ∷ closed_callback ∷ [] else port_closed ∷ []

unfoldable pub invalidate : Channel → Outcome
invalidate c = if c.closed then (c, []) else (
  record c { closed = true; pending = []; send_queue = []; dispatch_queue = [] },
  map (λ id. answered id peer_gone) c.pending ++ closing c,
)

-- `PeerChannel.finishMeteredHop`: what the hop replies with, given the error of its metering.
pub data Hop : Type 0 where
  denied : String → Hop
  served : Option String → Option String → Hop

unfoldable pub finish_metered_hop : Option (Option String) → Option String → Option String → Hop
finish_metered_hop none hop_result metering = served hop_result metering
finish_metered_hop (some none) hop_result metering = served hop_result metering
finish_metered_hop (some (some code)) hop_result metering =
    if code == "RATE_LIMITED" then denied code else served hop_result metering
