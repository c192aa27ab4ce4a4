-- ===== src/Examples/Channels.antt =====
-- Two calls on a channel of lib/peer-channel.js that sends one at a time.
use countinghouse.Prelude.{refl, ℕ_eq, true, [], none, some}
use countinghouse.Peer.Channel.{
  Channel, new_channel, Request, Reply, peer_reply, invoke, on_message, invalidate, handle_reply,
  submit, send_invoke,
}
use countinghouse.Peer.Channel.Once
use countinghouse.Peer.Channel.Flow

abbrev call : Request
call = record {
  id = 0;
  device_id = "lamp";
  service_id = "urn:light";
  action_name = "on";
  input = "{}";
  billing_key = none;
}

abbrev reply : Reply
reply = record { err_msg = none; err_code = none; result = some "ok"; metering = none }

abbrev opened : Channel
opened = new_channel (some 1) true true

-- Called twice, answered once, and ended.
abbrev opened_life : Once.Life
opened_life = record { channel = opened; done = [] }

abbrev called : Once.Life
called = Once.after opened_life (invoke call opened)

abbrev twice : Once.Life
twice = Once.after called (invoke call called.channel)

abbrev replied : Once.Life
replied = Once.after twice (on_message (peer_reply 0 reply) twice.channel)

abbrev ended : Once.Life
ended = Once.after replied (invalidate replied.channel)

ended-Reach : Once.Reach opened ended
ended-Reach =
    Once.next
      (Once.next (Once.next (Once.next Once.start (Once.calling call)) (Once.calling call))
        (Once.receiving (peer_reply 0 reply)))
      Once.ending

Reach-IsOnce_example : Once.IsOnce ended
Reach-IsOnce_example = Once.Reach-IsOnce ended-Reach

-- The same calls, and the reply to the first, which sends the second.
abbrev first_sent : Flow.Traffic
first_sent = Flow.after [] [] (invoke call opened)

abbrev second_waits : Flow.Traffic
second_waits = Flow.after first_sent.in_flight [] (invoke call first_sent.channel)

abbrev second_sent : Flow.Traffic
second_sent = Flow.after [] [] (handle_reply 0 reply second_waits.channel)

second_sent-Reach : Flow.Reach opened second_sent
unfolding invoke submit send_invoke
second_sent-Reach =
    Flow.next (Flow.next (Flow.next Flow.start (Flow.calling call)) (Flow.calling call))
      (Flow.replying [] [] call reply refl)

Reach-IsFlowing_example : Flow.IsFlowing second_sent
Reach-IsFlowing_example = Flow.Reach-IsFlowing second_sent-Reach
