-- ===== src/Membership/Receive.antt =====
-- membership.go: what a received datagram does.
pub mod Unguarded
pub mod Sound
use smudge.Prelude.{
  ℕ, ◌+◌, ◌-◌, ◌%◌, ◌^◌, Bool, true, false, ◌&&◌, Option, none, some, List, [], ◌∷◌, ◌++◌, ltb,
  ◌==◌, if◌then◌else◌,
}
use smudge.Prelude.Outcome.{Outcome, ok, panic, ◌>>=◌, or_panic}
use smudge.Prelude.Maps.{lookup, remove}
use smudge.Net.{Ip}
use smudge.Wire.{Slice}
use smudge.PingData
use smudge.Cluster.{
  Cluster, Node, Ref, Tag, Tag-discrete, PendingAck, pack_nfp, measured, Task, transmit_ack,
  status_forward_to, verb_ping, verb_ack, verb_ping_request, verb_non_forwarding_ping, deref,
  assign, touch,
}
use smudge.Broadcast.{receive_broadcast}
use smudge.Message.{Message, MessageMember, decode_message}
use smudge.Membership.{ack_key, elapsed, update_statuses_from_message}
use smudge.Membership.Transmit.{
  Error, message_error, await, transmit_verb_generic_udp, transmit_verb_ack_udp,
}

unfoldable pub set_ping_millis : Cluster → Ref → ℕ → Cluster
set_ping_millis c node millis =
    assign c node (record (deref c node) { ping_millis = measured millis })

unfoldable pub note_ping_response_time : Cluster → PendingAck → Outcome Cluster
note_ping_response_time c pack = do
  let millis = elapsed c pack
  let min_millis = c.min_ping_time % 2 ^ 32
  pd ← PingData.add c.pingdata (if ltb millis min_millis then min_millis else millis)
  ok (record (set_ping_millis c pack.node millis) { pingdata = PingData.refresh pd })

unfoldable pub spawn : Cluster → Task → Cluster
spawn c task = record c { tasks = c.tasks ++ (task ∷ []) }

-- The answer to a ping that was asked for goes on to the one who asked.
unfoldable pub settle : Cluster → PendingAck → Option Ref → Outcome Cluster
settle c pack (some callback) = ok (spawn c (transmit_ack callback pack.callback_code))
settle c pack none = note_ping_response_time c pack

unfoldable pub take_ack : Cluster → Tag → Ref → Option PendingAck → Outcome Cluster
take_ack c key sender none = ok c
take_ack c key sender (some pack) = do
  c1 ← settle (touch c sender) pack pack.callback
  ok (record c1 { pending_acks = remove Tag-discrete key c1.pending_acks })

unfoldable pub receive_verb_ack_udp : Cluster → Message → Outcome (Cluster × Option Error)
receive_verb_ack_udp c msg = do
  sender ← or_panic msg.sender
  let key = ack_key c sender msg.sender_heartbeat
  c' ← take_ack c key sender (lookup Tag-discrete key c.pending_acks)
  ok (c', none)

-- `msg.members[0]` panics on a message without members: the test `len(msg.members) >= 0` before it
-- always holds.
unfoldable pub receive_verb_forward_udp :
    Cluster → (ℕ → ℕ) → Message → List MessageMember → Outcome (Cluster × Option Error)
receive_verb_forward_udp c draw msg [] = panic
receive_verb_forward_udp c draw msg (member ∷ members) =
    let pack : PendingAck = record {
      start_time = c.now;
      node = member.node;
      callback = msg.sender;
      callback_code = member.heartbeat;
      pack_type = pack_nfp;
    } in
    if member.status == status_forward_to
    then transmit_verb_generic_udp (await c (ack_key c member.node member.heartbeat) pack) draw
        member.node none verb_non_forwarding_ping member.heartbeat
    else ok (c, none)

unfoldable pub receive_verb_ping_udp :
    Cluster → (ℕ → ℕ) → Message → Outcome (Cluster × Option Error)
receive_verb_ping_udp c draw msg = do
  sender ← or_panic msg.sender
  transmit_verb_ack_udp c draw sender msg.sender_heartbeat

unfoldable pub receive_verb_non_forward_ping_udp :
    Cluster → (ℕ → ℕ) → Message → Outcome (Cluster × Option Error)
receive_verb_non_forward_ping_udp c draw msg = do
  sender ← or_panic msg.sender
  transmit_verb_ack_udp c draw sender msg.sender_heartbeat

-- The heartbeat catches up with the sender's.
unfoldable pub synchronize : Cluster → ℕ → Cluster
synchronize c heartbeat =
    if ltb 0 heartbeat && ltb c.current_heartbeat (heartbeat - 1)
    then record c { current_heartbeat = heartbeat - 1 }
    else c

unfoldable pub handle_verb : Cluster → (ℕ → ℕ) → Message → Outcome (Cluster × Option Error)
handle_verb c draw msg =
    if msg.verb == verb_ping
    then receive_verb_ping_udp c draw msg
    else (if msg.verb == verb_ack
        then receive_verb_ack_udp c msg
        else (if msg.verb == verb_ping_request
            then receive_verb_forward_udp c draw msg msg.members
            else (if msg.verb == verb_non_forwarding_ping
                then receive_verb_non_forward_ping_udp c draw msg
                else ok (c, none))))

unfoldable pub handle_message : Cluster → (ℕ → ℕ) → Message → Outcome (Cluster × Option Error)
handle_message c draw msg = do
  c1 ← update_statuses_from_message (synchronize c msg.sender_heartbeat) msg
  c2 ← receive_broadcast c1 msg.broadcast
  handle_verb c2 draw msg

unfoldable pub receive_message_udp :
    Cluster → (ℕ → ℕ) → Ip → Slice → Outcome (Cluster × Option Error)
receive_message_udp c draw source_ip bytes = do
  (c', msg, e) ← decode_message c source_ip bytes
  elim e [ none ↦ handle_message c' draw msg | some fault ↦ ok (c', some (message_error fault)) ]
