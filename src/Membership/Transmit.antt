-- ===== src/Membership/Transmit.antt =====
-- membership.go: composing a datagram and sending it.
pub mod Limit
pub mod Sound
pub mod Frame
pub mod Sent
use smudge.Prelude.{ℕ, Option, none, some, List, [], ◌∷◌, ◌++◌, ltb, if◌then◌else◌}
use smudge.Prelude.Outcome.{Outcome, ok, ◌>>=◌}
use smudge.Prelude.Maps.{insert}
use smudge.Cluster.{
  Cluster, Ref, Tag, Tag-discrete, PendingAck, pack_ping, pack_ping_req, Broadcast, MessageVerb,
  Datagram, status_forward_to, verb_ping, verb_ack, verb_ping_request, deref, assign, address_of,
  dec8, rank8, ping_request_count, as_size,
}
use smudge.NodeMap
use smudge.Registry.{get_random_updated_nodes}
use smudge.Broadcast.{get_broadcast_to_emit}
use smudge.Message
use smudge.Message.{Message, MessageMember, new_message, add_member, add_broadcast}
use smudge.Membership.{ack_key}

-- The errors of package net, and those of message.go and broadcast.go.
pub data Error : Type 0 where
  dial_failure write_failure : Error
  message_error : Message.Error → Error

-- `n.emitCounter--`.
unfoldable pub dec_emit_counter : Cluster → Ref → Cluster
dec_emit_counter c n =
    assign c n (record (deref c n) { emit_counter = dec8 (deref c n).emit_counter })

-- `if forwardTo != nil { msg.addMember(…) }`.
unfoldable pub add_forward_to : Cluster → Option Ref → ℕ → Message → Message
add_forward_to c none code msg = msg
add_forward_to c (some forward_to) code msg =
    (add_member msg forward_to status_forward_to code (deref c forward_to).status_source).0

-- The loop that adds the members, up to the first error.
unfoldable pub add_members_loop :
    Cluster → Message → List Ref → Cluster × Message × Option Message.Error
add_members_loop c msg [] = (c, msg, none)
add_members_loop c msg (n ∷ nodes) =
    let node = deref c n in
    let added = add_member msg n node.status node.heartbeat node.status_source in
    let rest = add_members_loop (dec_emit_counter c n) added.0 nodes in
    elim added.1 [ none ↦ rest | some e ↦ (c, added.0, some e) ]

-- The broadcast that rides along, while its counter is positive; and `broadcast.emitCounter--`.
unfoldable pub attach_broadcast : Cluster → Message → Option (Tag × Broadcast) → Cluster × Message
attach_broadcast c msg none = (c, msg)
attach_broadcast c msg (some (key, b)) = (
  record c {
    broadcasts =
        insert Tag-discrete key (record b { emit_counter = dec8 b.emit_counter }) c.broadcasts;
  },
  if ltb 128 (rank8 b.emit_counter) then add_broadcast msg b else msg,
)

unfoldable pub dec_members_loop : Cluster → List MessageMember → Cluster
dec_members_loop c [] = c
dec_members_loop c (m ∷ members) = dec_members_loop (dec_emit_counter c m.node) members

-- `c.Write(msg.encode())` and what follows it.
unfoldable pub send : Cluster → Ref → Message → Outcome (Cluster × Option Error)
send c node msg = do
  bytes ← Message.encode c msg
  let datagram : Datagram = record { to = address_of c node; payload = bytes }
  ok (
      if c.can_write (address_of c node)
      then (dec_members_loop (record c { sent = c.sent ++ (datagram ∷ []) }) msg.members, none)
      else (c, some write_failure))

-- The nodes to tell of: recently updated ones, or if there are none, any.
unfoldable pub choose_nodes : Cluster → (ℕ → ℕ) → ℕ → List Ref → Cluster × List Ref
choose_nodes c draw size exclude =
    let (c1, nodes) = get_random_updated_nodes c size exclude in
    (
      c1,
      elim nodes [
        | [] ↦ NodeMap.get_random_nodes c1 c1.known_nodes draw size exclude
        | n ∷ others ↦ n ∷ others
      ],
    )

-- What follows the loop, if it met no error.
unfoldable pub finish :
    Cluster → Ref → Message → Option Message.Error → Outcome (Cluster × Option Error)
finish c node msg (some e) = ok (c, some (message_error e))
finish c node msg none =
    let (c1, broadcast) = get_broadcast_to_emit c in
    let (c2, msg') = attach_broadcast c1 msg broadcast in send c2 node msg'

-- What follows the dial, for the number of nodes that pingRequestCount gives.
unfoldable pub compose :
    Cluster → (ℕ → ℕ) → Ref → Option Ref → MessageVerb → ℕ → ℕ → Outcome (Cluster × Option Error)
compose c draw node forward_to verb code size =
    let msg = add_forward_to c forward_to code (new_message verb (some c.this_host) code) in
    let (c1, nodes) = choose_nodes c draw size (node ∷ c.this_host ∷ []) in
    let (c2, msg', e) = add_members_loop c1 msg nodes in finish c2 node msg' e

unfoldable pub transmit_verb_generic_udp :
    Cluster → (ℕ → ℕ) → Ref → Option Ref → MessageVerb → ℕ → Outcome (Cluster × Option Error)
transmit_verb_generic_udp c draw node forward_to verb code =
    let dialled = (do
      size ← as_size (ping_request_count c)
      compose c draw node forward_to verb code size) in
    if c.can_dial (address_of c node) then dialled else ok (c, some dial_failure)

unfoldable pub await : Cluster → Tag → PendingAck → Cluster
await c key pack = record c { pending_acks = insert Tag-discrete key pack c.pending_acks }

unfoldable pub transmit_verb_forward_udp :
    Cluster → (ℕ → ℕ) → Ref → Ref → ℕ → Outcome (Cluster × Option Error)
transmit_verb_forward_udp c draw node downstream code =
    let pack : PendingAck = record {
      start_time = c.now;
      node = node;
      callback = some downstream;
      callback_code = 0;
      pack_type = pack_ping_req;
    } in
    transmit_verb_generic_udp (await c (ack_key c node code) pack) draw node (some downstream)
      verb_ping_request code

unfoldable pub transmit_verb_ack_udp :
    Cluster → (ℕ → ℕ) → Ref → ℕ → Outcome (Cluster × Option Error)
transmit_verb_ack_udp c draw node code = transmit_verb_generic_udp c draw node none verb_ack code

unfoldable pub transmit_verb_ping_udp :
    Cluster → (ℕ → ℕ) → Ref → ℕ → Outcome (Cluster × Option Error)
transmit_verb_ping_udp c draw node code =
    let pack : PendingAck = record {
      start_time = c.now;
      node = node;
      callback = none;
      callback_code = 0;
      pack_type = pack_ping;
    } in
    transmit_verb_generic_udp (await c (ack_key c node code) pack) draw node none verb_ping code

unfoldable pub ping_node : Cluster → (ℕ → ℕ) → Ref → Outcome (Cluster × Option Error)
ping_node c draw node = transmit_verb_ping_udp c draw node c.current_heartbeat
