-- ===== src/Membership/Receive/Sound.antt =====
-- membership.go: what a datagram may do to the state.
use smudge.Prelude.{
  ℕ, refl, sym, subst, Option, none, some, List, [], ◌∷◌, Bool-cases, inl, inr, length, ltb, ◌==◌,
}
use smudge.Prelude.Outcome.{ok, or_panic, Ends, Ends-bind, Ends-weaken, Any, or_panic-Ends}
use smudge.Prelude.Maps.{lookup, has_key, remove}
use smudge.Net.{Ip}
use smudge.Wire.{Slice}
use smudge.PingData
use smudge.Events.{do_broadcast_update}
use smudge.Broadcast.{Error, accept, unless, receive_broadcast, check_origin, label}
use smudge.Cluster.{
  Cluster, Ref, Tag, Tag-discrete, Task, transmit_ack, pack_nfp, Broadcast, PendingAck, address,
  touch, status_forward_to, verb_ping, verb_ack, verb_ping_request, verb_non_forwarding_ping,
}
use smudge.Registry.WellFormed.{IsWellFormed, Sound, Sound-refl, Sound-then, maps-Sound}
use smudge.Registry.Duties.{
  CallbackOk, AckOk-mono, AcksOk-remove, AcksOk-lookup, FoundOk, TaskOk, TasksOk-append,
}
use smudge.Registry.Edits.{keep-Sound, touch_any-Sound}
use smudge.Message.{Message, MessageMember, decode_message}
use smudge.Message
use smudge.Message.Rounds.{check_origin-Ends}
use smudge.Message.Sound.{NodesExist, Decoded, decode_message-Decoded, MembersLt, NodesExist-Grows}
use smudge.Membership.{ack_key, elapsed, update_statuses_from_message}
use smudge.Membership.Statuses.{update_statuses_from_message-returns}
use smudge.Membership.Transmit.{message_error}
use smudge.Membership.Transmit.Sound.{Sends, other-Sound, await-Sends, transmit_verb_ack_udp-Sends}
use smudge.Membership.Receive.Unguarded.{synchronize-Sound}
use smudge.Membership.Receive.{
  set_ping_millis, note_ping_response_time, spawn, settle, take_ack, receive_verb_ack_udp,
  receive_verb_forward_udp, receive_verb_ping_udp, receive_verb_non_forward_ping_udp, synchronize,
  handle_verb, handle_message, receive_message_udp,
}

accept-Sound : (c : Cluster) (b : Broadcast) → IsWellFormed c → Sound c (accept c b)
unfolding accept do_broadcast_update
accept-Sound c b w = elim (Bool-cases (has_key Tag-discrete (label c b) c.broadcasts)) [
  | inl old ↦ rw old (Sound-refl c w)
  | inr new ↦ rw new (other-Sound c _ refl refl refl refl refl refl refl w)
]

unless-Sound :
    (c c' : Cluster) (fault : Option Error)
    → IsWellFormed c
    → Sound c c'
    → Sound c (unless fault c c')
unless-Sound c c' (some e) w s = Sound-refl c w
unless-Sound c c' none w s = s

receive_broadcast-Sound :
    (c : Cluster) (b : Option Broadcast) → IsWellFormed c → Ends (Sound c) (receive_broadcast c b)
unfolding receive_broadcast
receive_broadcast-Sound c none w = Sound-refl c w
receive_broadcast-Sound c (some b) w =
    Ends-bind Any (Sound c) (check_origin c b.origin) _ (check_origin-Ends c b.origin)
      (λ fault _. unless-Sound c (accept c b) fault w (accept-Sound c b w))

set_ping_millis-Sound :
    (c : Cluster) (r : Ref) (millis : ℕ) → IsWellFormed c → Sound c (set_ping_millis c r millis)
unfolding set_ping_millis address
set_ping_millis-Sound c r millis w = keep-Sound c r _ refl refl refl w

note_ping_response_time-Sound :
    (c : Cluster) (pack : PendingAck)
    → IsWellFormed c
    → Ends (Sound c) (note_ping_response_time c pack)
unfolding note_ping_response_time PingData.add
note_ping_response_time-Sound c pack w =
    elim (Bool-cases (ltb c.pingdata.pointer (length c.pingdata.pings))) [
      | inl inside ↦ rw inside (
          Sound-then c (set_ping_millis c pack.node (elapsed c pack)) _
            (set_ping_millis-Sound c pack.node (elapsed c pack) w)
            (λ w1. other-Sound _ _ refl refl refl refl refl refl refl w1))
      | inr outside ↦ rw outside tt
    ]

pub spawn-Sound :
    (c : Cluster) (task : Task)
    → TaskOk (length c.heap) task
    → IsWellFormed c
    → Sound c (spawn c task)
unfolding spawn
spawn-Sound c task fits w =
    maps-Sound c _ refl refl refl w.known w.updated w.known_distinct w.updated_distinct w.acks
      (TasksOk-append (length c.heap) c.tasks task w.duties fits) w

-- An ack leaves the map of those that are awaited.
pub drop_ack-Sound :
    (c : Cluster) (key : Tag)
    → IsWellFormed c
    → Sound c (record c { pending_acks = remove Tag-discrete key c.pending_acks })
drop_ack-Sound c key w =
    maps-Sound c _ refl refl refl w.known w.updated w.known_distinct w.updated_distinct
      (AcksOk-remove (length c.heap) key c.pending_acks w.acks) w.duties w

settle-Sound :
    (c : Cluster) (pack : PendingAck) (callback : Option Ref)
    → CallbackOk (length c.heap) pack.pack_type callback
    → IsWellFormed c
    → Ends (Sound c) (settle c pack callback)
unfolding settle
settle-Sound c pack (some r) fits w = spawn-Sound c (transmit_ack r pack.callback_code) fits w
settle-Sound c pack none fits w = note_ping_response_time-Sound c pack w

take_ack-Sound :
    (c : Cluster) (key : Tag) (sender : Ref) (found : Option PendingAck)
    → FoundOk (length c.heap) key found
    → IsWellFormed c
    → Ends (Sound c) (take_ack c key sender found)
unfolding take_ack
take_ack-Sound c key sender none fits w = Sound-refl c w
take_ack-Sound c key sender (some pack) fits w =
    let touched = touch_any-Sound c sender w in
    let fits' = AckOk-mono (length c.heap) _ pack touched.grows.longer fits in
    Ends-bind (Sound (touch c sender)) (Sound c) (settle (touch c sender) pack pack.callback) _
      (settle-Sound (touch c sender) pack pack.callback fits'.1 touched.well_formed)
      (λ c1 s1.
        Sound-then c (touch c sender) _ touched
          (λ _. Sound-then (touch c sender) c1 _ s1 (λ w1. drop_ack-Sound c1 key w1)))

receive_verb_ack_udp-Sends :
    (c : Cluster) (msg : Message) → IsWellFormed c → Sends c (receive_verb_ack_udp c msg)
unfolding receive_verb_ack_udp
receive_verb_ack_udp-Sends c msg w =
    Ends-bind Any _ (or_panic msg.sender) _ (or_panic-Ends msg.sender) (λ sender _.
      let key = ack_key c sender msg.sender_heartbeat in
      let found = lookup Tag-discrete key c.pending_acks in
      Ends-bind (Sound c) _ (take_ack c key sender found) _
        (take_ack-Sound c key sender found (AcksOk-lookup (length c.heap) key c.pending_acks w.acks)
          w)
        (λ c' s. s))

receive_verb_forward_udp-Sends :
    (c : Cluster) (draw : ℕ → ℕ) (msg : Message) (members : List MessageMember)
    → CallbackOk (length c.heap) pack_nfp msg.sender
    → MembersLt c members
    → IsWellFormed c
    → Sends c (receive_verb_forward_udp c draw msg members)
unfolding receive_verb_forward_udp
receive_verb_forward_udp-Sends c draw msg [] from inside w = tt
receive_verb_forward_udp-Sends c draw msg (m ∷ members) from inside w =
    elim (Bool-cases (m.status == status_forward_to)) [
      | inl forward ↦ rw forward (
          await-Sends c (ack_key c m.node m.heartbeat) _ draw m.node none verb_non_forwarding_ping
            m.heartbeat (inside.0, from) w)
      | inr other ↦ rw other (Sound-refl c w)
    ]

receive_verb_ping_udp-Sends :
    (c : Cluster) (draw : ℕ → ℕ) (msg : Message)
    → IsWellFormed c
    → Sends c (receive_verb_ping_udp c draw msg)
unfolding receive_verb_ping_udp
receive_verb_ping_udp-Sends c draw msg w =
    Ends-bind Any _ (or_panic msg.sender) _ (or_panic-Ends msg.sender)
      (λ sender _. transmit_verb_ack_udp-Sends c draw sender msg.sender_heartbeat w)

receive_verb_non_forward_ping_udp-Sends :
    (c : Cluster) (draw : ℕ → ℕ) (msg : Message)
    → IsWellFormed c
    → Sends c (receive_verb_non_forward_ping_udp c draw msg)
unfolding receive_verb_non_forward_ping_udp
receive_verb_non_forward_ping_udp-Sends c draw msg w =
    Ends-bind Any _ (or_panic msg.sender) _ (or_panic-Ends msg.sender)
      (λ sender _. transmit_verb_ack_udp-Sends c draw sender msg.sender_heartbeat w)

sender_fits :
    (c : Cluster) (msg : Message)
    → NodesExist c msg
    → CallbackOk (length c.heap) pack_nfp msg.sender
sender_fits c msg exist = subst (CallbackOk (length c.heap) pack_nfp) (sym exist.1) exist.2

handle_verb-Sends :
    (c : Cluster) (draw : ℕ → ℕ) (msg : Message)
    → NodesExist c msg
    → IsWellFormed c
    → Sends c (handle_verb c draw msg)
unfolding handle_verb
handle_verb-Sends c draw msg exist w = elim (Bool-cases (msg.verb == verb_ping)) [
  | inl ping ↦ rw ping (receive_verb_ping_udp-Sends c draw msg w)
  | inr not_ping ↦ elim (Bool-cases (msg.verb == verb_ack)) [
    | inl ack ↦ rw (not_ping, ack) (receive_verb_ack_udp-Sends c msg w)
    | inr not_ack ↦ elim (Bool-cases (msg.verb == verb_ping_request)) [
      | inl request ↦
          rw (not_ping, not_ack, request)
            (receive_verb_forward_udp-Sends c draw msg msg.members (sender_fits c msg exist) exist.3
              w)
      | inr not_request ↦ elim (Bool-cases (msg.verb == verb_non_forwarding_ping)) [
        | inl nfp ↦
            rw (not_ping, not_ack, not_request, nfp)
              (receive_verb_non_forward_ping_udp-Sends c draw msg w)
        | inr unknown ↦ rw (not_ping, not_ack, not_request, unknown) (Sound-refl c w)
      ]
    ]
  ]
]

pub update_statuses_from_message-Ends :
    (c : Cluster) (msg : Message)
    → NodesExist c msg
    → IsWellFormed c
    → Ends (Sound c) (update_statuses_from_message c msg)
update_statuses_from_message-Ends c msg (sender, found, inside, members) w =
    let (c', e, a) = update_statuses_from_message-returns c msg sender found inside members w in
    subst (Ends (Sound c)) (sym e) a.sound

handle_message-Sends :
    (c : Cluster) (draw : ℕ → ℕ) (msg : Message)
    → NodesExist c msg
    → IsWellFormed c
    → Sends c (handle_message c draw msg)
unfolding handle_message
handle_message-Sends c draw msg exist w =
    let c0 = synchronize c msg.sender_heartbeat in
    let s0 = synchronize-Sound c msg.sender_heartbeat w in
    let exist0 = NodesExist-Grows c c0 msg s0.grows exist in
    Ends-bind (Sound c0) _ (update_statuses_from_message c0 msg) _
      (update_statuses_from_message-Ends c0 msg exist0 s0.well_formed)
      (λ c1 s1.
        Ends-bind (Sound c1) _ (receive_broadcast c1 msg.broadcast) _
          (receive_broadcast-Sound c1 msg.broadcast s1.well_formed)
          (λ c2 s2.
            let exist2 =
              NodesExist-Grows c1 c2 msg s2.grows (NodesExist-Grows c0 c1 msg s1.grows exist0) in
            Ends-weaken (λ t. Sound c2 t.0) _ (handle_verb c2 draw msg)
              (λ t s3.
                Sound-then c c0 _ s0
                  (λ _. Sound-then c0 c1 _ s1 (λ _. Sound-then c1 c2 _ s2 (λ _. s3))))
              (handle_verb-Sends c2 draw msg exist2 s2.well_formed)))

-- Whatever bytes come from whatever address, receiveMessageUDP returns or panics, and it is never
-- stuck in a loop; if it returns, with an error or without, a state that was well-formed is still,
-- no node has changed its address and none has lost heartbeat.
pub receive_message_udp-Sends :
    (c : Cluster) (draw : ℕ → ℕ) (source_ip : Ip) (bytes : Slice)
    → IsWellFormed c
    → Sends c (receive_message_udp c draw source_ip bytes)
unfolding receive_message_udp
receive_message_udp-Sends c draw source_ip bytes w =
    Ends-bind (Decoded c) _ (decode_message c source_ip bytes) _
      (decode_message-Decoded c source_ip bytes w) (λ t d. handle_decoded t.0 t.1 t.2 d)
  where
    handle_decoded :
        (c' : Cluster) (msg : Message) (e : Option Message.Error)
        → Decoded c (c', msg, e)
        → Sends c (elim e [
          | none ↦ handle_message c' draw msg
          | some fault ↦ ok (c', some (message_error fault))
        ])
    handle_decoded c' msg none d =
        Ends-weaken (λ t. Sound c' t.0) (λ t. Sound c t.0) (handle_message c' draw msg)
          (λ t s. Sound-then c c' t.0 d.0 (λ _. s))
          (handle_message-Sends c' draw msg (d.1 refl) d.0.well_formed)
    handle_decoded c' msg (some fault) d = d.0
