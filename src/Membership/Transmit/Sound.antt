-- ===== src/Membership/Transmit/Sound.antt =====
-- membership.go: sending keeps the state well-formed.
use smudge.Prelude.{ℕ, ◌≡◌, refl, Option, none, some, List, [], ◌∷◌, Bool-cases, inl, inr, length}
use smudge.Prelude.Outcome.{Outcome, Ends, Ends-bind, Ends-weaken, Any}
use smudge.Broadcast.{get_broadcast_to_emit}
use smudge.Cluster.{
  Cluster, Ref, Tag, Broadcast, PendingAck, MessageVerb, deref, address, address_of,
  ping_request_count, as_size,
}
use smudge.Registry.WellFormed.{IsWellFormed, Sound, Sound-refl, Sound-then, maps-Sound}
use smudge.Registry.Duties.{AckOk, AcksOk-insert}
use smudge.Cluster.Heap.{as_size-Ends}
use smudge.Registry.Edits.{keep-Sound, get_random_updated_nodes-Sound}
use smudge.Message
use smudge.Message.{Message, MessageMember, add_member, new_message}
use smudge.Message.Written.{encode-Ends}
use smudge.Membership.Transmit.{
  Error, dec_emit_counter, add_members_loop, attach_broadcast, dec_members_loop, send, choose_nodes,
  finish, await, compose, transmit_verb_generic_udp, transmit_verb_ack_udp, add_forward_to,
}

-- A step that changes none of the nodes, nor the maps of nodes.
pub other-Sound :
    (c c' : Cluster)
    → c'.heap ≡ c.heap
    → c'.env ≡ c.env
    → c'.this_host ≡ c.this_host
    → c'.known_nodes ≡ c.known_nodes
    → c'.updated_nodes ≡ c.updated_nodes
    → c'.pending_acks ≡ c.pending_acks
    → c'.tasks ≡ c.tasks
    → IsWellFormed c
    → Sound c c'
other-Sound c c' h e t k u pend spawned w =
    maps-Sound c c' h e t (rw k w.known) (rw u w.updated) (rw k w.known_distinct)
      (rw u w.updated_distinct) (rw pend w.acks) (rw spawned w.duties) w

dec_emit_counter-Sound : (c : Cluster) (r : Ref) → IsWellFormed c → Sound c (dec_emit_counter c r)
unfolding dec_emit_counter address
dec_emit_counter-Sound c r w = keep-Sound c r _ refl refl refl w

add_members_loop-Sound :
    (nodes : List Ref) (c : Cluster) (msg : Message)
    → IsWellFormed c
    → Sound c (add_members_loop c msg nodes).0
unfolding add_members_loop
add_members_loop-Sound [] c msg w = Sound-refl c w
add_members_loop-Sound (n ∷ nodes) c msg w =
    by_error (add_member msg n (deref c n).status (deref c n).heartbeat (deref c n).status_source).1
      (Sound-then c (dec_emit_counter c n) _ (dec_emit_counter-Sound c n w)
        (λ w1. add_members_loop-Sound nodes (dec_emit_counter c n) msg' w1))
  where
    msg' : Message
    msg' = (add_member msg n (deref c n).status (deref c n).heartbeat (deref c n).status_source).0

    by_error :
        (e : Option Message.Error)
        → Sound c (add_members_loop (dec_emit_counter c n) msg' nodes).0
        → Sound c
            (elim e as (λ _. Cluster × Message × Option Message.Error) [
              | none ↦ add_members_loop (dec_emit_counter c n) msg' nodes
              | some f ↦ (c, msg', some f)
            ]).0
    by_error none later = later
    by_error (some f) later = Sound-refl c w

dec_members_loop-Sound :
    (ms : List MessageMember) (c : Cluster) → IsWellFormed c → Sound c (dec_members_loop c ms)
unfolding dec_members_loop
dec_members_loop-Sound [] c w = Sound-refl c w
dec_members_loop-Sound (m ∷ ms) c w =
    Sound-then c (dec_emit_counter c m.node) _ (dec_emit_counter-Sound c m.node w)
      (λ w1. dec_members_loop-Sound ms (dec_emit_counter c m.node) w1)

-- What a call of transmission comes to.
abbrev pub Sends : Cluster → Outcome (Cluster × Option Error) → Type 0
Sends c o = Ends (λ t. Sound c t.0) o

attach_broadcast-Sound :
    (c : Cluster) (msg : Message) (b : Option (Tag × Broadcast))
    → IsWellFormed c
    → Sound c (attach_broadcast c msg b).0
unfolding attach_broadcast
attach_broadcast-Sound c msg none w = Sound-refl c w
attach_broadcast-Sound c msg (some (key, b)) w =
    other-Sound c _ refl refl refl refl refl refl refl w

get_broadcast_to_emit-Sound : (c : Cluster) → IsWellFormed c → Sound c (get_broadcast_to_emit c).0
unfolding get_broadcast_to_emit
get_broadcast_to_emit-Sound c w = other-Sound c _ refl refl refl refl refl refl refl w

send-Sends : (c : Cluster) (node : Ref) (msg : Message) → IsWellFormed c → Sends c (send c node msg)
unfolding send
send-Sends c node msg w = Ends-bind Any _ (Message.encode c msg) _ (encode-Ends c msg) (λ bytes _.
    elim (Bool-cases (c.can_write (address_of c node))) [
      | inl wrote ↦ rw wrote (
          Sound-then c _ _ (other-Sound c _ refl refl refl refl refl refl refl w)
            (λ w1. dec_members_loop-Sound msg.members _ w1))
      | inr failed ↦ rw failed (Sound-refl c w)
    ])

Sends-then :
    (c d : Cluster) (o : Outcome (Cluster × Option Error))
    → Sound c d
    → (IsWellFormed d → Sends d o)
    → Sends c o
Sends-then c d o s h =
    Ends-weaken (λ t. Sound d t.0) (λ t. Sound c t.0) o (λ t e. Sound-then c d t.0 s (λ _. e))
      (h s.well_formed)

finish-Sends :
    (c : Cluster) (node : Ref) (msg : Message) (e : Option Message.Error)
    → IsWellFormed c
    → Sends c (finish c node msg e)
unfolding finish
finish-Sends c node msg (some e) w = Sound-refl c w
finish-Sends c node msg none w =
    let found = get_broadcast_to_emit c in
    let attached = attach_broadcast found.0 msg found.1 in
    Sends-then c found.0 _ (get_broadcast_to_emit-Sound c w) (λ w1.
      Sends-then found.0 attached.0 _ (attach_broadcast-Sound found.0 msg found.1 w1)
        (λ w2. send-Sends attached.0 node attached.1 w2))

choose_nodes-Sound :
    (c : Cluster) (draw : ℕ → ℕ) (size : ℕ) (exclude : List Ref)
    → IsWellFormed c
    → Sound c (choose_nodes c draw size exclude).0
unfolding choose_nodes
choose_nodes-Sound c draw size exclude w = get_random_updated_nodes-Sound c size exclude w

compose-Sends :
    (c : Cluster) (draw : ℕ → ℕ) (node : Ref) (forward_to : Option Ref) (verb : MessageVerb)
    (code size : ℕ)
    → IsWellFormed c
    → Sends c (compose c draw node forward_to verb code size)
unfolding compose
compose-Sends c draw node forward_to verb code size w =
    let msg = add_forward_to c forward_to code (new_message verb (some c.this_host) code) in
    let chosen = choose_nodes c draw size (node ∷ c.this_host ∷ []) in
    let added = add_members_loop chosen.0 msg chosen.1 in
    Sends-then c chosen.0 _ (choose_nodes-Sound c draw size (node ∷ c.this_host ∷ []) w) (λ w1.
      Sends-then chosen.0 added.0 _ (add_members_loop-Sound chosen.1 chosen.0 msg w1)
        (λ w2. finish-Sends added.0 node added.1 added.2 w2))

-- transmitVerbGenericUDP returns or panics; if it returns, with an error or without, the state is
-- well-formed, no node has changed its address and none has lost heartbeat.
pub transmit_verb_generic_udp-Sends :
    (c : Cluster) (draw : ℕ → ℕ) (node : Ref) (forward_to : Option Ref) (verb : MessageVerb)
    (code : ℕ)
    → IsWellFormed c
    → Sends c (transmit_verb_generic_udp c draw node forward_to verb code)
unfolding transmit_verb_generic_udp
transmit_verb_generic_udp-Sends c draw node forward_to verb code w =
    elim (Bool-cases (c.can_dial (address_of c node))) [
      | inl dialled ↦ rw dialled (
          Ends-bind Any _ (as_size (ping_request_count c)) _ (as_size-Ends (ping_request_count c))
            (λ size _. compose-Sends c draw node forward_to verb code size w))
      | inr refused ↦ rw refused (Sound-refl c w)
    ]

await-Sound :
    (c : Cluster) (key : Tag) (pack : PendingAck)
    → AckOk (length c.heap) pack
    → IsWellFormed c
    → Sound c (await c key pack)
unfolding await
await-Sound c key pack fits w =
    maps-Sound c _ refl refl refl w.known w.updated w.known_distinct w.updated_distinct
      (AcksOk-insert (length c.heap) key pack c.pending_acks fits w.acks) w.duties w

-- A transmission whose ack is awaited.
pub await-Sends :
    (c : Cluster) (key : Tag) (pack : PendingAck) (draw : ℕ → ℕ) (node : Ref)
    (forward_to : Option Ref) (verb : MessageVerb) (code : ℕ)
    → AckOk (length c.heap) pack
    → IsWellFormed c
    → Sends c (transmit_verb_generic_udp (await c key pack) draw node forward_to verb code)
await-Sends c key pack draw node forward_to verb code fits w =
    Sends-then c (await c key pack) _ (await-Sound c key pack fits w)
      (λ w1. transmit_verb_generic_udp-Sends (await c key pack) draw node forward_to verb code w1)

pub transmit_verb_ack_udp-Sends :
    (c : Cluster) (draw : ℕ → ℕ) (node : Ref) (code : ℕ)
    → IsWellFormed c
    → Sends c (transmit_verb_ack_udp c draw node code)
unfolding transmit_verb_ack_udp
transmit_verb_ack_udp-Sends c draw node code w =
    transmit_verb_generic_udp-Sends c draw node none _ code w
