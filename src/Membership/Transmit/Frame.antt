-- ===== src/Membership/Transmit/Frame.antt =====
-- membership.go: what sending a datagram leaves alone.
use smudge.Prelude.{
  ℕ, ◌≡◌, refl, ◌∙◌, Bool-cases, inl, inr, Option, none, some, List, [], ◌∷◌, length, dec_lt, arith,
}
use smudge.Prelude.Outcome.{Outcome, Ends, Ends-bind, Ends-weaken, Any}
use smudge.Broadcast.{get_broadcast_to_emit}
use smudge.Cluster.{
  Cluster, Node, Int8, Ref, Tag, Broadcast, MessageVerb, PendingAck, deref, assign, address,
  address_of, ping_request_count, as_size,
}
use smudge.Cluster.Heap.{assign-at, as_size-Ends}
use smudge.Registry.{get_random_updated_nodes}
use smudge.Registry.Edits.{set_beyond}
use smudge.Message
use smudge.Message.{Message, MessageMember, add_member, new_message}
use smudge.Message.Written.{encode-Ends}
use smudge.Membership.{ack_key}
use smudge.Membership.Transmit.{
  Error, dec_emit_counter, add_members_loop, attach_broadcast, dec_members_loop, send, choose_nodes,
  finish, await, compose, transmit_verb_generic_udp, transmit_verb_ping_udp, ping_node,
  add_forward_to,
}

-- A count of emissions changes nothing else of a node.
pub dec_emit_counter-field :
    {A : Type 0} (f : Node → A)
    → ((n : Node) (k : Int8) → f (record n { emit_counter = k }) ≡ f n)
    → (c : Cluster) (r j : Ref) → f (deref (dec_emit_counter c r) j) ≡ f (deref c j)
unfolding dec_emit_counter
dec_emit_counter-field f same c r j = elim (dec_lt r (length c.heap)) [
  | yes inside ↦ assign-at c r _ (λ k m. f m ≡ f (deref c k)) inside (same (deref c r) _) j refl
  | no beyond ↦ unfold assign deref in rw (set_beyond c.heap r _ (omega arith)) refl
]

-- The retries of dead nodes, the known nodes and all addresses are the same.
pub record Frame (c c' : Cluster) : Type 0 where
  pub retries : c'.dead_node_retries ≡ c.dead_node_retries
  pub known : c'.known_nodes ≡ c.known_nodes
  pub addresses : (r : Ref) → address_of c' r ≡ address_of c r

pub Frame-then : (c d e : Cluster) → Frame c d → Frame d e → Frame c e
Frame-then c d e f g = record {
  retries = g.retries ∙ f.retries;
  known = g.known ∙ f.known;
  addresses = λ r. g.addresses r ∙ f.addresses r;
}

-- Other variables change.
pub Frame-same :
    (c c' : Cluster)
    → c'.dead_node_retries ≡ c.dead_node_retries
    → c'.known_nodes ≡ c.known_nodes
    → c'.heap ≡ c.heap
    → Frame c c'
unfolding address_of deref
Frame-same c c' r k h = record { retries = r; known = k; addresses = λ j. rw h refl }

dec_emit_counter-Frame : (c : Cluster) (r : Ref) → Frame c (dec_emit_counter c r)
unfolding address_of
dec_emit_counter-Frame c r = record {
  retries = unfold dec_emit_counter assign in refl;
  known = unfold dec_emit_counter assign in refl;
  addresses = λ j. dec_emit_counter-field address (λ n k. unfold address in refl) c r j;
}

pub add_members_loop-Frame :
    (nodes : List Ref) (c : Cluster) (msg : Message) → Frame c (add_members_loop c msg nodes).0
unfolding add_members_loop
add_members_loop-Frame [] c msg = Frame-same c c refl refl refl
add_members_loop-Frame (n ∷ nodes) c msg =
    by_error (add_member msg n (deref c n).status (deref c n).heartbeat (deref c n).status_source).1
      (Frame-then c (dec_emit_counter c n) _ (dec_emit_counter-Frame c n)
        (add_members_loop-Frame nodes (dec_emit_counter c n) msg'))
  where
    msg' : Message
    msg' = (add_member msg n (deref c n).status (deref c n).heartbeat (deref c n).status_source).0

    by_error :
        (e : Option Message.Error)
        → Frame c (add_members_loop (dec_emit_counter c n) msg' nodes).0
        → Frame c
            (elim e as (λ _. Cluster × Message × Option Message.Error) [
              | none ↦ add_members_loop (dec_emit_counter c n) msg' nodes
              | some f ↦ (c, msg', some f)
            ]).0
    by_error none later = later
    by_error (some f) later = Frame-same c c refl refl refl

dec_members_loop-Frame : (ms : List MessageMember) (c : Cluster) → Frame c (dec_members_loop c ms)
unfolding dec_members_loop
dec_members_loop-Frame [] c = Frame-same c c refl refl refl
dec_members_loop-Frame (m ∷ ms) c =
    Frame-then c (dec_emit_counter c m.node) _ (dec_emit_counter-Frame c m.node)
      (dec_members_loop-Frame ms (dec_emit_counter c m.node))

abbrev pub Frames : Cluster → Outcome (Cluster × Option Error) → Type 0
Frames c o = Ends (λ t. Frame c t.0) o

Frames-then :
    (c d : Cluster) (o : Outcome (Cluster × Option Error)) → Frame c d → Frames d o → Frames c o
Frames-then c d o f h =
    Ends-weaken (λ t. Frame d t.0) (λ t. Frame c t.0) o (λ t g. Frame-then c d t.0 f g) h

send-Frames : (c : Cluster) (node : Ref) (msg : Message) → Frames c (send c node msg)
unfolding send
send-Frames c node msg = Ends-bind Any _ (Message.encode c msg) _ (encode-Ends c msg) (λ bytes _.
    elim (Bool-cases (c.can_write (address_of c node))) [
      | inl wrote ↦
          rw wrote (
            Frame-then c _ _ (Frame-same c _ refl refl refl) (dec_members_loop-Frame msg.members _))
      | inr failed ↦ rw failed (Frame-same c c refl refl refl)
    ])

attach_broadcast-Frame :
    (c : Cluster) (msg : Message) (b : Option (Tag × Broadcast))
    → Frame c (attach_broadcast c msg b).0
unfolding attach_broadcast
attach_broadcast-Frame c msg none = Frame-same c c refl refl refl
attach_broadcast-Frame c msg (some (key, b)) = Frame-same c _ refl refl refl

finish-Frames :
    (c : Cluster) (node : Ref) (msg : Message) (e : Option Message.Error)
    → Frames c (finish c node msg e)
unfolding finish
finish-Frames c node msg (some e) = Frame-same c c refl refl refl
finish-Frames c node msg none =
    let found = get_broadcast_to_emit c in
    let attached = attach_broadcast found.0 msg found.1 in
    Frames-then c found.0 _ (unfold get_broadcast_to_emit in Frame-same c _ refl refl refl) (
      Frames-then found.0 attached.0 _ (attach_broadcast-Frame found.0 msg found.1)
        (send-Frames attached.0 node attached.1))

compose-Frames :
    (c : Cluster) (draw : ℕ → ℕ) (node : Ref) (forward_to : Option Ref) (verb : MessageVerb)
    (code size : ℕ)
    → Frames c (compose c draw node forward_to verb code size)
unfolding compose
compose-Frames c draw node forward_to verb code size =
    let msg = add_forward_to c forward_to code (new_message verb (some c.this_host) code) in
    let chosen = choose_nodes c draw size (node ∷ c.this_host ∷ []) in
    let added = add_members_loop chosen.0 msg chosen.1 in
    Frames-then c chosen.0 _
      (unfold choose_nodes get_random_updated_nodes in Frame-same c _ refl refl refl)
      (Frames-then chosen.0 added.0 _ (add_members_loop-Frame chosen.1 chosen.0 msg)
        (finish-Frames added.0 node added.1 added.2))

transmit_verb_generic_udp-Frames :
    (c : Cluster) (draw : ℕ → ℕ) (node : Ref) (forward_to : Option Ref) (verb : MessageVerb)
    (code : ℕ)
    → Frames c (transmit_verb_generic_udp c draw node forward_to verb code)
unfolding transmit_verb_generic_udp
transmit_verb_generic_udp-Frames c draw node forward_to verb code =
    elim (Bool-cases (c.can_dial (address_of c node))) [
      | inl dialled ↦ rw dialled (
          Ends-bind Any _ (as_size (ping_request_count c)) _ (as_size-Ends (ping_request_count c))
            (λ size _. compose-Frames c draw node forward_to verb code size))
      | inr refused ↦ rw refused (Frame-same c c refl refl refl)
    ]

await-Frame : (c : Cluster) (key : Tag) (pack : PendingAck) → Frame c (await c key pack)
unfolding await
await-Frame c key pack = Frame-same c _ refl refl refl

pub ping_node-Frames : (c : Cluster) (draw : ℕ → ℕ) (node : Ref) → Frames c (ping_node c draw node)
unfolding ping_node transmit_verb_ping_udp
ping_node-Frames c draw node =
    Frames-then c _ _ (await-Frame c (ack_key c node c.current_heartbeat) _)
      (transmit_verb_generic_udp-Frames _ draw node none _ c.current_heartbeat)
