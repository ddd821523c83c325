-- ===== src/Membership/Transmit/Sent.antt =====
-- membership.go: what transmitVerbGenericUDP sends.
use smudge.Prelude.{ℕ, ◌-◌, ◌≡◌, Option, none, some, List, [], ◌∷◌, ◌++◌, length, map, take, All}
use smudge.Prelude.Outcome.{Outcome, ok}
use smudge.Net.{Address}
use smudge.NodeMap
use smudge.Cluster.{
  Cluster, Ref, Broadcast, Datagram, MessageVerb, status_forward_to, deref, address_of,
}
use smudge.Registry.Updated.{Spared}
use smudge.Message
use smudge.Message.{Message, MessageMember}
use smudge.Membership.Transmit.{Error}
use smudge.Membership.Transmit.Limit.{told}

-- The settings and what was sent are the same.
abbrev Quiet : Cluster → Cluster → Type 0
Quiet c c' = (c'.sent ≡ c.sent) × (c'.env ≡ c.env)

-- The head of a message and the members it has.
abbrev HasHead : Message → MessageVerb → Ref → ℕ → Type 0
HasHead msg verb host code =
    (msg.verb ≡ verb) × (msg.sender ≡ some host) × (msg.sender_heartbeat ≡ code)

-- The member that stands first in a PINGREQ: the node that is to be pinged.
abbrev pub forwards : Cluster → Option Ref → ℕ → List MessageMember
forwards c none code = []
forwards c (some f) code =
    record {
      source = (deref c f).status_source;
      heartbeat = code;
      node = f;
      status = status_forward_to;
    }
    ∷ []

-- The members are that node and what is told of other nodes, none at the address of the receiver or
-- of this host.
abbrev pub Tells : Cluster → Ref → Option Ref → ℕ → Message → Type 0
Tells c node forward_to code msg =
    (nodes : List Ref) × All (λ n. Spared c (node ∷ c.this_host ∷ []) (address_of c n)) nodes
    × (msg.members
        ≡ forwards c forward_to code
          ++ take (63 - length (forwards c forward_to code)) (map (told c) nodes))

-- Without an error one datagram is sent, to the node: the encoding of a message with the verb, this
-- host and the code at its head. With an error none is.
abbrev pub Sent : Cluster → Ref → Option Ref → MessageVerb → ℕ → Cluster × Option Error → Type 0
Sent c node forward_to verb code (c', some e) = c'.sent ≡ c.sent
Sent c node forward_to verb code (c', none) =
    (payload : List ℕ) × (msg : Message) × (d : Cluster) × (c'.sent
      ≡ c.sent ++ (record { to = address_of c node; payload = payload } ∷ []))
    × (Message.encode d msg ≡ ok payload)
    × (msg.verb ≡ verb)
    × (msg.sender ≡ some c.this_host)
    × (msg.sender_heartbeat ≡ code)
    × Tells c node forward_to code msg

module _ (c : Cluster) (draw : ℕ → ℕ) (size : ℕ) (node : Ref) where
  abbrev shunned : List Ref
  shunned = node ∷ c.this_host ∷ []

abbrev SentAs : List Datagram → Address → Message → Cluster × Option Error → Type 0
SentAs sent to msg (c', some e) = c'.sent ≡ sent
SentAs sent to msg (c', none) =
    (payload : List ℕ) × (d : Cluster) × (c'.sent
      ≡ sent ++ (record { to = to; payload = payload } ∷ []))
    × (Message.encode d msg ≡ ok payload)

-- The broadcast changes neither the head nor the members.
abbrev IsAttached : Cluster → Ref → Message → Cluster × Message → Type 0
IsAttached c node msg t =
    (t.0.sent ≡ c.sent)
    × (address_of t.0 node ≡ address_of c node)
    × (t.1 ≡ record msg { broadcast = t.1.broadcast })

abbrev SentWith : List Datagram → Address → Message → Cluster × Option Error → Type 0
SentWith sent to msg t =
    (broadcast : Option Broadcast) × SentAs sent to (record msg { broadcast = broadcast }) t
