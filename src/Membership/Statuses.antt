-- ===== src/Membership/Statuses.antt =====
-- membership.go: updateStatusesFromMessage keeps the state well-formed.
use smudge.Prelude.{
  ℕ, ◌≤◌, ◌<◌, ◌≡◌, ◌≢◌, refl, ap, inl, inr, some, List, [], ◌∷◌, length, arith, Bool-cases, ◌==◌,
  ltb,
}
use smudge.Prelude.Outcome.{Outcome, ok, or_panic}
use smudge.Cluster.{Cluster, Ref, status_forward_to, status_dead, status_alive, deref, address_of}
use smudge.NodeMap
use smudge.NodeMap.{same_address}
use smudge.Registry.{add_node}
use smudge.Registry.Invariant.{update_node_status-Sound}
use smudge.Registry.WellFormed.{IsWellFormed, Sound, Sound-refl, Sound-then}
use smudge.Registry.Known.{Added, add_node-returns}
use smudge.Message.{Message, MessageMember}
use smudge.Message.Sound.{MembersLt, MembersLt-Grows}
use smudge.Membership.{
  apply_status, update_from_member, update_from_members, update_sender, enroll_sender,
  update_statuses_from_message,
}

-- A call that returns a state that is sound after `c`.
abbrev pub Returns : Cluster → Outcome Cluster → Type 0
Returns c o = (c' : Cluster) × (o ≡ ok c') × Sound c c'

after_update : (c d : Cluster) (r : Ref) → Sound c d → r < length c.heap → Returns c (add_node d r)
after_update c d r s h =
    let (c', e, a) = add_node-returns d r (omega (arith, s.grows.longer)) s.well_formed in
    (c', e, Sound-then c d c' s (λ _. a.sound))

apply_status-Returns :
    (c : Cluster) (m : MessageMember)
    → m.node < length c.heap
    → m.status ≢ status_forward_to
    → (deref c m.node).heartbeat ≤ m.heartbeat
    → IsWellFormed c
    → Returns c (apply_status c m)
unfolding apply_status
apply_status-Returns c m h st more w =
    after_update c _ m.node
      (update_node_status-Sound c m.node m.status m.heartbeat m.source h st more w) h

pub update_from_member-Returns :
    (c : Cluster) (m : MessageMember)
    → m.node < length c.heap
    → IsWellFormed c
    → Returns c (update_from_member c m)
unfolding update_from_member
update_from_member-Returns c m h w =
    elim (Bool-cases (ltb m.heartbeat (deref c m.node).heartbeat)) [
      | inl stale ↦ (c, rw stale, Sound-refl c w)
      | inr fresh ↦ elim (Bool-cases (m.status == status_forward_to)) [
        | inl forward ↦ (c, rw (fresh, forward), Sound-refl c w)
        | inr named ↦
            let (c', e, s) = apply_status-Returns c m h (ground arith) (ground arith) w in
            elim (Bool-cases (m.status == status_dead)) [
              | inr live ↦ (c', rw (fresh, named, live) e, s)
              | inl dead ↦
                  elim (Bool-cases
                    (same_address (address_of c m.node) (address_of c c.this_host))) [
                      | inl me ↦ (c, rw (fresh, named, dead, me), Sound-refl c w)
                      | inr other ↦ (c', rw (fresh, named, dead, other) e, s)
                    ]
            ]
      ]
    ]

pub update_from_members-Returns :
    (ms : List MessageMember) (c : Cluster)
    → MembersLt c ms
    → IsWellFormed c
    → Returns c (update_from_members c ms)
unfolding update_from_members
update_from_members-Returns [] c a w = (c, refl, Sound-refl c w)
update_from_members-Returns (m ∷ ms) c a w =
    let (c1, e1, s1) = update_from_member-Returns c m a.0 w in
    let (c2, e2, s2) =
      update_from_members-Returns ms c1 (MembersLt-Grows c c1 ms s1.grows a.1) s1.well_formed in
    (c2, rw (e1, e2), Sound-then c c1 c2 s1 (λ _. s2))

pub update_sender-Sound :
    (c : Cluster) (r : Ref) (heartbeat : ℕ)
    → r < length c.heap
    → IsWellFormed c
    → Sound c (update_sender c r heartbeat)
unfolding update_sender
update_sender-Sound c r heartbeat h w = elim (Bool-cases (ltb (deref c r).heartbeat heartbeat)) [
  | inl news ↦ rw news (
      update_node_status-Sound c r status_alive heartbeat (some c.this_host) h (omega arith)
        (ground arith) w)
  | inr old ↦ rw old (Sound-refl c w)
]

-- What enrolling promises is what AddNode promises.
enroll_sender-returns :
    (c : Cluster) (r : Ref)
    → r < length c.heap
    → IsWellFormed c
    → (c' : Cluster) × (enroll_sender c r ≡ ok c') × Added c c' r
unfolding enroll_sender
enroll_sender-returns c r h w = elim (Bool-cases (NodeMap.contains c c.known_nodes r)) [
  | inl old ↦ (c, rw old, record { sound = Sound-refl c w; present = old })
  | inr new ↦ rw new (add_node-returns c r h w)
]

-- A message whose nodes exist never makes updateStatusesFromMessage panic. Afterwards the state is
-- well-formed, no node has moved to another address, no node's heartbeat is lower than before, and
-- the sender is known.
pub update_statuses_from_message-returns :
    (c : Cluster) (msg : Message) (sender : Ref)
    → msg.sender ≡ some sender
    → sender < length c.heap
    → MembersLt c msg.members
    → IsWellFormed c
    → (c' : Cluster) × (update_statuses_from_message c msg ≡ ok c') × Added c c' sender
unfolding update_statuses_from_message
update_statuses_from_message-returns c msg sender e h a w =
    let (c1, e1, s1) = update_from_members-Returns msg.members c a w in
    let h1 : sender < length c1.heap = omega (arith, s1.grows.longer) in
    let c2 = update_sender c1 sender msg.sender_heartbeat in
    let s2 =
      Sound-then c c1 c2 s1 (λ w1. update_sender-Sound c1 sender msg.sender_heartbeat h1 w1) in
    let (c3, e3, a3) =
      enroll_sender-returns c2 sender (omega (arith, s2.grows.longer)) s2.well_formed in
    (
      c3,
      rw (e1, ap or_panic e) e3,
      record { sound = Sound-then c c2 c3 s2 (λ _. a3.sound); present = a3.present },
    )
