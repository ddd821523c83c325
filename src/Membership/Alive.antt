-- ===== src/Membership/Alive.antt =====
-- membership.go: what the members of a message may do to the status of the host itself.
use smudge.Prelude.{
  ℕ, ◌<◌, ◌≡◌, ◌≢◌, refl, sym, ap, subst, ◌∙◌, inl, inr, true, false, Option, some, List, [], ◌∷◌,
  length, arith, Bool-cases, ◌==◌, ltb,
}
use smudge.Prelude.Outcome.{ok, ◌>>=◌, or_panic}
use smudge.Net.{Address, Address-discrete}
use smudge.Cluster.{Cluster, Ref, status_forward_to, status_dead, status_alive, deref, address_of}
use smudge.NodeMap
use smudge.NodeMap.{same_address}
use smudge.Registry.{update_node_status}
use smudge.Registry.WellFormed.{IsWellFormed, Sound}
use smudge.Message.{Message, MessageMember}
use smudge.Membership.Statuses.{
  update_from_member-Returns, update_from_members-Returns, update_sender-Sound,
}
use smudge.Message.Sound.{MembersLt, MembersLt-Grows}
use smudge.Membership.{
  apply_status, update_from_member, update_from_members, update_sender, enroll_sender,
  update_statuses_from_message,
}
use smudge.Registry.Statuses.{
  NotDead, update_node_status-NotDead, length-update_node_status, alive-not-dead, ok-inj,
  add_node-NotDead,
}

decided : (a b : Address) (d : Dec (a ≡ b)) → a ≡ b → elim d [ yes _ ↦ true | no _ ↦ false ] ≡ true
decided a b (yes _) e = refl
decided a b (no n) e = absurd (n e)

false-not-true : ¬ (false ≡ true)
false-not-true e = cc

same_address-same : (a b : Address) → a ≡ b → same_address a b ≡ true
unfolding same_address
same_address-same a b e = decided a b (Address-discrete a b) e

length-enough : (c c' : Cluster) (r : Ref) → Sound c c' → r < length c.heap → r < length c'.heap
length-enough c c' r s h = omega (arith, s.grows.longer)

apply_status-NotDead :
    (c c' : Cluster) (m : MessageMember) (j : Ref)
    → m.node < length c.heap
    → (m.node ≡ j → m.status ≢ status_dead)
    → apply_status c m ≡ ok c'
    → NotDead c j
    → NotDead c' j
unfolding apply_status
apply_status-NotDead c c' m j inside spared e h =
    let size = length-update_node_status c m.node m.status m.heartbeat m.source in
    add_node-NotDead (update_node_status c m.node m.status m.heartbeat m.source) c' m.node j
      (omega (arith, size)) e
      (update_node_status-NotDead c m.node j inside m.status m.heartbeat m.source spared h)

update_from_member-NotDead :
    (c c' : Cluster) (m : MessageMember)
    → m.node < length c.heap
    → update_from_member c m ≡ ok c'
    → NotDead c c.this_host
    → NotDead c' c.this_host
unfolding update_from_member
update_from_member-NotDead c c' m inside e h =
    elim (Bool-cases (ltb m.heartbeat (deref c m.node).heartbeat)) [
      | inl stale ↦ let got = rw stale at e in stays got
      | inr fresh ↦ elim (Bool-cases (m.status == status_forward_to)) [
        | inl forward ↦ let got = rw (fresh, forward) at e in stays got
        | inr named ↦ elim (Bool-cases (m.status == status_dead)) [
          | inr live ↦
              let got = rw (fresh, named, live) at e in
              apply_status-NotDead c c' m c.this_host inside (λ _. ground arith) got h
          | inl dead ↦
              elim (Bool-cases (same_address (address_of c m.node) (address_of c c.this_host))) [
                | inl me ↦ let got = rw (fresh, named, dead, me) at e in stays got
                | inr other ↦
                    let got = rw (fresh, named, dead, other) at e in
                    apply_status-NotDead c c' m c.this_host inside
                      (λ i. absurd (apart other (ap (address_of c) i))) got h
              ]
        ]
      ]
    ]
  where
    stays : ok c ≡ ok c' → NotDead c' c.this_host
    stays got = subst (λ s. NotDead s c.this_host) (ok-inj c c' got) h

    apart :
        same_address (address_of c m.node) (address_of c c.this_host) ≡ false
        → address_of c m.node ≢ address_of c c.this_host
    apart other i = false-not-true (sym other ∙ same_address-same _ _ i)

update_from_members-NotDead :
    (ms : List MessageMember) (c c' : Cluster)
    → MembersLt c ms
    → IsWellFormed c
    → update_from_members c ms ≡ ok c'
    → NotDead c c.this_host
    → NotDead c' c.this_host
unfolding update_from_members
update_from_members-NotDead [] c c' a w e h = subst (λ s. NotDead s c.this_host) (ok-inj c c' e) h
update_from_members-NotDead (m ∷ ms) c c' a w e h =
    let (c1, e1, s1) = update_from_member-Returns c m a.0 w in
    let left = rw e1 at e in
    let same = s1.grows.same_host in
    let h1 = update_from_member-NotDead c c1 m a.0 e1 h in
    subst (NotDead c') same (
      update_from_members-NotDead ms c1 c' (MembersLt-Grows c c1 ms s1.grows a.1) s1.well_formed
        left (subst (NotDead c1) (sym same) h1))

update_sender-NotDead :
    (c : Cluster) (sender : Ref) (heartbeat : ℕ) (j : Ref)
    → sender < length c.heap
    → NotDead c j
    → NotDead (update_sender c sender heartbeat) j
unfolding update_sender
update_sender-NotDead c sender heartbeat j inside h =
    elim (Bool-cases (ltb (deref c sender).heartbeat heartbeat)) [
      | inl news ↦ rw news (
          update_node_status-NotDead c sender j inside status_alive heartbeat (some c.this_host)
            (λ _. alive-not-dead) h)
      | inr old ↦ rw old h
    ]

enroll_sender-NotDead :
    (c c' : Cluster) (sender j : Ref)
    → sender < length c.heap
    → enroll_sender c sender ≡ ok c'
    → NotDead c j
    → NotDead c' j
unfolding enroll_sender
enroll_sender-NotDead c c' sender j inside e h =
    elim (Bool-cases (NodeMap.contains c c.known_nodes sender)) [
      | inl old ↦ let got = rw old at e in subst (λ s. NotDead s j) (ok-inj c c' got) h
      | inr new ↦ let got = rw new at e in add_node-NotDead c c' sender j inside got h
    ]

-- No message makes a host that is not dead in its own eyes dead in its own eyes, whatever the
-- members of the message say of it, if the nodes of the message exist and the state is well-formed.
pub update_statuses_from_message-NotDead :
    (c c' : Cluster) (msg : Message) (sender : Ref)
    → msg.sender ≡ some sender
    → sender < length c.heap
    → MembersLt c msg.members
    → IsWellFormed c
    → update_statuses_from_message c msg ≡ ok c'
    → NotDead c c.this_host
    → NotDead c' c.this_host
unfolding update_statuses_from_message
update_statuses_from_message-NotDead c c' msg sender found inside a w e h =
    let (c1, e1, s1) = update_from_members-Returns msg.members c a w in
    let h1 = update_from_members-NotDead msg.members c c1 a w e1 h in
    let inside1 = length-enough c c1 sender s1 inside in
    let c2 = update_sender c1 sender msg.sender_heartbeat in
    let s2 = update_sender-Sound c1 sender msg.sender_heartbeat inside1 s1.well_formed in
    let left = rw e1 at e in
    let got : enroll_sender c2 sender ≡ ok c' =
      sym (
        ap
          (λ (o : Option Ref).
            or_panic o >>= λ s. enroll_sender (update_sender c1 s msg.sender_heartbeat) s)
          found)
      ∙ left in
    enroll_sender-NotDead c2 c' sender c.this_host (length-enough c1 c2 sender s2 inside1) got
      (update_sender-NotDead c1 sender msg.sender_heartbeat c.this_host inside1 h1)
