-- ===== src/Membership/Transmit/Limit.antt =====
-- membership.go, message.go: how many members a message gets.
use smudge.Prelude.{
  ℕ, zero, suc, ◌-◌, take, map, refl, sym, append-nil, append_assoc, ◌+◌, ◌≤◌, ◌<◌, ◌≡◌, ap, ◌∙◌,
  Option, none, some, List, [], ◌∷◌, ◌++◌, length, length-append, arith, dec_lt, if◌then◌else◌, leb,
}
use smudge.Cluster.{Cluster, Ref, NodeStatus, deref}
use smudge.Message
use smudge.Message.{Message, MessageMember, add_member, member_list_overflow}
use smudge.Membership.Transmit.Frame.{dec_emit_counter-field}
use smudge.Membership.Transmit.{add_members_loop, dec_emit_counter}

-- The error that is due for a number of members that were to be added.
abbrev pub due : ℕ → Option Message.Error
due n = if leb n 63 then none else some member_list_overflow

module _ (msg : Message) (n : Ref) (status : NodeStatus) (heartbeat : ℕ) (source : Option Ref) where
  add_member-full :
      63 ≤ length msg.members
      → add_member msg n status heartbeat source ≡ (msg, some member_list_overflow)
  unfolding add_member
  add_member-full h = ground arith

  -- The message with the member at the end of its list.
  with_member : Message
  with_member = record msg {
    members =
        msg.members
        ++ (record { source = source; heartbeat = heartbeat; node = n; status = status } ∷ []);
  }

  add_member-room :
      length msg.members < 63 → add_member msg n status heartbeat source ≡ (with_member, none)
  unfolding add_member with_member
  add_member-room h = ground arith

  length-with_member : length with_member.members ≡ length msg.members + 1
  unfolding with_member
  length-with_member = length-append msg.members _

module _ (c : Cluster) (msg : Message) (n : Ref) (nodes : List Ref) where
  next : Message
  next = with_member msg n (deref c n).status (deref c n).heartbeat (deref c n).status_source

  -- One round of the loop, by the outcome of addMember.
  after : Message × Option Message.Error → Cluster × Message × Option Message.Error
  after added = elim added.1 [
    | none ↦ add_members_loop (dec_emit_counter c n) added.0 nodes
    | some e ↦ (c, added.0, some e)
  ]

  loop-room :
      length msg.members < 63
      → add_members_loop c msg (n ∷ nodes) ≡ add_members_loop (dec_emit_counter c n) next nodes
  unfolding add_members_loop after next
  loop-room h =
      ap after
        (add_member-room msg n (deref c n).status (deref c n).heartbeat (deref c n).status_source h)

  loop-full :
      63 ≤ length msg.members
      → add_members_loop c msg (n ∷ nodes) ≡ (c, msg, some member_list_overflow)
  unfolding add_members_loop after
  loop-full h =
      ap after
        (add_member-full msg n (deref c n).status (deref c n).heartbeat (deref c n).status_source h)

take_nil : (n : ℕ) → take {A = MessageMember} n [] ≡ []
take_nil zero = refl
take_nil (suc n) = refl

-- What is told of a node.
abbrev pub told : Cluster → Ref → MessageMember
told c n = record {
  source = (deref c n).status_source;
  heartbeat = (deref c n).heartbeat;
  node = n;
  status = (deref c n).status;
}

-- The counts of emissions are not told.
told-dec_emit_counter :
    (c : Cluster) (r : Ref) (nodes : List Ref)
    → map (told (dec_emit_counter c r)) nodes ≡ map (told c) nodes
told-dec_emit_counter c r [] = refl
told-dec_emit_counter c r (n ∷ nodes) =
    ap
      (λ (t : NodeStatus × ℕ × Option Ref).
        record { source = t.2; heartbeat = t.1; node = n; status = t.0 }
        ∷ map (told (dec_emit_counter c r)) nodes)
      (dec_emit_counter-field (λ m. (m.status, m.heartbeat, m.status_source)) (λ m k. refl) c r n)
    ∙ ap (λ ms. told c n ∷ ms) (told-dec_emit_counter c r nodes)

-- What is told, with as many nodes as there is room for.
abbrev pub with_told : Cluster → Message → List Ref → List MessageMember
with_told c msg nodes = msg.members ++ take (63 - length msg.members) (map (told c) nodes)

with_told-next :
    (c : Cluster) (msg : Message) (n : Ref) (nodes : List Ref)
    → length msg.members < 63
    → with_told (dec_emit_counter c n) (next c msg n nodes) nodes ≡ with_told c msg (n ∷ nodes)
unfolding next with_member
with_told-next c msg n nodes room =
    let left : 63 - length (msg.members ++ (told c n ∷ [])) ≡ 62 - length msg.members =
      omega (arith, length-append msg.members (told c n ∷ [])) in
    let room_left : 63 - length msg.members ≡ suc (62 - length msg.members) = omega arith in
    rw (left, told-dec_emit_counter c n nodes, room_left)
      (append_assoc msg.members (told c n ∷ [])
        (take (62 - length msg.members) (map (told c) nodes)))

-- The loop that adds nodes to a message which has at most 63 members: behind these stand then, in order,
-- the status, heartbeat and source of each node, of as many as there is room for up to 63 members,
-- and there is an overflow error if and only if that is not all of them.
pub add_members_loop-limit :
    (nodes : List Ref) (c : Cluster) (msg : Message)
    → length msg.members ≤ 63
    → ((add_members_loop c msg nodes).1.members
        ≡ msg.members ++ take (63 - length msg.members) (map (told c) nodes))
      × ((add_members_loop c msg nodes).2 ≡ due (length msg.members + length nodes))
add_members_loop-limit [] c msg h =
    unfold add_members_loop in
    (
      sym (
          ap (λ ms. msg.members ++ ms) (take_nil (63 - length msg.members))
          ∙ append-nil msg.members),
      ground arith,
    )
add_members_loop-limit (n ∷ nodes) c msg h = elim (dec_lt (length msg.members) 63) [
  | yes room ↦
      let longer =
        length-with_member msg n (deref c n).status (deref c n).heartbeat
          (deref c n).status_source in
      let (members, e) =
        add_members_loop-limit nodes (dec_emit_counter c n) (next c msg n nodes)
          (unfold next in omega (arith, longer)) in
      (
        ap (λ t. t.1.members) (loop-room c msg n nodes room)
            ∙ members
            ∙ with_told-next c msg n nodes room,
        ap (λ t. t.2) (loop-room c msg n nodes room)
            ∙ e
            ∙ ap due (unfold next in omega (arith, longer)),
      )
  | no full ↦
      let none_left : 63 - length msg.members ≡ 0 = omega arith in
      (
        ap (λ t. t.1.members) (loop-full c msg n nodes (omega arith))
            ∙ rw none_left (sym (append-nil msg.members)),
        ap (λ t. t.2) (loop-full c msg n nodes (omega arith)) ∙ ground arith,
      )
]
