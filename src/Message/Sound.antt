-- ===== src/Message/Sound.antt =====
-- message.go, broadcast.go: decoding keeps the state well-formed, and names only nodes that exist.
use smudge.Prelude.{
  ℕ, zero, suc, ◌+◌, ◌*◌, ◌/◌, ◌<◌, ◌≡◌, refl, Option, none, some, List, [], ◌∷◌, ◌++◌, drop,
  length, All, All-append, arith, Bool-cases, inl, inr, ltb, ◌==◌,
}
use smudge.Prelude.Outcome.{Ends, Ends-bind, Ends-weaken, Any}
use smudge.Bytes.{index, decode_byte, decode_uint16, decode_uint32}
use smudge.Checksum.{checksum}
use smudge.Net.{Ip}
use smudge.Wire.{Slice, slice, slice_from, decode_ip, find_or_create}
use smudge.Wire.Found.{find_or_create-IsFound}
use smudge.Broadcast.{check_origin, decode_broadcast}
use smudge.Cluster.{Cluster, Ref}
use smudge.Cluster.Heap.{Grows}
use smudge.Registry.WellFormed.{IsWellFormed, Sound, Sound-refl, Sound-then}
use smudge.Message.{
  Message, MessageMember, Error, new_message, decode_member, decode_members_loop, decode_members,
  read_members, read_broadcast, decode_body, decode_message, checksum_failure,
}
use smudge.Message.Rounds.{
  Past, index-Ends, decode_byte-Ends, decode_uint16-Ends, decode_uint32-Ends, decode_ip-Ends,
  slice-Ends, check_origin-Ends,
}

-- The nodes of the members are nodes.
abbrev pub MembersLt : Cluster → List MessageMember → Type 0
MembersLt c = All (λ m. m.node < length c.heap)

pub MembersLt-Grows :
    (c c' : Cluster) (ms : List MessageMember) → Grows c c' → MembersLt c ms → MembersLt c' ms
MembersLt-Grows c c' [] g a = tt
MembersLt-Grows c c' (m ∷ ms) g a = (omega (arith, g.longer), MembersLt-Grows c c' ms g a.1)

abbrev DecodedMember : Cluster → ℕ → Cluster × MessageMember × ℕ → Type 0
DecodedMember c p t = Sound c t.0 × (t.1.node < length t.0.heap) × (p < t.2)

decode_member-Sound :
    (c : Cluster) (s : Slice) (p : ℕ)
    → IsWellFormed c
    → Ends (DecodedMember c p) (decode_member c s p)
unfolding decode_member
decode_member-Sound c s p w =
    Ends-bind Any _ (index s.elems p) _ (index-Ends s.elems p) (λ mstatus _.
      Ends-bind (Past (p + 1)) _ (decode_ip c.ip_len s (p + 1)) _
        (decode_ip-Ends c.ip_len s (p + 1))
        (λ t1 h1.
          Ends-bind (Past t1.1) _ (decode_uint16 s.elems t1.1) _ (decode_uint16-Ends s.elems t1.1)
            (λ t2 h2.
              Ends-bind (Past t2.1) _ (decode_uint32 s.elems t2.1) _
                (decode_uint32-Ends s.elems t2.1)
                (λ t3 h3.
                  Ends-bind (Past t3.1) _ (decode_ip c.ip_len s t3.1) _
                    (decode_ip-Ends c.ip_len s t3.1)
                    (λ t4 h4.
                      Ends-bind (Past t4.1) _ (decode_uint16 s.elems t4.1) _
                        (decode_uint16-Ends s.elems t4.1)
                        (λ t5 h5.
                          let mnode = find_or_create c t1.0 t2.0 in
                          let (s1, h) = find_or_create-IsFound c t1.0 t2.0 w in
                          let (s2, _) = find_or_create-IsFound mnode.0 t4.0 t5.0 s1.well_formed in
                          (
                            Sound-then c mnode.0 _ s1 (λ _. s2),
                            omega (arith, s2.grows.longer),
                            omega arith,
                          )))))))

abbrev DecodedMembers : Cluster → Cluster × List MessageMember → Type 0
DecodedMembers c t = Sound c t.0 × MembersLt t.0 t.1

decode_members_loop-Sound :
    (fuel : ℕ) (c : Cluster) (s : Slice) (p : ℕ) (members : List MessageMember)
    → 0 < fuel
    → length s.elems < p + fuel
    → IsWellFormed c
    → MembersLt c members
    → Ends (DecodedMembers c) (decode_members_loop fuel c s p members)
unfolding decode_members_loop
decode_members_loop-Sound zero c s p members some_fuel h w a = absurd (omega arith)
decode_members_loop-Sound (suc fuel) c s p members some_fuel h w a =
    elim (Bool-cases (ltb p (length s.elems))) [
      | inl more ↦ rw more (
          Ends-bind (DecodedMember c p) _ (decode_member c s p) _ (decode_member-Sound c s p w)
            (λ t d.
              let left : p < length s.elems = (ground arith) in
              let all =
                All-append _ members (t.1 ∷ []) (MembersLt-Grows c t.0 members d.0.grows a)
                  (d.1, tt) in
              Ends-weaken (DecodedMembers t.0) (DecodedMembers c) _
                (λ u e. (Sound-then c t.0 u.0 d.0 (λ _. e.0), e.1))
                (decode_members_loop-Sound fuel t.0 s t.2 (members ++ (t.1 ∷ [])) (omega arith)
                  (omega (arith, d.2)) d.0.well_formed all)))
      | inr done ↦ rw done (Sound-refl c w, a)
    ]

decode_members-Sound :
    (c : Cluster) (s : Slice) → IsWellFormed c → Ends (DecodedMembers c) (decode_members c s)
unfolding decode_members
decode_members-Sound c s w =
    decode_members_loop-Sound (length s.elems + 1) c s 0 [] (omega arith) (omega arith) w tt

read_members-Sound :
    (c : Cluster) (s : Slice) (p last : ℕ)
    → IsWellFormed c
    → Ends (DecodedMembers c) (read_members c s p last)
unfolding read_members
read_members-Sound c s p last w = elim (Bool-cases (ltb p (length s.elems))) [
  | inl more ↦ rw more (
      Ends-bind Any (DecodedMembers c) (slice s p last) _ (slice-Ends s p last)
        (λ part _. decode_members-Sound c part w))
  | inr none_left ↦ rw none_left (Sound-refl c w, tt)
]

decode_broadcast-Sound :
    (c : Cluster) (s : Slice) → IsWellFormed c → Ends (λ t. Sound c t.0) (decode_broadcast c s)
unfolding decode_broadcast
decode_broadcast-Sound c s w =
    Ends-bind (Past 0) _ (decode_ip c.ip_len s 0) _ (decode_ip-Ends c.ip_len s 0) (λ t1 _.
      Ends-bind (Past t1.1) _ (decode_uint16 s.elems t1.1) _ (decode_uint16-Ends s.elems t1.1)
        (λ t2 _.
          Ends-bind (Past t2.1) _ (decode_uint32 s.elems t2.1) _ (decode_uint32-Ends s.elems t2.1)
            (λ t3 _.
              Ends-bind (Past t3.1) _ (decode_uint16 s.elems t3.1) _
                (decode_uint16-Ends s.elems t3.1)
                (λ t4 _.
                  Ends-bind Any _ (slice s t4.1 (t4.1 + t4.0)) _ (slice-Ends s t4.1 (t4.1 + t4.0))
                    (λ payload _.
                      let found = find_or_create c t1.0 t2.0 in
                      Ends-bind Any _ (check_origin found.0 found.1) _
                        (check_origin-Ends found.0 found.1)
                        (λ fault _. (find_or_create-IsFound c t1.0 t2.0 w).0))))))

read_broadcast-Sound :
    (c : Cluster) (s : Slice) (last : ℕ)
    → IsWellFormed c
    → Ends (λ t. Sound c t.0) (read_broadcast c s last)
unfolding read_broadcast slice_from
read_broadcast-Sound c s last w = elim (Bool-cases (ltb last (length s.elems))) [
  | inl more ↦ rw more (
      Ends-bind Any _ (slice s last (length s.elems)) _ (slice-Ends s last (length s.elems))
        (λ part _.
          Ends-bind (λ t. Sound c t.0) _ (decode_broadcast c part) _
            (decode_broadcast-Sound c part w) (λ t d. d)))
  | inr none_left ↦ rw none_left (Sound-refl c w)
]

-- A message whose sender and members are nodes.
abbrev pub NodesExist : Cluster → Message → Type 0
NodesExist c m = (r : Ref) × (m.sender ≡ some r) × (r < length c.heap) × MembersLt c m.members

pub NodesExist-Grows :
    (c c' : Cluster) (m : Message) → Grows c c' → NodesExist c m → NodesExist c' m
NodesExist-Grows c c' m g exist =
    (exist.0, exist.1, omega (arith, exist.2, g.longer), MembersLt-Grows c c' m.members g exist.3)

abbrev pub Decoded : Cluster → Cluster × Message × Option Error → Type 0
Decoded c t = Sound c t.0 × (t.2 ≡ none → NodesExist t.0 t.1)

decode_body-Sound :
    (c : Cluster) (source_ip : Ip) (s : Slice) (p : ℕ)
    → IsWellFormed c
    → Ends (Decoded c) (decode_body c source_ip s p)
unfolding decode_body new_message
decode_body-Sound c source_ip s p w =
    Ends-bind (Past p) _ (decode_byte s.elems p) _ (decode_byte-Ends s.elems p) (λ t1 _.
      Ends-bind (Past t1.1) _ (decode_uint16 s.elems t1.1) _ (decode_uint16-Ends s.elems t1.1)
        (λ t2 _.
          Ends-bind (Past t2.1) _ (decode_uint32 s.elems t2.1) _ (decode_uint32-Ends s.elems t2.1)
            (λ t3 _.
              let sender = find_or_create c source_ip t2.0 in
              let last = t3.1 + t1.0 / 4 * (9 + c.ip_len + c.ip_len) in
              let (s0, inside) = find_or_create-IsFound c source_ip t2.0 w in
              Ends-bind (DecodedMembers sender.0) _ (read_members sender.0 s t3.1 last) _
                (read_members-Sound sender.0 s t3.1 last s0.well_formed)
                (λ t4 d4.
                  Ends-bind (λ t. Sound t4.0 t.0) _ (read_broadcast t4.0 s last) _
                    (read_broadcast-Sound t4.0 s last d4.0.well_formed)
                    (λ t5 d5. (
                      Sound-then c sender.0 t5.0 s0
                          (λ _. Sound-then sender.0 t4.0 t5.0 d4.0 (λ _. d5)),
                      λ _. (
                        sender.1,
                        refl,
                        omega (arith, d4.0.grows.longer, d5.grows.longer),
                        MembersLt-Grows t4.0 t5.0 t4.1 d5.grows d4.1,
                      ),
                    ))))))

-- decodeMessage returns or panics on any bytes; if it returns, the state is well-formed, and the nodes
-- of a message without an error exist.
pub decode_message-Decoded :
    (c : Cluster) (source_ip : Ip) (s : Slice)
    → IsWellFormed c
    → Ends (Decoded c) (decode_message c source_ip s)
unfolding decode_message
decode_message-Decoded c source_ip s w =
    Ends-bind (Past 0) _ (decode_uint32 s.elems 0) _ (decode_uint32-Ends s.elems 0) (λ t _.
      elim (Bool-cases (checksum (drop 4 s.elems) == t.0)) [
        | inl right ↦ rw right (decode_body-Sound c source_ip s t.1 w)
        | inr wrong ↦ rw wrong (Sound-refl c w, λ e. absurd (some-not-none e))
      ])
  where
    some-not-none : ¬ (some checksum_failure ≡ none)
    some-not-none e = cc
