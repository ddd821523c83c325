-- ===== src/Message/Rounds.antt =====
-- message.go: the loop of decodeMembers ends.
use smudge.Prelude.{
  subst, ◌*◌, ◌/◌, drop, get_elem?, ℕ, zero, suc, ◌+◌, ◌≤◌, ◌<◌, ◌≢◌, List, [], ◌∷◌, ◌++◌, length,
  arith, Bool-cases, inl, inr, ltb, ◌==◌,
}
use smudge.Prelude.Outcome.{stuck, Ends, Ends-bind, Any, or_panic-Ends}
use smudge.Bytes.{decode_byte, index, decode_uint16, decode_uint32}
use smudge.Net.{shortest, ipv6_len, Ip}
use smudge.Wire.{slice_from, Slice, slice, decode_ip, find_or_create}
use smudge.Broadcast.{check_origin, decode_broadcast}
use smudge.Checksum.{checksum}
use smudge.Cluster.{Ref, deref, Cluster}
use smudge.Message.{
  read_members, read_broadcast, decode_body, decode_message, MessageMember, decode_member,
  decode_members_loop, decode_members,
}

pub index-Ends : (bytes : List ℕ) (i : ℕ) → Ends Any (index bytes i)
unfolding index
index-Ends bytes i = or_panic-Ends (get_elem? bytes i)

-- A read from `p` on that leaves a later index.
abbrev pub Past : {A : Type 0} → ℕ → A × ℕ → Type 0
Past p t = p ≤ t.1

pub decode_uint16-Ends : (bytes : List ℕ) (p : ℕ) → Ends (Past p) (decode_uint16 bytes p)
unfolding decode_uint16
decode_uint16-Ends bytes p =
    Ends-bind Any _ (index bytes (p + 1)) _ (index-Ends bytes (p + 1)) (λ b1 _.
      Ends-bind Any _ (index bytes (p + 0)) _ (index-Ends bytes (p + 0)) (λ b0 _. omega arith))

pub decode_uint32-Ends : (bytes : List ℕ) (p : ℕ) → Ends (Past p) (decode_uint32 bytes p)
unfolding decode_uint32
decode_uint32-Ends bytes p =
    Ends-bind Any _ (index bytes (p + 3)) _ (index-Ends bytes (p + 3)) (λ b3 _.
      Ends-bind Any _ (index bytes (p + 2)) _ (index-Ends bytes (p + 2)) (λ b2 _.
        Ends-bind Any _ (index bytes (p + 1)) _ (index-Ends bytes (p + 1)) (λ b1 _.
          Ends-bind Any _ (index bytes (p + 0)) _ (index-Ends bytes (p + 0))
            (λ b0 _. omega arith))))

pub slice-Ends : (s : Slice) (lo hi : ℕ) → Ends Any (slice s lo hi)
unfolding slice
slice-Ends s lo hi = ground arith

pub decode_ip-Ends : (ip_len : ℕ) (s : Slice) (p : ℕ) → Ends (Past p) (decode_ip ip_len s p)
unfolding decode_ip
decode_ip-Ends ip_len s p = elim (Bool-cases (ip_len == ipv6_len)) [
  | inl v6 ↦ rw v6 (
      Ends-bind Any (Past p) (slice s p (p + 16)) _ (slice-Ends s p (p + 16))
        (λ part _. omega arith))
  | inr v4 ↦ rw v4 (
      Ends-bind Any _ (index s.elems (p + 0)) _ (index-Ends s.elems (p + 0)) (λ a _.
        Ends-bind Any _ (index s.elems (p + 1)) _ (index-Ends s.elems (p + 1)) (λ b _.
          Ends-bind Any _ (index s.elems (p + 2)) _ (index-Ends s.elems (p + 2)) (λ c _.
            Ends-bind Any _ (index s.elems (p + 3)) _ (index-Ends s.elems (p + 3))
              (λ d _. omega arith)))))
]

decode_member-Ends : (c : Cluster) (s : Slice) (p : ℕ) → Ends (λ t. p < t.2) (decode_member c s p)
unfolding decode_member
decode_member-Ends c s p = Ends-bind Any _ (index s.elems p) _ (index-Ends s.elems p) (λ mstatus _.
    Ends-bind (Past (p + 1)) _ (decode_ip c.ip_len s (p + 1)) _ (decode_ip-Ends c.ip_len s (p + 1))
      (λ t1 h1.
        Ends-bind (Past t1.1) _ (decode_uint16 s.elems t1.1) _ (decode_uint16-Ends s.elems t1.1)
          (λ t2 h2.
            Ends-bind (Past t2.1) _ (decode_uint32 s.elems t2.1) _ (decode_uint32-Ends s.elems t2.1)
              (λ t3 h3.
                Ends-bind (Past t3.1) _ (decode_ip c.ip_len s t3.1) _
                  (decode_ip-Ends c.ip_len s t3.1)
                  (λ t4 h4.
                    Ends-bind (Past t4.1) _ (decode_uint16 s.elems t4.1) _
                      (decode_uint16-Ends s.elems t4.1) (λ t5 h5. omega arith))))))

decode_members_loop-Ends :
    (fuel : ℕ) (c : Cluster) (s : Slice) (p : ℕ) (members : List MessageMember)
    → 0 < fuel
    → length s.elems < p + fuel
    → Ends Any (decode_members_loop fuel c s p members)
unfolding decode_members_loop
decode_members_loop-Ends zero c s p members some_fuel h = absurd (omega arith)
decode_members_loop-Ends (suc fuel) c s p members some_fuel h =
    elim (Bool-cases (ltb p (length s.elems))) [
      | inl more ↦ rw more (
          Ends-bind (λ t. p < t.2) Any (decode_member c s p) _ (decode_member-Ends c s p)
            (λ t later.
              let left : p < length s.elems = (ground arith) in
              decode_members_loop-Ends fuel t.0 s t.2 (members ++ (t.1 ∷ [])) (omega arith)
                (omega arith)))
      | inr done ↦ rw done tt
    ]

decode_members-Ends : (c : Cluster) (s : Slice) → Ends Any (decode_members c s)
unfolding decode_members
decode_members-Ends c s =
    decode_members_loop-Ends (length s.elems + 1) c s 0 [] (omega arith) (omega arith)

read_members-Ends : (c : Cluster) (s : Slice) (p last : ℕ) → Ends Any (read_members c s p last)
unfolding read_members
read_members-Ends c s p last = elim (Bool-cases (ltb p (length s.elems))) [
  | inl more ↦ rw more (
      Ends-bind Any Any (slice s p last) _ (slice-Ends s p last)
        (λ part _. decode_members-Ends c part))
  | inr none_left ↦ rw none_left tt
]

pub check_origin-Ends : (c : Cluster) (r : Ref) → Ends Any (check_origin c r)
unfolding check_origin
check_origin-Ends c r =
    Ends-bind Any Any (index (shortest (deref c r).ip) 0) _ (index-Ends (shortest (deref c r).ip) 0)
      (λ first _. tt)

decode_broadcast-Ends : (c : Cluster) (s : Slice) → Ends Any (decode_broadcast c s)
unfolding decode_broadcast
decode_broadcast-Ends c s =
    Ends-bind (Past 0) Any (decode_ip c.ip_len s 0) _ (decode_ip-Ends c.ip_len s 0) (λ t1 _.
      Ends-bind (Past t1.1) Any (decode_uint16 s.elems t1.1) _ (decode_uint16-Ends s.elems t1.1)
        (λ t2 _.
          Ends-bind (Past t2.1) Any (decode_uint32 s.elems t2.1) _ (decode_uint32-Ends s.elems t2.1)
            (λ t3 _.
              Ends-bind (Past t3.1) Any (decode_uint16 s.elems t3.1) _
                (decode_uint16-Ends s.elems t3.1)
                (λ t4 _.
                  Ends-bind Any Any (slice s t4.1 (t4.1 + t4.0)) _ (slice-Ends s t4.1 (t4.1 + t4.0))
                    (λ payload _.
                      let found = find_or_create c t1.0 t2.0 in
                      Ends-bind Any Any (check_origin found.0 found.1) _
                        (check_origin-Ends found.0 found.1) (λ fault _. tt))))))

read_broadcast-Ends : (c : Cluster) (s : Slice) (last : ℕ) → Ends Any (read_broadcast c s last)
unfolding read_broadcast slice_from
read_broadcast-Ends c s last = elim (Bool-cases (ltb last (length s.elems))) [
  | inl more ↦ rw more (
      Ends-bind Any Any (slice s last (length s.elems)) _ (slice-Ends s last (length s.elems))
        (λ part _.
          Ends-bind Any Any (decode_broadcast c part) _ (decode_broadcast-Ends c part) (λ t _. tt)))
  | inr none_left ↦ rw none_left tt
]

pub decode_byte-Ends : (bytes : List ℕ) (p : ℕ) → Ends (Past p) (decode_byte bytes p)
unfolding decode_byte
decode_byte-Ends bytes p =
    Ends-bind Any (Past p) (index bytes p) _ (index-Ends bytes p) (λ b _. omega arith)

decode_body-Ends :
    (c : Cluster) (source_ip : Ip) (s : Slice) (p : ℕ) → Ends Any (decode_body c source_ip s p)
unfolding decode_body
decode_body-Ends c source_ip s p =
    Ends-bind (Past p) Any (decode_byte s.elems p) _ (decode_byte-Ends s.elems p) (λ t1 _.
      Ends-bind (Past t1.1) Any (decode_uint16 s.elems t1.1) _ (decode_uint16-Ends s.elems t1.1)
        (λ t2 _.
          Ends-bind (Past t2.1) Any (decode_uint32 s.elems t2.1) _ (decode_uint32-Ends s.elems t2.1)
            (λ t3 _.
              let sender = find_or_create c source_ip t2.0 in
              let last = t3.1 + t1.0 / 4 * (9 + c.ip_len + c.ip_len) in
              Ends-bind Any Any (read_members sender.0 s t3.1 last) _
                (read_members-Ends sender.0 s t3.1 last)
                (λ t4 _.
                  Ends-bind Any Any (read_broadcast t4.0 s last) _ (read_broadcast-Ends t4.0 s last)
                    (λ t5 _. tt)))))

decode_message-Ends :
    (c : Cluster) (source_ip : Ip) (s : Slice) → Ends Any (decode_message c source_ip s)
unfolding decode_message
decode_message-Ends c source_ip s =
    Ends-bind (Past 0) Any (decode_uint32 s.elems 0) _ (decode_uint32-Ends s.elems 0) (λ t _.
      elim (Bool-cases (checksum (drop 4 s.elems) == t.0)) [
        | inl right ↦ rw right (decode_body-Ends c source_ip s t.1)
        | inr wrong ↦ rw wrong tt
      ])

-- decodeMessage is never cut off, whatever the bytes are: the rounds that the model allows the loop
-- over the members are enough, so it returns or it panics.
pub decode_message-not-stuck :
    (c : Cluster) (source_ip : Ip) (s : Slice) → decode_message c source_ip s ≢ stuck
decode_message-not-stuck c source_ip s e = subst (Ends Any) e (decode_message-Ends c source_ip s)
