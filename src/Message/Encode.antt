-- ===== src/Message/Encode.antt =====
-- message.go: encode writes the layout of a message.
use smudge.Prelude.{
  ℕ, zero, suc, ◌+◌, ◌*◌, ◌%◌, ◌≡◌, refl, ap, sym, subst, ◌∙◌, Option, none, some, List, [], ◌∷◌,
  ◌++◌, length, map, length-append, length-map, length-replicate, append_assoc, append-nil, arith,
  All,
}
use smudge.Prelude.Outcome.{ok, or_panic}
use smudge.Bytes.Little.{little, length-little, encode_uint32-little}
use smudge.Bytes.{encode_uint32}
use native.Mathlib.Nat.{suc-add, add-zero}
use smudge.Checksum.{checksum}
use smudge.Net.{shortest}
use smudge.Wire.{put_byte, put_ip, put_uint16, put_uint32}
use smudge.Wire.Write.{
  zeros, Writes, Writes-then, Writes-nil, put_byte-Writes, put_ip-Writes_at, put_uint16-Writes,
  put_uint32-Writes, copy_bytes-Writes, four_zeros,
}
use smudge.Broadcast.Codec
use smudge.Broadcast.Codec.{CanEncode, encode-layout, length-layout}
use smudge.Cluster.{Cluster, Broadcast, Ref, deref}
use smudge.Message.{
  Message, MessageMember, wire_ip, put_source, put_member, put_members, broadcast_size,
  put_broadcast, verb_byte, encode,
}
use smudge.Message.Layout.{
  source_ip_of, source_port_of, wire_member, member_layout, members_layout, broadcast_layout,
  body_layout, IsFit, length-members_layout,
}

zeros-append : (m n : ℕ) → zeros m ++ zeros n ≡ zeros (m + n)
zeros-append zero n = ap zeros (omega arith)
zeros-append (suc m) n = rw (suc-add, zeros-append m n)

-- A pointer that is moved on leaves zeros behind.
skip-Writes : (k : ℕ) → Writes (λ c. ok (c.0 + k, c.1)) (zeros k)
skip-Writes k pre n =
    rw (
      length-append pre (zeros k),
      length-replicate {A = ℕ} k 0,
      append_assoc pre,
      zeros-append k n,
    )

two_zeros : little 2 0 ≡ zeros 2
unfolding little
two_zeros = refl

put_source-Writes :
    (c : Cluster) (source : Option Ref)
    → length (source_ip_of c source) ≡ c.ip_len
    → Writes (put_source c source) (source_ip_of c source ++ little 2 (source_port_of c source))
unfolding put_source source_ip_of source_port_of
put_source-Writes c none h =
    subst (Writes (λ s. ok (s.0 + (c.ip_len + 2), s.1)))
      (sym (ap (◌++◌ (zeros c.ip_len)) two_zeros ∙ zeros-append c.ip_len 2))
      (skip-Writes (c.ip_len + 2))
put_source-Writes c (some r) h =
    Writes-then (put_ip c.ip_len (wire_ip c.ip_len (deref c r).ip)) (put_uint16 (deref c r).port) _
      _ (put_ip-Writes_at c.ip_len _ h) (put_uint16-Writes (deref c r).port)

put_member-Writes :
    (c : Cluster) (m : MessageMember)
    → IsFit c.ip_len (wire_member c m)
    → Writes (put_member c m) (member_layout (wire_member c m))
unfolding put_member member_layout wire_member
put_member-Writes c m h =
    Writes-then (put_byte (m.status % 256)) _ _ _ (put_byte-Writes (m.status % 256)) (
      Writes-then (put_ip c.ip_len (wire_ip c.ip_len (deref c m.node).ip)) _ _ _
        (put_ip-Writes_at c.ip_len _ h.0)
        (Writes-then (put_uint16 (deref c m.node).port) _ _ _
          (put_uint16-Writes (deref c m.node).port)
          (Writes-then (put_uint32 m.heartbeat) _ _ _ (put_uint32-Writes m.heartbeat)
            (put_source-Writes c m.source h.1))))

put_members-Writes :
    (c : Cluster) (ms : List MessageMember)
    → All (IsFit c.ip_len) (map (wire_member c) ms)
    → Writes (put_members c ms) (members_layout (map (wire_member c) ms))
unfolding put_members members_layout
put_members-Writes c [] h = Writes-nil
put_members-Writes c (m ∷ ms) h =
    Writes-then (put_member c m) (put_members c ms) _ _ (put_member-Writes c m h.0)
      (put_members-Writes c ms h.1)

-- The condition on the broadcast of a message, and what it adds.
abbrev pub BroadcastFits : Cluster → Option Broadcast → Type 0
BroadcastFits c none = Unit {0}
BroadcastFits c (some b) = CanEncode c b (shortest (deref c b.origin).ip)

length-broadcast_layout :
    (c : Cluster) (b : Option Broadcast)
    → BroadcastFits c b
    → length (broadcast_layout c b) ≡ broadcast_size c b
unfolding broadcast_layout broadcast_size
length-broadcast_layout c none h = refl
length-broadcast_layout c (some b) h = omega (
  arith,
  length-layout (shortest (deref c b.origin).ip) (deref c b.origin).port b.index b.bytes,
  h.fits,
)

put_broadcast-layout :
    (c : Cluster) (b : Option Broadcast) (pre : List ℕ)
    → BroadcastFits c b
    → put_broadcast c b (length pre, pre ++ zeros (length (broadcast_layout c b)))
      ≡ ok (pre ++ broadcast_layout c b)
unfolding put_broadcast broadcast_layout
put_broadcast-layout c none pre h = refl
put_broadcast-layout c (some b) pre h =
    let bs =
      Codec.layout (shortest (deref c b.origin).ip) (deref c b.origin).port b.index b.bytes in
    let copied = copy_bytes-Writes bs pre 0 in
    let whole = rw (add-zero, append-nil) at copied in
    rw (encode-layout c b (shortest (deref c b.origin).ip) h) whole

-- What a message must be to be encoded: it has a sender, and every IP takes `ipLen` bytes.
pub record CanEncodeMessage (c : Cluster) (m : Message) (sender : Ref) : Type 0 where
  pub has_sender : m.sender ≡ some sender
  pub members_fit : All (IsFit c.ip_len) (map (wire_member c) m.members)
  pub broadcast_fits : BroadcastFits c m.broadcast

-- What `encode` writes behind the checksum.
unfoldable pub body : Cluster → Message → Ref → List ℕ
body c m sender =
    body_layout (verb_byte m) (deref c sender).port m.sender_heartbeat
      (map (wire_member c) m.members) (broadcast_layout c m.broadcast)

-- The length that is computed first is the one that is written.
size_split :
    (c : Cluster) (m : Message) (sender : Ref)
    → CanEncodeMessage c m sender
    → 11 + length m.members * (9 + c.ip_len + c.ip_len) + broadcast_size c m.broadcast
      ≡ 4
        + (1
            + (length (little 2 (deref c sender).port)
                + (length (little 4 m.sender_heartbeat)
                    + (length (members_layout (map (wire_member c) m.members))
                        + length (broadcast_layout c m.broadcast)))))
size_split c m sender h = omega (
  arith,
  length-little 2 (deref c sender).port,
  length-little 4 m.sender_heartbeat,
  length-members_layout c.ip_len (map (wire_member c) m.members) h.members_fit,
  ap (λ (t : ℕ). t * (9 + c.ip_len + c.ip_len)) (length-map m.members (wire_member c)),
  length-broadcast_layout c m.broadcast h.broadcast_fits,
)

seal : (n : ℕ) (suf : List ℕ) → encode_uint32 n (0 ∷ 0 ∷ 0 ∷ 0 ∷ suf) 0 ≡ ok (4, little 4 n ++ suf)
seal n suf = encode_uint32-little n [] suf 0 0 0 0

-- Encoding a message writes its checksum and its layout.
pub encode_message-layout :
    (c : Cluster) (m : Message) (sender : Ref)
    → CanEncodeMessage c m sender
    → encode c m ≡ ok (little 4 (checksum (body c m sender)) ++ body c m sender)
unfolding encode body body_layout
encode_message-layout c m sender h =
    let start : List ℕ = 0 ∷ 0 ∷ 0 ∷ 0 ∷ [] in
    let head =
      (little 2 (deref c sender).port ++ little 4 m.sender_heartbeat)
      ++ members_layout (map (wire_member c) m.members) in
    let found = ap or_panic h.has_sender in
    rw
      (
        size_split c m sender h,
        four_zeros,
        put_byte-Writes (verb_byte m) start,
        found,
        put_uint16-Writes (deref c sender).port,
        put_uint32-Writes m.sender_heartbeat,
        put_members-Writes c m.members h.members_fit,
        put_broadcast-layout c m.broadcast (start ++ (verb_byte m ∷ head)) h.broadcast_fits,
      )
      (simp append_assoc (rw seal))
