-- ===== src/Message.antt =====
-- message.go.
pub mod Layout
pub mod Decode
pub mod Rounds
pub mod RoundTrip
pub mod Corrupted
pub mod Sound
pub mod Written
pub mod Body
pub mod Encode
use smudge.Prelude.{
  ℕ, zero, suc, ◌+◌, ◌*◌, ◌/◌, ◌%◌, ◌^◌, Bool, true, false, Option, none, some, List, [], ◌∷◌, ◌++◌,
  replicate, length, drop, ltb, leb, ◌==◌, if◌then◌else◌, bit_or,
}
use smudge.Prelude.Outcome.{Outcome, ok, panic, stuck, ◌>>=◌, or_panic}
use smudge.Bytes.{index, encode_uint32, decode_byte, decode_uint16, decode_uint32, shl}
use smudge.Checksum.{checksum}
use smudge.Net.{Ip, to4, to16, ipv4_len, ipv6_len}
use smudge.Wire.{
  Slice, slice, slice_from, Cursor, put_byte, put_uint16, put_uint32, put_ip, copy_bytes, decode_ip,
  find_or_create,
}
use smudge.Broadcast
use smudge.Broadcast.{originless, payload_too_long}
use smudge.Cluster.{Cluster, Broadcast, NodeStatus, MessageVerb, Ref, deref, status_forward_to}

pub record MessageMember : Type 0 where
  pub source : Option Ref
  pub heartbeat : ℕ
  pub node : Ref
  pub status : NodeStatus

-- `sender` is nil in the message that comes with a checksum failure.
pub record Message : Type 0 where
  pub sender : Option Ref
  pub sender_heartbeat : ℕ
  pub verb : MessageVerb
  pub members : List MessageMember
  pub broadcast : Option Broadcast

pub data Error : Type 0 where
  member_list_overflow checksum_failure : Error
  broadcast_error : Broadcast.Error → Error

unfoldable pub new_message : MessageVerb → Option Ref → ℕ → Message
new_message verb sender sender_heartbeat = record {
  sender = sender;
  sender_heartbeat = sender_heartbeat;
  verb = verb;
  members = [];
  broadcast = none;
}

unfoldable pub add_broadcast : Message → Broadcast → Message
add_broadcast m broadcast = record m { broadcast = some broadcast }

-- A nil list is an empty one.
unfoldable pub add_member : Message → Ref → NodeStatus → ℕ → Option Ref → Message × Option Error
add_member m node status heartbeat gossip_source =
    if leb 63 (length m.members)
    then (m, some member_list_overflow)
    else (let member : MessageMember = record {
      source = gossip_source;
      heartbeat = heartbeat;
      node = node;
      status = status;
    } in
        (record m { members = m.members ++ (member ∷ []) }, none))

abbrev nil_or : Option Ip → Ip
nil_or none = []
nil_or (some ip) = ip

-- The IP as it is sent: its 4 or its 16 bytes; nil, which the loop then indexes, for neither.
unfoldable pub wire_ip : ℕ → Ip → Ip
wire_ip ip_len ip =
    if ip_len == ipv4_len
    then nil_or (to4 ip)
    else (if ip_len == ipv6_len then nil_or (to16 ip) else [])

-- The gossip source: its IP and port, or as many bytes left at 0.
unfoldable pub put_source : Cluster → Option Ref → Cursor → Outcome Cursor
put_source c none (p, bytes) = ok (p + (c.ip_len + 2), bytes)
put_source c (some snode) s = do
  s1 ← put_ip c.ip_len (wire_ip c.ip_len (deref c snode).ip) s
  put_uint16 (deref c snode).port s1

unfoldable pub put_member : Cluster → MessageMember → Cursor → Outcome Cursor
put_member c member s = do
  s1 ← put_byte (member.status % 256) s
  s2 ← put_ip c.ip_len (wire_ip c.ip_len (deref c member.node).ip) s1
  s3 ← put_uint16 (deref c member.node).port s2
  s4 ← put_uint32 member.heartbeat s3
  put_source c member.source s4

unfoldable pub put_members : Cluster → List MessageMember → Cursor → Outcome Cursor
put_members c [] s = ok s
put_members c (member ∷ members) s = do s' ← put_member c member s; put_members c members s'

-- The bytes that the broadcast takes, and the loop that copies them to `p`.
unfoldable pub broadcast_size : Cluster → Option Broadcast → ℕ
broadcast_size c none = 0
broadcast_size c (some b) = 8 + c.ip_len + length b.bytes

unfoldable pub put_broadcast : Cluster → Option Broadcast → Cursor → Outcome (List ℕ)
put_broadcast c none (p, bytes) = ok bytes
put_broadcast c (some b) (p, bytes) = do bbytes ← Broadcast.encode c b; copy_bytes 0 bbytes bytes p

-- `verbByte := byte(len(m.members)); verbByte = (verbByte << 2) | byte(m.verb)`.
unfoldable pub verb_byte : Message → ℕ
verb_byte m = bit_or (shl 8 (length m.members % 256) 2) (m.verb % 256)

unfoldable pub encode : Cluster → Message → Outcome (List ℕ)
encode c m = do
  let size = 11 + length m.members * (9 + c.ip_len + c.ip_len) + broadcast_size c m.broadcast
  s1 ← put_byte (verb_byte m) (4, replicate size 0)
  sender ← or_panic m.sender
  s2 ← put_uint16 (deref c sender).port s1
  s3 ← put_uint32 m.sender_heartbeat s2
  s4 ← put_members c m.members s3
  bytes ← put_broadcast c m.broadcast s4
  (_, sealed) ← encode_uint32 (checksum (drop 4 bytes)) bytes 0
  ok sealed

abbrev first_forward : List MessageMember → Option MessageMember
first_forward [] = none
first_forward (member ∷ members) = if member.status == status_forward_to then some member else none

unfoldable pub get_forward_to : Message → Option MessageMember
get_forward_to m = first_forward m.members

-- One round of the loop of decodeMembers, from `p` on.
unfoldable pub decode_member : Cluster → Slice → ℕ → Outcome (Cluster × MessageMember × ℕ)
decode_member c s p = do
  mstatus ← index s.elems p
  (mip, p1) ← decode_ip c.ip_len s (p + 1)
  (mport, p2) ← decode_uint16 s.elems p1
  (mcode, p3) ← decode_uint32 s.elems p2
  let mnode = find_or_create c mip mport
  (sip, p4) ← decode_ip c.ip_len s p3
  (sport, p5) ← decode_uint16 s.elems p4
  let snode = find_or_create mnode.0 sip sport
  ok (
    snode.0,
    record { source = some snode.1; heartbeat = mcode; node = mnode.1; status = mstatus },
    p5,
  )

-- The loop, which goes on while `p < len(bytes)`.
unfoldable pub decode_members_loop :
    ℕ → Cluster → Slice → ℕ → List MessageMember → Outcome (Cluster × List MessageMember)
decode_members_loop zero c s p members = stuck
decode_members_loop (suc fuel) c s p members =
    let round = (do
      (c', member, p') ← decode_member c s p
      decode_members_loop fuel c' s p' (members ++ (member ∷ []))) in
    if ltb p (length s.elems) then round else ok (c, members)

-- Each round moves `p` by a byte at least, so one more round than there are bytes is enough.
unfoldable pub decode_members : Cluster → Slice → Outcome (Cluster × List MessageMember)
decode_members c s = decode_members_loop (length s.elems + 1) c s 0 []

-- `if len(bytes) > p { m.members = decodeMembers(…) }`.
unfoldable pub read_members : Cluster → Slice → ℕ → ℕ → Outcome (Cluster × List MessageMember)
read_members c s p last =
    let decoded = (do part ← slice s p last; decode_members c part) in
    if ltb p (length s.elems) then decoded else ok (c, [])

abbrev lift_error : Option Broadcast.Error → Option Error
lift_error none = none
lift_error (some e) = some (broadcast_error e)

-- `if len(bytes) > memberLastIndex { m.broadcast, err = decodeBroadcast(…) }`.
unfoldable pub read_broadcast :
    Cluster → Slice → ℕ → Outcome (Cluster × Option Broadcast × Option Error)
read_broadcast c s last =
    let decoded = (do
      part ← slice_from s last
      (c', b, e) ← Broadcast.decode_broadcast c part
      ok (c', some b, lift_error e)) in
    if ltb last (length s.elems) then decoded else ok (c, none, none)

-- What decodeMessage does with a message whose checksum is right.
unfoldable pub decode_body : Cluster → Ip → Slice → ℕ → Outcome (Cluster × Message × Option Error)
decode_body c source_ip s p = do
  (v, p1) ← decode_byte s.elems p
  (sender_port, p2) ← decode_uint16 s.elems p1
  (sender_heartbeat, p3) ← decode_uint32 s.elems p2
  let sender = find_or_create c source_ip sender_port
  let m = new_message (v % 4) (some sender.1) sender_heartbeat
  let last = p3 + v / 4 * (9 + c.ip_len + c.ip_len)
  (c1, members) ← read_members sender.0 s p3 last
  (c2, broadcast, e) ← read_broadcast c1 s last
  ok (c2, record m { members = members; broadcast = broadcast }, e)

unfoldable pub decode_message : Cluster → Ip → Slice → Outcome (Cluster × Message × Option Error)
decode_message c source_ip s = do
  (stated, p) ← decode_uint32 s.elems 0
  let body = decode_body c source_ip s p
  if checksum (drop 4 s.elems) == stated
      then body
      else ok (c, new_message 255 none 0, some checksum_failure)
