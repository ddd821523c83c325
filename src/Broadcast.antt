-- ===== src/Broadcast.antt =====
-- broadcast.go.
pub mod Codec
pub mod Accept
pub mod Emit
pub mod Labels
use smudge.Prelude.{
  ℕ, zero, suc, ◌+◌, ◌%◌, ◌^◌, Bool, true, false, ◌||◌, Option, none, some, List, [], ◌∷◌,
  replicate, length, ltb, leb, ◌==◌, if◌then◌else◌,
}
use smudge.Prelude.Outcome.{Outcome, ok, panic, ◌>>=◌}
use smudge.Prelude.Maps.{lookup, insert, remove, has_key}
use smudge.Prelude.Sort.{sort}
use smudge.Bytes.{index, decode_uint16, decode_uint32}
use smudge.Net.{Ip, shortest}
use smudge.Wire.{
  Slice, slice, copy_bytes, put_ip, put_uint16, put_uint32, decode_ip, find_or_create,
}
use smudge.Events.{do_broadcast_update}
use smudge.Cluster.{
  Cluster, Broadcast, Ref, Tag, Tag-discrete, deref, address_of, emit_count, int8, rank8, dec8,
}

pub data Error : Type 0 where
  originless payload_too_long : Error

-- broadcastRemoveValue is -100, which has this rank.
abbrev pub broadcast_remove_value : ℕ
broadcast_remove_value = 28

-- Bytes(): a copy of the payload.
abbrev pub bytes_copy : Broadcast → List ℕ
bytes_copy b = b.bytes

-- Label().
unfoldable pub label : Cluster → Broadcast → Tag
label c b = record { address = address_of c b.origin; code = b.index }

-- BroadcastBytes.
unfoldable pub broadcast_bytes : Cluster → List ℕ → Cluster × Option Error
broadcast_bytes c bytes =
    if ltb c.max_broadcast_bytes (length bytes)
    then (c, some payload_too_long)
    else (let bcast : Broadcast = record {
      bytes = bytes;
      origin = c.this_host;
      index = c.index_counter;
      emit_counter = int8 (emit_count c);
    } in
        (
          record c {
            broadcasts = insert Tag-discrete (label c bcast) bcast c.broadcasts;
            index_counter = (c.index_counter + 1) % 2 ^ 32;
          },
          none,
        ))

unfoldable pub encode : Cluster → Broadcast → Outcome (List ℕ)
encode c b = do
  let size = 8 + c.ip_len + length b.bytes
  let ip = shortest (deref c b.origin).ip
  s0 ← put_ip c.ip_len ip (0, replicate size 0)
  s1 ← put_uint16 (deref c b.origin).port s0
  s2 ← put_uint32 b.index s1
  (p, bytes) ← put_uint16 (length b.bytes % 65536) s2
  copy_bytes 0 b.bytes bytes p

unfoldable pub check_origin : Cluster → Ref → Outcome (Option Error)
check_origin c origin = do
  first ← index (shortest (deref c origin).ip) 0
  ok (if (first == 0) || ((deref c origin).port == 0) then some originless else none)

abbrev pub judge : Option Error → Bool → Option Error
judge (some e) too_long = some e
judge none too_long = if too_long then some payload_too_long else none

unfoldable pub decode_broadcast : Cluster → Slice → Outcome (Cluster × Broadcast × Option Error)
decode_broadcast c s = do
  (ip, p1) ← decode_ip c.ip_len s 0
  (port, p2) ← decode_uint16 s.elems p1
  (number, p3) ← decode_uint32 s.elems p2
  (len, p4) ← decode_uint16 s.elems p3
  let found = find_or_create c ip port
  payload ← slice s p4 (p4 + len)
  let bcast : Broadcast = record {
    bytes = payload.elems;
    origin = found.1;
    index = number;
    emit_counter = int8 (emit_count found.0);
  }
  fault ← check_origin found.0 found.1
  ok (found.0, bcast, judge fault (ltb c.max_broadcast_bytes len))

-- Less of byBroadcastEmitCounter.
abbrev pub by_broadcast_emit_counter : Tag × Broadcast → ℕ
by_broadcast_emit_counter e = rank8 e.1.emit_counter

-- The loop of getBroadcastToEmit that removes what was emitted often enough.
unfoldable pub expire_loop :
    Cluster
    → List (Tag × Broadcast)
    → List (Tag × Broadcast)
    → List (Tag × Broadcast) × List (Tag × Broadcast)
expire_loop c m [] = (m, [])
expire_loop c m (e ∷ entries) =
    let old = leb (rank8 e.1.emit_counter) broadcast_remove_value in
    let rest = expire_loop c (if old then remove Tag-discrete (label c e.1) m else m) entries in
    (rest.0, if old then rest.1 else e ∷ rest.1)

abbrev head? : List (Tag × Broadcast) → Option (Tag × Broadcast)
head? [] = none
head? (e ∷ entries) = some e

-- The broadcast is returned with the key under which the map holds it.
unfoldable pub get_broadcast_to_emit : Cluster → Cluster × Option (Tag × Broadcast)
get_broadcast_to_emit c =
    let (m, slice) = expire_loop c c.broadcasts c.broadcasts in
    (record c { broadcasts = m }, head? (sort by_broadcast_emit_counter slice))

-- The part of receiveBroadcast behind the check of the origin.
unfoldable pub accept : Cluster → Broadcast → Cluster
accept c b =
    if has_key Tag-discrete (label c b) c.broadcasts
    then c
    else do_broadcast_update
        (record c { broadcasts = insert Tag-discrete (label c b) b c.broadcasts }) b

abbrev pub unless : Option Error → Cluster → Cluster → Cluster
unless (some e) c c' = c
unless none c c' = c'

unfoldable pub receive_broadcast : Cluster → Option Broadcast → Outcome Cluster
receive_broadcast c none = ok c
receive_broadcast c (some b) = do fault ← check_origin c b.origin; ok (unless fault c (accept c b))
