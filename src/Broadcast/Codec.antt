-- ===== src/Broadcast/Codec.antt =====
-- broadcast.go: encode and decodeBroadcast against the layout in their comments.
use smudge.Prelude.{
  ℕ, ◌+◌, ◌%◌, ◌^◌, ◌<◌, ◌≡◌, refl, List, [], ◌++◌, length, length-append, append_assoc, append-nil,
  arith, ltb,
}
use smudge.Prelude.Outcome.{ok, ◌>>=◌}
use smudge.Bytes.Little.{little, length-little}
use smudge.Net.{Ip, shortest}
use smudge.Wire.{find_or_create}
use smudge.Wire.Write.{put_ip-Writes_at, put_uint16-Writes, put_uint32-Writes, copy_bytes-Writes}
use smudge.Wire.Read.{IsIpLen, expand}
use smudge.Wire.Rest.{
  Rest, Rest-start, Rest-advance, decode_ip-Rest, decode_uint16-Rest, decode_uint32-Rest,
  slice-Rest,
}
use smudge.Cluster.{Cluster, Broadcast, deref, emit_count, int8}
use smudge.Broadcast.{encode, decode_broadcast, check_origin, judge}

-- The IP of the origin, its port, the index, the length of the payload, the payload.
unfoldable pub layout : Ip → ℕ → ℕ → List ℕ → List ℕ
layout ip port number payload =
    ip ++ (little 2 port ++ (little 4 number ++ (little 2 (length payload) ++ payload)))

pub length-layout :
    (ip : Ip) (port number : ℕ) (payload : List ℕ)
    → length (layout ip port number payload) ≡ 8 + length ip + length payload
unfolding layout
length-layout ip port number payload =
    rw
      (
        length-append ip,
        length-append (little 2 port),
        length-append (little 4 number),
        length-append (little 2 (length payload)),
        length-little,
        length-little,
        length-little,
      )
      (omega arith)

-- What a broadcast must be to be sent: `ip` is its origin's, and takes `ipLen` bytes.
pub record CanEncode (c : Cluster) (b : Broadcast) (ip : Ip) : Type 0 where
  pub origin_ip : shortest (deref c b.origin).ip ≡ ip
  pub fits : length ip ≡ c.ip_len
  pub short : length b.bytes < 2 ^ 16

size_split :
    (ip_len : ℕ) (ip : Ip) (port number len : ℕ) (payload : List ℕ)
    → length ip ≡ ip_len
    → 8 + ip_len + length payload
      ≡ length ip
        + (length (little 2 port)
            + (length (little 4 number) + (length (little 2 len) + (length payload + 0))))
size_split ip_len ip port number len payload e =
    omega (arith, length-little 2 port, length-little 4 number, length-little 2 len)

-- A broadcast is encoded in its layout.
pub encode-layout :
    (c : Cluster) (b : Broadcast) (ip : Ip)
    → CanEncode c b ip
    → encode c b ≡ ok (layout ip (deref c b.origin).port b.index b.bytes)
unfolding encode layout
encode-layout c b ip h =
    let port = (deref c b.origin).port in
    let len = length b.bytes in
    let whole : len % 65536 ≡ len = omega (arith, h.short) in
    rw
      (
        h.origin_ip,
        whole,
        size_split c.ip_len ip port b.index len b.bytes h.fits,
        put_ip-Writes_at c.ip_len ip h.fits [],
        put_uint16-Writes port ip,
        put_uint32-Writes b.index,
        put_uint16-Writes len,
        copy_bytes-Writes b.bytes,
      )
      (simp (append_assoc, append-nil))

-- What decodeBroadcast makes of a layout, whatever follows it in the array.
pub decode_broadcast-layout :
    (c : Cluster) (ip : Ip) (port number : ℕ) (payload spare : List ℕ)
    → IsIpLen c.ip_len
    → length ip ≡ c.ip_len
    → port < 2 ^ 16
    → number < 2 ^ 32
    → length payload < 2 ^ 16
    → let found = find_or_create c (expand c.ip_len ip) port in
      let bcast : Broadcast = record {
        bytes = payload;
        origin = found.1;
        index = number;
        emit_counter = int8 (emit_count found.0);
      } in
      decode_broadcast c (record { elems = layout ip port number payload; spare = spare }) ≡ (
        check_origin found.0 found.1 >>= λ fault.
        ok (found.0, bcast, judge fault (ltb c.max_broadcast_bytes (length payload))))
unfolding decode_broadcast layout
decode_broadcast-layout c ip port number payload spare h fits hp hn hl =
    let all = layout ip port number payload in
    let r0 = Rest-start all in
    let r1 = Rest-advance all 0 ip _ c.ip_len r0 fits in
    let r2 = Rest-advance all (0 + c.ip_len) (little 2 port) _ 2 r1 (length-little 2 port) in
    let r3 =
      Rest-advance all (0 + c.ip_len + 2) (little 4 number) _ 4 r2 (length-little 4 number) in
    let r4 =
      Rest-advance all (0 + c.ip_len + 2 + 4) (little 2 (length payload)) payload 2 r3
        (length-little 2 (length payload)) in
    let r5 : Rest all (0 + c.ip_len + 2 + 4 + 2) (payload ++ []) = rw append-nil r4 in
    rw (
      decode_ip-Rest c.ip_len all spare 0 ip _ h fits r0,
      decode_uint16-Rest all (0 + c.ip_len) port _ r1 hp,
      decode_uint32-Rest all (0 + c.ip_len + 2) number _ r2 hn,
      decode_uint16-Rest all (0 + c.ip_len + 2 + 4) (length payload) _ r3 hl,
      slice-Rest all spare (0 + c.ip_len + 2 + 4 + 2) payload [] (length payload) refl r5,
    )
