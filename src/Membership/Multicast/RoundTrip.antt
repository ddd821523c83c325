-- ===== src/Membership/Multicast/RoundTrip.antt =====
-- membership.go: what decodeMulticastAnnounceBytes makes of an announcement.
use smudge.Prelude.{
  ℕ, ◌+◌, ◌%◌, ◌^◌, ◌≤◌, ◌<◌, ◌≡◌, refl, false, none, some, List, [], ◌∷◌, ◌++◌, length,
  length-append, append-nil, ltb, arith,
}
use smudge.Prelude.Outcome.{ok}
use smudge.Net.{Ip}
use smudge.Wire.{Slice}
use smudge.Wire.Read.{IsIpLen}
use smudge.Wire.Rest.{Rest, Rest-start, Rest-advance, index-Rest, slice-Rest}
use smudge.Cluster.{Cluster, verb_ping, deref}
use smudge.Message
use smudge.Message.{Message, new_message, decode_message}
use smudge.Message.Encode.{CanEncodeMessage}
use smudge.Message.RoundTrip.{InRange, decode_message-encode, resolve_broadcast}
use smudge.Message.Body.{resolve_body}
use smudge.Membership.Multicast.{encode_multicast_announce_bytes, decode_multicast_announce_bytes}

decode-parts :
    (name msg spare : List ℕ)
    → decode_multicast_announce_bytes
        (record { elems = length name ∷ (name ++ msg); spare = spare })
      ≡ ok (some (name, record { elems = msg; spare = spare }))
unfolding decode_multicast_announce_bytes
decode-parts name msg spare =
    let all = length name ∷ (name ++ msg) in
    let r0 = Rest-start all in
    let r1 = Rest-advance all 0 (length name ∷ []) (name ++ msg) 1 r0 refl in
    let r2 : Rest all (1 + length name) (msg ++ []) =
      rw append-nil (Rest-advance all 1 name msg (length name) r1 refl) in
    let swap : length name + 1 ≡ 1 + length name = omega arith in
    let whole : length all ≡ 1 + length name + length msg = omega (arith, length-append name msg) in
    let enough : ltb (length all) (1 + length name) ≡ false = ground (arith, whole) in
    rw
      (
        index-Rest all 0 (length name) (name ++ msg) r0,
        swap,
        enough,
        slice-Rest all spare 1 name msg (length name) refl r1,
        whole,
        slice-Rest all spare (1 + length name) msg [] (length msg) refl r2,
      )
      refl

an_announcement : Cluster → Message
an_announcement c = new_message verb_ping (some c.this_host) c.current_heartbeat

an_announcement-CanEncodeMessage :
    (c : Cluster) → CanEncodeMessage c (an_announcement c) c.this_host
unfolding an_announcement new_message
an_announcement-CanEncodeMessage c = record {
  has_sender = refl;
  members_fit = tt;
  broadcast_fits = tt;
}

an_announcement-InRange :
    (c : Cluster)
    → (deref c c.this_host).port < 2 ^ 16
    → c.current_heartbeat < 2 ^ 32
    → InRange c (an_announcement c) c.this_host
unfolding an_announcement new_message
an_announcement-InRange c hp hh = record {
  verb_lt = omega arith;
  few = omega arith;
  port_lt = hp;
  heartbeat_lt = hh;
  members_in_range = tt;
  broadcast_in_range = tt;
}

encode-parts :
    (c : Cluster) (name inner : List ℕ)
    → length name ≤ 255
    → Message.encode c (an_announcement c) ≡ ok inner
    → encode_multicast_announce_bytes c name ≡ ok (length name ∷ (name ++ inner))
unfolding encode_multicast_announce_bytes an_announcement
encode-parts c name inner h e =
    let fits : ltb 255 (length name) ≡ false = ground arith in
    let byte : length name % 256 ≡ length name = omega arith in rw (fits, e, byte) refl

-- A host whose cluster name has at most 255 bytes, and whose port and heartbeat fit their fields,
-- encodes an announcement. A host with the same IP length takes it apart into that name and a
-- message, and decodes the message as a ping of the sender's heartbeat without members or broadcast.
pub decode_multicast-encode :
    (c c' : Cluster) (name : List ℕ) (source_ip : Ip) (spare : List ℕ)
    → length name ≤ 255
    → (deref c c.this_host).port < 2 ^ 16
    → c.current_heartbeat < 2 ^ 32
    → IsIpLen c'.ip_len
    → c.ip_len ≡ c'.ip_len
    → (bytes : List ℕ) × (inner : Slice) × (encode_multicast_announce_bytes c name ≡ ok bytes)
      × (decode_multicast_announce_bytes (record { elems = bytes; spare = spare })
          ≡ ok (some (name, inner)))
      × (decode_message c' source_ip inner
          ≡ resolve_body c' source_ip verb_ping
              (deref c c.this_host).port
              c.current_heartbeat
              []
              (resolve_broadcast c none))
decode_multicast-encode c c' name source_ip spare h hp hh ip e =
    let (inner, encoded, decoded) =
      decode_message-encode c c' (an_announcement c) c.this_host source_ip spare
        (an_announcement-CanEncodeMessage c) (an_announcement-InRange c hp hh) ip e in
    (
      length name ∷ (name ++ inner),
      record { elems = inner; spare = spare },
      encode-parts c name inner h encoded,
      decode-parts name inner spare,
      unfold an_announcement new_message in decoded,
    )
