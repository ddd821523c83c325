-- ===== src/Tests/Codecs.antt =====
-- The formats, at the states of the tests.
use smudge.Prelude.{ℕ, ◌≡◌, ◌≢◌, refl, none, some, List, [], ◌∷◌, ◌++◌, map, arith, inl}
use smudge.Prelude.Outcome.{stuck, ok}
use smudge.Bytes.Little.{little}
use smudge.Checksum.{checksum}
use smudge.Net.{to4, shortest}
use smudge.Cluster.{verb_ping, deref}
use smudge.Broadcast.Codec.{CanEncode}
use smudge.Message.{wire_ip, encode, decode_message, new_message, checksum_failure}
use smudge.Message.Layout.{wire_member, source_ip_of, source_port_of}
use smudge.Message.Encode.{CanEncodeMessage}
use smudge.Message.RoundTrip.{InRange, decode_message-encode, resolve_broadcast}
use smudge.Message.Body.{resolve_body}
use smudge.Message.Corrupted.{decode_message-corrupted}
use smudge.Message.Rounds.{decode_message-not-stuck}
use smudge.Membership.Multicast.{encode_multicast_announce_bytes, decode_multicast_announce_bytes}
use smudge.Membership.Multicast.RoundTrip.{decode_multicast-encode}
use smudge.Wire.{Slice}
use smudge.Tests.{a_cluster, a_message, a_broadcast}

decode_message-corrupted_example :
    decode_message a_cluster
      (10 ∷ 0 ∷ 0 ∷ 2 ∷ [])
      (record { elems = little 4 (checksum (1 ∷ 2 ∷ 3 ∷ [])) ++ (1 ∷ 5 ∷ 3 ∷ []); spare = [] })
    ≡ ok (a_cluster, new_message 255 none 0, some checksum_failure)
decode_message-corrupted_example =
    decode_message-corrupted a_cluster (10 ∷ 0 ∷ 0 ∷ 2 ∷ []) (1 ∷ []) (3 ∷ []) [] 2 5 (omega arith)
      (omega arith) (omega arith)

a_broadcast-CanEncode : CanEncode a_cluster a_broadcast (10 ∷ 0 ∷ 0 ∷ 1 ∷ [])
unfolding deref shortest to4
a_broadcast-CanEncode = record { origin_ip = refl; fits = refl; short = omega arith }

a_message-CanEncodeMessage : CanEncodeMessage a_cluster a_message 2
unfolding deref shortest to4 wire_member wire_ip source_ip_of source_port_of
a_message-CanEncodeMessage = record {
  has_sender = refl;
  members_fit = ((refl, refl), tt);
  broadcast_fits = a_broadcast-CanEncode;
}

a_message-InRange : InRange a_cluster a_message 2
unfolding deref shortest to4 wire_member wire_ip source_ip_of source_port_of
a_message-InRange = record {
  verb_lt = omega arith;
  few = omega arith;
  port_lt = omega arith;
  heartbeat_lt = omega arith;
  members_in_range = (
    record { port_lt = omega arith; heartbeat_lt = omega arith; source_port_lt = omega arith },
    tt,
  );
  broadcast_in_range = (omega arith, omega arith);
}

decode_message-encode_example :
    (bytes : List ℕ) × (encode a_cluster a_message ≡ ok bytes)
    × (decode_message a_cluster (10 ∷ 0 ∷ 0 ∷ 3 ∷ []) (record { elems = bytes; spare = 1 ∷ [] })
        ≡ resolve_body a_cluster
            (10 ∷ 0 ∷ 0 ∷ 3 ∷ [])
            0
            (deref a_cluster 2).port
            8
            (map (wire_member a_cluster) a_message.members)
            (resolve_broadcast a_cluster a_message.broadcast))
decode_message-encode_example =
    decode_message-encode a_cluster a_cluster a_message 2 (10 ∷ 0 ∷ 0 ∷ 3 ∷ []) (1 ∷ [])
      a_message-CanEncodeMessage a_message-InRange (inl refl) refl

decode_message-not-stuck_example :
    decode_message a_cluster
      (10 ∷ 0 ∷ 0 ∷ 2 ∷ [])
      (record { elems = 1 ∷ 2 ∷ 3 ∷ 4 ∷ 5 ∷ []; spare = [] })
    ≢ stuck
decode_message-not-stuck_example =
    decode_message-not-stuck a_cluster (10 ∷ 0 ∷ 0 ∷ 2 ∷ [])
      (record { elems = 1 ∷ 2 ∷ 3 ∷ 4 ∷ 5 ∷ []; spare = [] })

decode_multicast-encode_example :
    (bytes : List ℕ) × (inner : Slice) × (encode_multicast_announce_bytes a_cluster (115 ∷ 109 ∷ [])
      ≡ ok bytes)
    × (decode_multicast_announce_bytes (record { elems = bytes; spare = 0 ∷ [] })
        ≡ ok (some (115 ∷ 109 ∷ [], inner)))
    × (decode_message a_cluster (10 ∷ 0 ∷ 0 ∷ 1 ∷ []) inner
        ≡ resolve_body a_cluster
            (10 ∷ 0 ∷ 0 ∷ 1 ∷ [])
            verb_ping
            (deref a_cluster 0).port
            6
            []
            (resolve_broadcast a_cluster none))
decode_multicast-encode_example =
    decode_multicast-encode a_cluster a_cluster (115 ∷ 109 ∷ []) (10 ∷ 0 ∷ 0 ∷ 1 ∷ []) (0 ∷ [])
      (omega arith) (unfold deref in omega arith) (omega arith) (inl refl) refl
