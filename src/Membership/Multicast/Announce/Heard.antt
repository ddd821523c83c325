-- ===== src/Membership/Multicast/Announce/Heard.antt =====
-- membership.go: from multicastAnnounce to listenUDPMulticast.
use smudge.Prelude.{
  ℕ, ◌^◌, ◌≤◌, ◌<◌, ◌≡◌, refl, ◌∙◌, subst, true, if_pos, none, some, List, [], ◌∷◌, ◌++◌, length,
}
use smudge.Prelude.Outcome.{ok}
use smudge.Prelude.Text.{ℤ}
use smudge.Net.{Ip, Address, node_address_string}
use smudge.Wire.{Slice, find_or_create}
use smudge.Wire.Read.{IsIpLen}
use smudge.Wire.Found
use smudge.Wire.Found.{find_or_create-address}
use smudge.NodeMap
use smudge.Cluster.{Cluster, Ref, deref, verb_ping}
use smudge.Registry.WellFormed.{IsWellFormed, Sound, Sound-then}
use smudge.Message.{Message, decode_message}
use smudge.Message.Decode.{resolve_members}
use smudge.Message.Body.{resolve_body}
use smudge.Message.RoundTrip.{resolve_broadcast}
use smudge.Membership.{update_statuses_from_message}
use smudge.Membership.Statuses.{update_statuses_from_message-returns}
use smudge.Membership.Multicast.{decode_multicast_announce_bytes}
use smudge.Membership.Multicast.Listen.{
  Name-discrete, heed, take_announcement, receive_announcement,
}
use smudge.Membership.Multicast.RoundTrip.{decode_multicast-encode}
use smudge.Membership.Multicast.Announce.{announce_round, next_of}

-- The node at the address is known.
abbrev pub IsKnown : Cluster → Address → Type 0
IsKnown c a = NodeMap.contains_by_address c.known_nodes a ≡ true

-- Decoding an announcement finds or makes the sender's node.
module _ (c : Cluster) (source_ip : Ip) (port heartbeat : ℕ) (w : IsWellFormed c) (inner : Slice)
    (sender_c : Cluster) (positive : 0 < port)
    (decoded : decode_message c source_ip inner
      ≡ resolve_body c source_ip verb_ping port heartbeat []
          (resolve_broadcast sender_c none)) where
  abbrev found : Cluster × Ref
  found = find_or_create c source_ip port

  abbrev ping : Message
  ping = record {
    sender = some found.1;
    sender_heartbeat = heartbeat;
    verb = verb_ping;
    members = [];
    broadcast = none;
  }

  decoded-ping : decode_message c source_ip inner ≡ ok (found.0, ping, none)
  unfolding resolve_body resolve_broadcast resolve_members
  decoded-ping = decoded

  ping-heeded :
      (c2 : Cluster) × (update_statuses_from_message found.0 ping ≡ ok c2)
      × Sound c c2
      × IsKnown c2 (node_address_string source_ip port)
  ping-heeded =
      let (s, inside) = Found.find_or_create-IsFound c source_ip port w in
      let (c2, returns, added) =
        update_statuses_from_message-returns found.0 ping found.1 refl inside tt s.well_formed in
      let at =
        added.sound.grows.keeps found.1 inside
        ∙ find_or_create-address c source_ip port positive w in
      (
        c2,
        returns,
        Sound-then c found.0 c2 s (λ w1. added.sound),
        subst (IsKnown c2) at (unfold NodeMap.contains in added.present),
      )

  heard :
      (name : List ℕ) (bytes : Slice)
      → decode_multicast_announce_bytes bytes ≡ ok (some (name, inner))
      → (c2 : Cluster) × (receive_announcement c name source_ip bytes ≡ ok c2)
        × Sound c c2
        × IsKnown c2 (node_address_string source_ip port)
  unfolding receive_announcement take_announcement heed
  heard name bytes e =
      let (c2, returns, s, known) = ping-heeded in
      (c2, rw (e, if_pos (Name-discrete name name) refl, decoded-ping) returns, s, known)

-- If the announcing host can dial and write, its cluster name has at most 255 bytes, its port is from 1
-- to 65535 and its heartbeat fits 32 bits, a round of multicastAnnounce sends one datagram to the
-- multicast address. A host with the same cluster name and IP length (4 or 16), in a well-formed state, that
-- receives it from an IP, with whatever stands behind it in the buffer, takes it up without a panic:
-- its state stays well-formed, no node moves or loses heartbeat, and the node at that IP and the
-- sender's port is known then.
pub announce_round-heard :
    (c c' : Cluster) (name : List ℕ) (to : Address) (interval : ℤ) (source_ip : Ip) (spare : List ℕ)
    → length name ≤ 255
    → 0 < (deref c c.this_host).port
    → (deref c c.this_host).port < 2 ^ 16
    → c.current_heartbeat < 2 ^ 32
    → c.can_dial to ≡ true
    → c.can_write to ≡ true
    → IsIpLen c'.ip_len
    → c.ip_len ≡ c'.ip_len
    → IsWellFormed c'
    → (payload : List ℕ) × (announce_round c name to interval
        ≡ ok (
          record c { sent = c.sent ++ (record { to = to; payload = payload } ∷ []) },
          next_of interval,
        ))
      × (c2 : Cluster) × (receive_announcement c' name source_ip
            (record { elems = payload; spare = spare })
          ≡ ok c2)
      × Sound c' c2
      × IsKnown c2 (node_address_string source_ip (deref c c.this_host).port)
unfolding announce_round
announce_round-heard c c' name to interval source_ip spare fits positive port_lt heartbeat_lt dials
      writes ip same w =
    let (payload, inner, encoded, split, decoded) =
      decode_multicast-encode c c' name source_ip spare fits port_lt heartbeat_lt ip same in
    let (c2, returns, sound, known) =
      heard c' source_ip (deref c c.this_host).port c.current_heartbeat w inner c positive decoded
        name (record { elems = payload; spare = spare }) split in
    (payload, rw (dials, encoded, writes) refl, c2, returns, sound, known)
