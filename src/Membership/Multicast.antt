-- ===== src/Membership/Multicast.antt =====
-- membership.go: the bytes of a multicast announcement, the cluster's name and a ping without
-- members. `name` is the bytes of GetClusterName().
pub mod RoundTrip
pub mod Listen
pub mod Sound
pub mod Interface
pub mod Announce
use smudge.Prelude.{
  ℕ, ◌+◌, ◌%◌, ◌^◌, ◌≤◌, ◌<◌, ◌≡◌, refl, ap, sym, ◌∙◌, Bool, true, false, Option, none, some, List,
  [], ◌∷◌, ◌++◌, length, length-append, append-nil, ltb, if◌then◌else◌, arith, map,
}
use smudge.Prelude.Outcome.{Outcome, ok, panic, ◌>>=◌}
use smudge.Bytes.{index}
use smudge.Net.{Ip}
use smudge.Wire.{Slice, slice}
use smudge.Wire.Read.{IsIpLen}
use smudge.Wire.Rest.{Rest, Rest-start, Rest-advance, index-Rest, slice-Rest}
use smudge.Cluster.{Cluster, verb_ping, deref}
use smudge.Message
use smudge.Message.{Message, new_message, decode_message}
use smudge.Message.Encode.{CanEncodeMessage}
use smudge.Message.RoundTrip.{InRange, decode_message-encode, resolve_broadcast}
use smudge.Message.Body.{resolve_body}

unfoldable pub encode_multicast_announce_bytes : Cluster → List ℕ → Outcome (List ℕ)
encode_multicast_announce_bytes c name =
    let whole = (do
      msg_bytes ← Message.encode c (new_message verb_ping (some c.this_host) c.current_heartbeat)
      ok ((length name % 256 ∷ []) ++ (name ++ msg_bytes))) in
    if ltb 255 (length name) then panic else whole

-- The error is none.
unfoldable pub decode_multicast_announce_bytes : Slice → Outcome (Option (List ℕ × Slice))
decode_multicast_announce_bytes s = do
  name_len ← index s.elems 0
  let parts = (do
    name ← slice s 1 (name_len + 1)
    msg ← slice s (name_len + 1) (length s.elems)
    ok (some (name.elems, msg)))
  if ltb (length s.elems) (name_len + 1) then ok none else parts
