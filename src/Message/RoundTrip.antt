-- ===== src/Message/RoundTrip.antt =====
-- message.go: decodeMessage on what encode wrote.
use smudge.Prelude.{
  ℕ, ◌*◌, ◌%◌, ◌/◌, ◌^◌, ◌<◌, ◌≤◌, ◌≡◌, refl, ap, sym, subst, ◌∙◌, Option, none, some, List, [],
  ◌∷◌, ◌++◌, length, length-map, arith, All, ltb, map,
}
use smudge.Prelude.Outcome.{Outcome, ok, ◌>>=◌, >>=_assoc}
use smudge.Prelude.Bits.{bit_or_shifted}
use smudge.Bytes.Little.{little}
use smudge.Checksum.{checksum}
use smudge.Net.{Ip, shortest}
use smudge.Wire.{find_or_create}
use smudge.Wire.Read.{IsIpLen, expand}
use smudge.Broadcast
use smudge.Broadcast.{check_origin, judge}
use smudge.Broadcast.Codec.{CanEncode, decode_broadcast-layout, length-layout}
use smudge.Broadcast.Codec
use smudge.Cluster.{Cluster, Env, Broadcast, Ref, deref, int8, emit_count}
use smudge.Message.Layout.{WireMember, wire_member, IsFit, broadcast_layout}
use smudge.Message.Encode.{body, BroadcastFits, CanEncodeMessage, encode_message-layout}
use smudge.Message.Decode.{
  CanDecode, IsInRange, resolve_members, decode_tail, env-find_or_create, env-resolve_members,
}
use smudge.Message.{Message, Error, encode, decode_message, verb_byte, lift_error}
use smudge.Message.Body.{resolve_body, decode_message-layout}

-- The verb and the number of members share a byte.
verb_byte-parts :
    (m : Message)
    → length m.members ≤ 63
    → m.verb < 4
    → (verb_byte m % 4 ≡ m.verb) × (verb_byte m / 4 ≡ length m.members)
unfolding verb_byte
verb_byte-parts m few hv =
    let count = length m.members in
    let joined = bit_or_shifted 2 count m.verb hv in
    let e1 : count % 256 * 2 ^ 2 % 2 ^ 8 ≡ count * 2 ^ 2 = omega arith in
    let e2 : m.verb % 256 ≡ m.verb = omega arith in rw (e1, e2, joined) (omega arith)

-- What the receiver makes of a broadcast: it comes from the node at the address of its origin.
unfoldable pub resolve_broadcast :
    Cluster → Option Broadcast → Cluster → Outcome (Cluster × Option Broadcast × Option Error)
resolve_broadcast sender none c = ok (c, none, none)
resolve_broadcast sender (some b) c =
    let found =
      find_or_create c (expand c.ip_len (shortest (deref sender b.origin).ip))
        (deref sender b.origin).port in
    let b' : Broadcast = record {
      bytes = b.bytes;
      origin = found.1;
      index = b.index;
      emit_counter = int8 (emit_count found.0);
    } in
    check_origin found.0 found.1 >>= λ fault.
    ok (found.0, some b', lift_error (judge fault (ltb c.max_broadcast_bytes (length b.bytes))))

-- The numbers of a broadcast fit their widths.
abbrev pub BroadcastInRange : Cluster → Option Broadcast → Type 0
BroadcastInRange c none = Unit {0}
BroadcastInRange c (some b) = ((deref c b.origin).port < 2 ^ 16) × (b.index < 2 ^ 32)

decode_tail-some :
    (c : Cluster) (xs spare : List ℕ)
    → 0 < length xs
    → decode_tail c xs spare ≡ (
        Broadcast.decode_broadcast c (record { elems = xs; spare = spare }) >>= λ t.
        ok (t.0, some t.1, lift_error t.2))
unfolding decode_tail
decode_tail-some c [] spare h = absurd (omega arith)
decode_tail-some c (x ∷ xs) spare h = refl

decode_tail-broadcast :
    (sender : Cluster) (b : Option Broadcast) (c : Cluster) (spare : List ℕ)
    → IsIpLen c.ip_len
    → sender.ip_len ≡ c.ip_len
    → BroadcastFits sender b
    → BroadcastInRange sender b
    → decode_tail c (broadcast_layout sender b) spare ≡ resolve_broadcast sender b c
unfolding broadcast_layout resolve_broadcast decode_tail
decode_tail-broadcast sender none c spare h e fits range = refl
decode_tail-broadcast sender (some b) c spare h e fits range =
    let ip = shortest (deref sender b.origin).ip in
    let port = (deref sender b.origin).port in
    let bs = Codec.layout ip port b.index b.bytes in
    let some_left : 0 < length bs = omega (arith, length-layout ip port b.index b.bytes) in
    let read =
      decode_broadcast-layout c ip port b.index b.bytes spare h (fits.fits ∙ e) range.0 range.1
        fits.short in
    rw (decode_tail-some c bs spare some_left, read, >>=_assoc)

-- What must hold for a message to be read: the numbers fit their widths, and there are 63 members
-- at most.
pub record InRange (c : Cluster) (m : Message) (sender : Ref) : Type 0 where
  pub verb_lt : m.verb < 4
  pub few : length m.members ≤ 63
  pub port_lt : (deref c sender).port < 2 ^ 16
  pub heartbeat_lt : m.sender_heartbeat < 2 ^ 32
  pub members_in_range : All IsInRange (map (wire_member c) m.members)
  pub broadcast_in_range : BroadcastInRange c m.broadcast

All-CanDecode :
    (ip_len : ℕ) (ws : List WireMember)
    → All (IsFit ip_len) ws
    → All IsInRange ws
    → All (CanDecode ip_len) ws
All-CanDecode ip_len [] f r = tt
All-CanDecode ip_len (w ∷ ws) f r = ((f.0, r.0), All-CanDecode ip_len ws f.1 r.1)

tail-eq :
    (c : Cluster) (source_ip : Ip) (verb port heartbeat : ℕ) (ws : List WireMember)
    (s t : Cluster → Outcome (Cluster × Option Broadcast × Option Error))
    → ((c' : Cluster) → c'.env ≡ c.env → s c' ≡ t c')
    → resolve_body c source_ip verb port heartbeat ws s
      ≡ resolve_body c source_ip verb port heartbeat ws t
unfolding resolve_body
tail-eq c source_ip verb port heartbeat ws s t h =
    let sender = find_or_create c source_ip port in
    let ms = resolve_members c.ip_len sender.0 ws in
    let kept = env-resolve_members c.ip_len ws sender.0 ∙ env-find_or_create c source_ip port in
    rw (h ms.0 kept)

-- One process encodes a message, another reads it: encode does not panic, and decodeMessage reads
-- the verb, the heartbeat, the members and the broadcast that were sent, each node being the known
-- node at the address that was sent, or a new one; the bytes behind the datagram do not matter.
pub decode_message-encode :
    (c c' : Cluster) (m : Message) (sender : Ref) (source_ip : Ip) (spare : List ℕ)
    → CanEncodeMessage c m sender
    → InRange c m sender
    → IsIpLen c'.ip_len
    → c.ip_len ≡ c'.ip_len
    → (bytes : List ℕ) × (encode c m ≡ ok bytes)
      × (decode_message c' source_ip (record { elems = bytes; spare = spare })
          ≡ resolve_body c' source_ip m.verb
              (deref c sender).port
              m.sender_heartbeat
              (map (wire_member c) m.members)
              (resolve_broadcast c m.broadcast))
decode_message-encode c c' m sender source_ip spare can range h e =
    let ws = map (wire_member c) m.members in
    let port = (deref c sender).port in
    let bb = broadcast_layout c m.broadcast in
    let parts = verb_byte-parts m range.few range.verb_lt in
    let fit = subst (λ k. All (IsFit k) ws) e can.members_fit in
    let count = parts.1 ∙ sym (length-map m.members (wire_member c)) in
    let read =
      decode_message-layout c' source_ip (verb_byte m) port m.sender_heartbeat ws bb spare h
        (All-CanDecode c'.ip_len ws fit range.members_in_range) range.port_lt range.heartbeat_lt
        count in
    let tails =
      tail-eq c' source_ip m.verb port m.sender_heartbeat ws (λ d. decode_tail d bb spare)
        (resolve_broadcast c m.broadcast)
        (λ d kept.
          let same = sym (ap (λ (v : Env). v.ip_len) kept) in
          decode_tail-broadcast c m.broadcast d spare (subst IsIpLen same h) (e ∙ same)
            can.broadcast_fits range.broadcast_in_range) in
    let verb =
      ap (λ v. resolve_body c' source_ip v port m.sender_heartbeat ws (λ d. decode_tail d bb spare))
        parts.0 in
    (
      little 4 (checksum (body c m sender)) ++ body c m sender,
      encode_message-layout c m sender can,
      unfold body in (read ∙ verb ∙ tails),
    )
