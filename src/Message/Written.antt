-- ===== src/Message/Written.antt =====
-- message.go, broadcast.go: encoding is never cut off.
use smudge.Prelude.{ℕ, zero, suc, ◌+◌, ◌%◌, Option, none, some, List, [], ◌∷◌, drop, length}
use smudge.Prelude.Outcome.{Outcome, ◌>>=◌, or_panic, Ends, Ends-bind, Any, or_panic-Ends}
use smudge.Bytes.{index, store, encode_byte, encode_uint16, encode_uint32}
use smudge.Checksum.{checksum}
use smudge.Net.{Ip, shortest}
use smudge.Wire.{Cursor, copy_ip, copy_bytes, put_byte, put_ip, put_uint16, put_uint32}
use smudge.Broadcast
use smudge.Cluster.{Cluster, Broadcast, Ref, deref}
use smudge.Message.{
  Message, MessageMember, wire_ip, put_source, put_member, put_members, put_broadcast, verb_byte,
  encode,
}
use smudge.Message.Rounds.{index-Ends}

store-Ends : (bytes : List ℕ) (i v : ℕ) → Ends Any (store bytes i v)
unfolding store
store-Ends [] i v = tt
store-Ends (b ∷ bytes) zero v = tt
store-Ends (b ∷ bytes) (suc i) v =
    Ends-bind Any Any (store bytes i v) _ (store-Ends bytes i v) (λ rest _. tt)

copy_ip-Ends :
    (rounds i : ℕ) (ip : Ip) (bytes : List ℕ) (p : ℕ) → Ends Any (copy_ip rounds i ip bytes p)
unfolding copy_ip
copy_ip-Ends zero i ip bytes p = tt
copy_ip-Ends (suc rounds) i ip bytes p = Ends-bind Any Any (index ip i) _ (index-Ends ip i) (λ b _.
    Ends-bind Any Any (store bytes (p + i) b) _ (store-Ends bytes (p + i) b)
      (λ bytes' _. copy_ip-Ends rounds (i + 1) ip bytes' p))

copy_bytes-Ends : (i : ℕ) (payload bytes : List ℕ) (p : ℕ) → Ends Any (copy_bytes i payload bytes p)
unfolding copy_bytes
copy_bytes-Ends i [] bytes p = tt
copy_bytes-Ends i (v ∷ payload) bytes p =
    Ends-bind Any Any (store bytes (p + i) v) _ (store-Ends bytes (p + i) v)
      (λ bytes' _. copy_bytes-Ends (i + 1) payload bytes' p)

store_then :
    {B : Type 0} (bytes : List ℕ) (i v : ℕ) (f : List ℕ → Outcome B)
    → ((bytes' : List ℕ) → Ends Any (f bytes'))
    → Ends Any (store bytes i v >>= f)
store_then bytes i v f h = Ends-bind Any Any (store bytes i v) f (store-Ends bytes i v) (λ b _. h b)

encode_uint16-Ends : (n : ℕ) (bytes : List ℕ) (i : ℕ) → Ends Any (encode_uint16 n bytes i)
unfolding encode_uint16
encode_uint16-Ends n bytes i =
    store_then bytes (i + 0) _ _ (λ s0. store_then s0 (i + 1) _ _ (λ s1. tt))

encode_uint32-Ends : (n : ℕ) (bytes : List ℕ) (i : ℕ) → Ends Any (encode_uint32 n bytes i)
unfolding encode_uint32
encode_uint32-Ends n bytes i = store_then bytes (i + 0) _ _ (λ s0.
    store_then s0 (i + 1) _ _
      (λ s1. store_then s1 (i + 2) _ _ (λ s2. store_then s2 (i + 3) _ _ (λ s3. tt))))

encode_byte-Ends : (n : ℕ) (bytes : List ℕ) (i : ℕ) → Ends Any (encode_byte n bytes i)
unfolding encode_byte
encode_byte-Ends n bytes i = store_then bytes (i + 0) n _ (λ s0. tt)

-- A call on a cursor that is never cut off.
abbrev pub Puts : (Cursor → Outcome Cursor) → Type 0
Puts f = (s : Cursor) → Ends Any (f s)

Puts-then : (f g : Cursor → Outcome Cursor) → Puts f → Puts g → Puts (λ s. f s >>= g)
Puts-then f g hf hg s = Ends-bind Any Any (f s) g (hf s) (λ s' _. hg s')

put_byte-Puts : (n : ℕ) → Puts (put_byte n)
unfolding put_byte
put_byte-Puts n (p, bytes) =
    Ends-bind Any Any (encode_byte n bytes p) _ (encode_byte-Ends n bytes p) (λ t _. tt)

put_uint16-Puts : (n : ℕ) → Puts (put_uint16 n)
unfolding put_uint16
put_uint16-Puts n (p, bytes) =
    Ends-bind Any Any (encode_uint16 n bytes p) _ (encode_uint16-Ends n bytes p) (λ t _. tt)

put_uint32-Puts : (n : ℕ) → Puts (put_uint32 n)
unfolding put_uint32
put_uint32-Puts n (p, bytes) =
    Ends-bind Any Any (encode_uint32 n bytes p) _ (encode_uint32-Ends n bytes p) (λ t _. tt)

put_ip-Puts : (ip_len : ℕ) (ip : Ip) → Puts (put_ip ip_len ip)
unfolding put_ip
put_ip-Puts ip_len ip (p, bytes) =
    Ends-bind Any Any (copy_ip ip_len 0 ip bytes p) _ (copy_ip-Ends ip_len 0 ip bytes p) (λ t _. tt)

put_source-Puts : (c : Cluster) (source : Option Ref) → Puts (put_source c source)
unfolding put_source
put_source-Puts c none (p, bytes) = tt
put_source-Puts c (some r) s =
    Puts-then (put_ip c.ip_len (wire_ip c.ip_len (deref c r).ip)) (put_uint16 (deref c r).port)
      (put_ip-Puts c.ip_len _) (put_uint16-Puts _) s

put_member-Puts : (c : Cluster) (m : MessageMember) → Puts (put_member c m)
unfolding put_member
put_member-Puts c m = Puts-then (put_byte (m.status % 256)) _ (put_byte-Puts _) (
    Puts-then (put_ip c.ip_len (wire_ip c.ip_len (deref c m.node).ip)) _ (put_ip-Puts c.ip_len _) (
      Puts-then (put_uint16 (deref c m.node).port) _ (put_uint16-Puts _)
        (Puts-then (put_uint32 m.heartbeat) _ (put_uint32-Puts _) (put_source-Puts c m.source))))

put_members-Puts : (c : Cluster) (ms : List MessageMember) → Puts (put_members c ms)
unfolding put_members
put_members-Puts c [] s = tt
put_members-Puts c (m ∷ ms) s =
    Puts-then (put_member c m) (put_members c ms) (put_member-Puts c m) (put_members-Puts c ms) s

encode_broadcast-Ends : (c : Cluster) (b : Broadcast) → Ends Any (Broadcast.encode c b)
unfolding Broadcast.encode
encode_broadcast-Ends c b =
    Ends-bind Any Any (put_ip c.ip_len (shortest (deref c b.origin).ip) _) _
      (put_ip-Puts c.ip_len _ _)
      (λ s0 _.
        Ends-bind Any Any (put_uint16 (deref c b.origin).port s0) _ (put_uint16-Puts _ s0) (λ s1 _.
          Ends-bind Any Any (put_uint32 b.index s1) _ (put_uint32-Puts _ s1) (λ s2 _.
            Ends-bind Any Any (put_uint16 (length b.bytes % 65536) s2) _ (put_uint16-Puts _ s2)
              (λ s3 _. copy_bytes-Ends 0 b.bytes s3.1 s3.0))))

put_broadcast-Ends :
    (c : Cluster) (b : Option Broadcast) (s : Cursor) → Ends Any (put_broadcast c b s)
unfolding put_broadcast
put_broadcast-Ends c none (p, bytes) = tt
put_broadcast-Ends c (some b) (p, bytes) =
    Ends-bind Any Any (Broadcast.encode c b) _ (encode_broadcast-Ends c b)
      (λ bbytes _. copy_bytes-Ends 0 bbytes bytes p)

-- Encoding returns or panics.
pub encode-Ends : (c : Cluster) (m : Message) → Ends Any (encode c m)
unfolding encode
encode-Ends c m = Ends-bind Any Any (put_byte (verb_byte m) _) _ (put_byte-Puts _ _) (λ s1 _.
    Ends-bind Any Any (or_panic m.sender) _ (or_panic-Ends m.sender) (λ sender _.
      Ends-bind Any Any (put_uint16 (deref c sender).port s1) _ (put_uint16-Puts _ s1) (λ s2 _.
        Ends-bind Any Any (put_uint32 m.sender_heartbeat s2) _ (put_uint32-Puts _ s2) (λ s3 _.
          Ends-bind Any Any (put_members c m.members s3) _ (put_members-Puts c m.members s3)
            (λ s4 _.
              Ends-bind Any Any (put_broadcast c m.broadcast s4) _
                (put_broadcast-Ends c m.broadcast s4)
                (λ bytes _.
                  Ends-bind Any Any (encode_uint32 (checksum (drop 4 bytes)) bytes 0) _
                    (encode_uint32-Ends _ bytes 0) (λ t _. tt)))))))
