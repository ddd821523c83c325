-- ===== src/Wire.antt =====
-- What message.go and broadcast.go share: slices with their capacity, the loops that copy an IP or
-- a payload, and the lookup of the node at an address.
pub mod Write
pub mod Read
pub mod Rest
pub mod Found
use smudge.Prelude.{
  ℕ, zero, suc, ◌+◌, ◌-◌, ◌≡◌, Bool, true, false, ◌&&◌, Option, none, some, List, [], ◌∷◌, ◌++◌,
  take, drop, length, leb, ◌==◌, if◌then◌else◌,
}
use smudge.Prelude.Outcome.{Outcome, ok, panic, ◌>>=◌}
use smudge.Bytes.{index, store, encode_byte, encode_uint16, encode_uint32}
use smudge.Net.{Ip, ipv6_len, ipv4}
use smudge.NodeMap
use smudge.Registry.{create_node_by_ip}
use smudge.Cluster.{Cluster, Ref}

-- A Go slice: its elements, and the bytes of its array from there to the end of its capacity.
pub record Slice : Type 0 where
  pub elems : List ℕ
  pub spare : List ℕ

-- `s[lo:hi]`, which may reach into the spare capacity.
unfoldable pub slice : Slice → ℕ → ℕ → Outcome Slice
slice s lo hi =
    if leb lo hi && leb hi (length (s.elems ++ s.spare))
    then ok (record {
      elems = take (hi - lo) (drop lo (s.elems ++ s.spare));
      spare = drop hi (s.elems ++ s.spare);
    })
    else panic

-- `s[lo:]`.
unfoldable pub slice_from : Slice → ℕ → Outcome Slice
slice_from s lo = slice s lo (length s.elems)

-- `for i := 0; i < ipLen; i++ { bytes[p+i] = ip[i] }`, with `rounds` rounds left from `i` on.
unfoldable pub copy_ip : ℕ → ℕ → Ip → List ℕ → ℕ → Outcome (List ℕ)
copy_ip zero i ip bytes p = ok bytes
copy_ip (suc rounds) i ip bytes p = do
  b ← index ip i
  bytes' ← store bytes (p + i) b
  copy_ip rounds (i + 1) ip bytes' p

-- `for i, v := range payload { bytes[p+i] = v }`, from `i` on.
unfoldable pub copy_bytes : ℕ → List ℕ → List ℕ → ℕ → Outcome (List ℕ)
copy_bytes i [] bytes p = ok bytes
copy_bytes i (v ∷ payload) bytes p = do
  bytes' ← store bytes (p + i) v
  copy_bytes (i + 1) payload bytes' p

-- The index pointer `p` of an encoder, with the bytes that it writes to.
abbrev pub Cursor : Type 0
Cursor = ℕ × List ℕ

-- `p += encodeByte(n, bytes, p)`, and so on.
unfoldable pub put_byte : ℕ → Cursor → Outcome Cursor
put_byte n (p, bytes) = do (k, bytes') ← encode_byte n bytes p; ok (p + k, bytes')

unfoldable pub put_uint16 : ℕ → Cursor → Outcome Cursor
put_uint16 n (p, bytes) = do (k, bytes') ← encode_uint16 n bytes p; ok (p + k, bytes')

unfoldable pub put_uint32 : ℕ → Cursor → Outcome Cursor
put_uint32 n (p, bytes) = do (k, bytes') ← encode_uint32 n bytes p; ok (p + k, bytes')

-- The loop over an IP, and `p += ipLen`.
unfoldable pub put_ip : ℕ → Ip → Cursor → Outcome Cursor
put_ip ip_len ip (p, bytes) = do bytes' ← copy_ip ip_len 0 ip bytes p; ok (p + ip_len, bytes')

-- The IP at `p`: 16 bytes, or the 16-byte form of 4 bytes.
unfoldable pub decode_ip : ℕ → Slice → ℕ → Outcome (Ip × ℕ)
decode_ip ip_len s p =
    if ip_len == ipv6_len then (do part ← slice s p (p + 16); ok (part.elems, p + ip_len)) else (do
      a ← index s.elems (p + 0)
      b ← index s.elems (p + 1)
      c ← index s.elems (p + 2)
      d ← index s.elems (p + 3)
      ok (ipv4 a b c d, p + ip_len))

-- `knownNodes.getByIP(ip, port)`, and a new node where there is none.
unfoldable pub find_or_create : Cluster → Ip → ℕ → Cluster × Ref
find_or_create c ip port = elim (NodeMap.get_by_ip c c.known_nodes ip port) [
  | none ↦ create_node_by_ip c ip port
  | some node ↦ (c, node)
]
