-- ===== src/Message/Body.antt =====
-- message.go: what decodeMessage makes of the layout of a message.
use smudge.Prelude.{
  ℕ, ◌+◌, ◌*◌, ◌%◌, ◌/◌, ◌^◌, ◌<◌, ◌≡◌, refl, ap, sym, subst, true, Option, some, List, [], ◌∷◌,
  ◌++◌, length, arith, All, drop, ==_iff, ◌==◌,
}
use smudge.Prelude.Outcome.{Outcome, ok, ◌>>=◌}
use smudge.Bytes.Little.{drop-little, little, length-little}
use smudge.Bytes.{decode_byte}
use smudge.Checksum.{checksum}
use smudge.Checksum.Detects.{checksum-lt}
use smudge.Net.{Ip}
use smudge.Wire.{find_or_create}
use smudge.Wire.Read.{IsIpLen}
use smudge.Wire.Rest.{
  Rest, Rest-start, Rest-advance, index-Rest, decode_uint16-Rest, decode_uint32-Rest,
}
use smudge.Cluster.{Cluster, Env, Broadcast}
use smudge.Message.Layout.{WireMember, IsFit, members_layout, length-members_layout, body_layout}
use smudge.Message.Decode.{
  CanDecode, resolve_members, read_members-layout, read_broadcast-layout, decode_tail,
  env-find_or_create,
}
use smudge.Message.{Message, Error, new_message, decode_body, decode_message, read_members}

read_members-layout_at :
    (ip_len : ℕ) (c : Cluster) (elems spare : List ℕ) (p last : ℕ) (ws : List WireMember)
    (rest : List ℕ)
    → c.ip_len ≡ ip_len
    → IsIpLen ip_len
    → All (CanDecode ip_len) ws
    → Rest elems p (members_layout ws ++ rest)
    → last ≡ p + length (members_layout ws)
    → read_members c (record { elems = elems; spare = spare }) p last
      ≡ ok (resolve_members ip_len c ws)
read_members-layout_at ip_len c elems spare p last ws rest e =
    subst
      (λ k.
        IsIpLen k
        → All (CanDecode k) ws
        → Rest elems p (members_layout ws ++ rest)
        → last ≡ p + length (members_layout ws)
        → read_members c (record { elems = elems; spare = spare }) p last
          ≡ ok (resolve_members k c ws))
      e (read_members-layout c elems spare p last ws rest)

All-IsFit : (ip_len : ℕ) (ws : List WireMember) → All (CanDecode ip_len) ws → All (IsFit ip_len) ws
All-IsFit ip_len [] h = tt
All-IsFit ip_len (w ∷ ws) h = (h.0.0, All-IsFit ip_len ws h.1)

-- The message that the parts of a layout stand for, with the broadcast still to be read.
unfoldable pub resolve_body :
    Cluster
    → Ip
    → ℕ
    → ℕ
    → ℕ
    → List WireMember
    → (Cluster → Outcome (Cluster × Option Broadcast × Option Error))
    → Outcome (Cluster × Message × Option Error)
resolve_body c source_ip verb port heartbeat ws tail =
    let sender = find_or_create c source_ip port in
    let ms = resolve_members c.ip_len sender.0 ws in
    tail ms.0 >>= λ t. ok (
      t.0,
      record {
        sender = some sender.1;
        sender_heartbeat = heartbeat;
        verb = verb;
        members = ms.1;
        broadcast = t.1;
      },
      t.2,
    )

decode_body-layout :
    (c : Cluster) (source_ip : Ip) (elems spare : List ℕ) (p verb port heartbeat : ℕ)
    (ws : List WireMember) (rest : List ℕ)
    → IsIpLen c.ip_len
    → All (CanDecode c.ip_len) ws
    → port < 2 ^ 16
    → heartbeat < 2 ^ 32
    → verb / 4 ≡ length ws
    → Rest elems p (body_layout verb port heartbeat ws rest)
    → decode_body c source_ip (record { elems = elems; spare = spare }) p
      ≡ resolve_body c source_ip (verb % 4) port heartbeat ws (λ c'. decode_tail c' rest spare)
unfolding decode_body resolve_body decode_byte body_layout new_message
decode_body-layout c source_ip elems spare p verb port heartbeat ws rest h all hp hh hc r =
    let r1 = Rest-advance elems p (verb ∷ []) _ 1 r refl in
    let r2 = Rest-advance elems (p + 1) (little 2 port) _ 2 r1 (length-little 2 port) in
    let r3 =
      Rest-advance elems (p + 1 + 2) (little 4 heartbeat) _ 4 r2 (length-little 4 heartbeat) in
    let p3 = p + 1 + 2 + 4 in
    let last = p3 + verb / 4 * (9 + c.ip_len + c.ip_len) in
    let size = length-members_layout c.ip_len ws (All-IsFit c.ip_len ws all) in
    let scaled = ap (λ (t : ℕ). t * (9 + c.ip_len + c.ip_len)) hc in
    let e : last ≡ p3 + length (members_layout ws) = omega (arith, size, scaled) in
    let sender = find_or_create c source_ip port in
    let kept = ap (λ (v : Env). v.ip_len) (env-find_or_create c source_ip port) in
    let r4 = Rest-advance elems p3 (members_layout ws) rest _ r3 refl in
    let r5 = subst (λ k. Rest elems k rest) (sym e) r4 in
    let read =
      read_members-layout_at c.ip_len sender.0 elems spare p3 last ws rest kept h all r3 e in
    rw (
      index-Rest elems p verb _ r,
      decode_uint16-Rest elems (p + 1) port _ r1 hp,
      decode_uint32-Rest elems (p + 1 + 2) heartbeat _ r2 hh,
      read,
      read_broadcast-layout _ elems spare last rest r5,
    )

-- A message with the right checksum is read as what its layout stands for.
pub decode_message-layout :
    (c : Cluster) (source_ip : Ip) (verb port heartbeat : ℕ) (ws : List WireMember)
    (rest spare : List ℕ)
    → IsIpLen c.ip_len
    → All (CanDecode c.ip_len) ws
    → port < 2 ^ 16
    → heartbeat < 2 ^ 32
    → verb / 4 ≡ length ws
    → let all = body_layout verb port heartbeat ws rest in
      decode_message c source_ip (record { elems = little 4 (checksum all) ++ all; spare = spare })
      ≡ resolve_body c source_ip (verb % 4) port heartbeat ws (λ c'. decode_tail c' rest spare)
unfolding decode_message
decode_message-layout c source_ip verb port heartbeat ws rest spare h all hp hh hc =
    let body = body_layout verb port heartbeat ws rest in
    let sum = checksum body in
    let elems = little 4 sum ++ body in
    let r0 = Rest-start elems in
    let r1 = Rest-advance elems 0 (little 4 sum) body 4 r0 (length-little 4 sum) in
    let same : (checksum (drop 4 elems) == sum) ≡ true =
      rw (drop-little sum body) ((==_iff sum sum).1 refl) in
    rw (decode_uint32-Rest elems 0 sum body r0 (checksum-lt body), same)
      (decode_body-layout c source_ip elems spare 4 verb port heartbeat ws rest h all hp hh hc r1)
