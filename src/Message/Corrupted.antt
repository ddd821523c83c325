-- ===== src/Message/Corrupted.antt =====
-- message.go: decodeMessage on a datagram of which a byte was changed on the way.
use smudge.Prelude.{
  ℕ, ◌<◌, ◌≡◌, ◌≢◌, refl, sym, none, some, List, ◌∷◌, ◌++◌, ==_iff, ◌==◌, Bool-cases, inl, inr,
}
use smudge.Prelude.Outcome.{ok}
use smudge.Bytes.Little.{drop-little, little}
use smudge.Checksum.{checksum}
use smudge.Checksum.Detects.{checksum-lt, checksum-change}
use smudge.Net.{Ip}
use smudge.Wire.Rest.{Rest-start, decode_uint32-Rest}
use smudge.Cluster.{Cluster}
use smudge.Message.{new_message, decode_message, checksum_failure}

-- A datagram that was sealed with the checksum of its body, and of whose body one byte was then
-- changed, is refused: decodeMessage returns a checksum failure, and makes no node.
pub decode_message-corrupted :
    (c : Cluster) (source_ip : Ip) (pre suf spare : List ℕ) (x y : ℕ)
    → x < 256
    → y < 256
    → x ≢ y
    → decode_message c source_ip (record {
      elems = little 4 (checksum (pre ++ (x ∷ suf))) ++ (pre ++ (y ∷ suf));
      spare = spare;
    })
      ≡ ok (c, new_message 255 none 0, some checksum_failure)
unfolding decode_message
decode_message-corrupted c source_ip pre suf spare x y hx hy h =
    let stated = checksum (pre ++ (x ∷ suf)) in
    let changed = pre ++ (y ∷ suf) in
    rw
      (
        decode_uint32-Rest (little 4 stated ++ changed) 0 stated changed (Rest-start _)
            (checksum-lt (pre ++ (x ∷ suf))),
        drop-little stated changed,
      )
      (elim (Bool-cases (checksum changed == stated)) [
        | inl same ↦
            absurd (
              checksum-change pre suf x y hx hy h (sym ((==_iff (checksum changed) stated).0 same)))
        | inr other ↦ rw other refl
      ])
