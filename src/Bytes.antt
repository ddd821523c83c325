-- ===== src/Bytes.antt =====
-- bytes.go: numbers of a fixed width in a byte slice, lowest byte first. A slice is a list of
-- bytes; an access outside it panics, as in Go. A call that writes returns the slice it leaves.
pub mod Little
use smudge.Prelude.{ℕ, zero, suc, ◌+◌, ◌*◌, ◌/◌, ◌%◌, ◌^◌, bit_or, List, [], ◌∷◌, get_elem?}
use smudge.Prelude.Outcome.{Outcome, ok, panic, ◌>>=◌, or_panic}

-- `bytes[i]` on the right of an assignment.
unfoldable pub index {ℓ} : {A : Type ℓ} → List A → ℕ → Outcome A
index bytes i = or_panic (get_elem? bytes i)

-- `bytes[i] = v`.
unfoldable pub store : List ℕ → ℕ → ℕ → Outcome (List ℕ)
store [] i v = panic
store (b ∷ bytes) zero v = ok (v ∷ bytes)
store (b ∷ bytes) (suc i) v = do rest ← store bytes i v; ok (b ∷ rest)

-- `uintW(b) << k` and `byte(n >> k)`.
abbrev pub shl : ℕ → ℕ → ℕ → ℕ
shl width b k = b * 2 ^ k % 2 ^ width

abbrev pub byte_at : ℕ → ℕ → ℕ
byte_at n k = n / 2 ^ k % 256

unfoldable pub decode_byte : List ℕ → ℕ → Outcome (ℕ × ℕ)
decode_byte bytes i = do b ← index bytes i; ok (b, i + 1)

unfoldable pub decode_uint8 : List ℕ → ℕ → Outcome (ℕ × ℕ)
unfolding decode_byte
decode_uint8 bytes i = do (n, i') ← decode_byte bytes i; ok (n, i')

unfoldable pub decode_uint16 : List ℕ → ℕ → Outcome (ℕ × ℕ)
decode_uint16 bytes i = do
  b1 ← index bytes (i + 1)
  b0 ← index bytes (i + 0)
  ok (bit_or (shl 16 b1 8) b0, i + 2)

unfoldable pub decode_uint32 : List ℕ → ℕ → Outcome (ℕ × ℕ)
decode_uint32 bytes i = do
  b3 ← index bytes (i + 3)
  b2 ← index bytes (i + 2)
  b1 ← index bytes (i + 1)
  b0 ← index bytes (i + 0)
  ok (bit_or (bit_or (bit_or (shl 32 b3 24) (shl 32 b2 16)) (shl 32 b1 8)) b0, i + 4)

abbrev or_list : ℕ → List ℕ → ℕ
or_list acc [] = acc
or_list acc (x ∷ xs) = or_list (bit_or acc x) xs

unfoldable pub decode_uint64 : List ℕ → ℕ → Outcome (ℕ × ℕ)
decode_uint64 bytes i = do
  b7 ← index bytes (i + 7)
  b6 ← index bytes (i + 6)
  b5 ← index bytes (i + 5)
  b4 ← index bytes (i + 4)
  b3 ← index bytes (i + 3)
  b2 ← index bytes (i + 2)
  b1 ← index bytes (i + 1)
  b0 ← index bytes (i + 0)
  ok (
    or_list (shl 64 b7 56) (
        shl 64 b6 48
        ∷ shl 64 b5 40
        ∷ shl 64 b4 32
        ∷ shl 64 b3 24
        ∷ shl 64 b2 16
        ∷ shl 64 b1 8
        ∷ b0
        ∷ []),
    i + 8,
  )

unfoldable pub encode_byte : ℕ → List ℕ → ℕ → Outcome (ℕ × List ℕ)
encode_byte n bytes i = do bytes' ← store bytes (i + 0) n; ok (1, bytes')

unfoldable pub encode_uint8 : ℕ → List ℕ → ℕ → Outcome (ℕ × List ℕ)
unfolding encode_byte
encode_uint8 n bytes i = encode_byte n bytes i

unfoldable pub encode_uint16 : ℕ → List ℕ → ℕ → Outcome (ℕ × List ℕ)
encode_uint16 n bytes i = do
  s0 ← store bytes (i + 0) (n % 256)
  s1 ← store s0 (i + 1) (byte_at n 8)
  ok (2, s1)

unfoldable pub encode_uint32 : ℕ → List ℕ → ℕ → Outcome (ℕ × List ℕ)
encode_uint32 n bytes i = do
  s0 ← store bytes (i + 0) (n % 256)
  s1 ← store s0 (i + 1) (byte_at n 8)
  s2 ← store s1 (i + 2) (byte_at n 16)
  s3 ← store s2 (i + 3) (byte_at n 24)
  ok (4, s3)

unfoldable pub encode_uint64 : ℕ → List ℕ → ℕ → Outcome (ℕ × List ℕ)
encode_uint64 n bytes i = do
  s0 ← store bytes (i + 0) (n % 256)
  s1 ← store s0 (i + 1) (byte_at n 8)
  s2 ← store s1 (i + 2) (byte_at n 16)
  s3 ← store s2 (i + 3) (byte_at n 24)
  s4 ← store s3 (i + 4) (byte_at n 32)
  s5 ← store s4 (i + 5) (byte_at n 40)
  s6 ← store s5 (i + 6) (byte_at n 48)
  s7 ← store s6 (i + 7) (byte_at n 56)
  ok (8, s7)
