-- ===== src/Bytes/Little.antt =====
-- bytes.go against the little-endian expansion of a number.
use smudge.Prelude.{
  drop, ℕ, zero, suc, ◌+◌, ◌*◌, ◌/◌, ◌%◌, ◌^◌, ◌<◌, ◌≡◌, refl, bit_or, List, [], ◌∷◌, ◌++◌, length,
  arith, ap,
}
use smudge.Prelude.Bits.{bit_or_shifted}
use native.Mathlib.Nat.{zero-add, suc-add}
use smudge.Prelude.Outcome.{ok, ◌>>=◌, >>=-ok, >>=_assoc}
use smudge.Bytes.{
  index, store, shl, byte_at, decode_uint16, decode_uint32, encode_uint16, encode_uint32,
}

-- The `k` lowest bytes of `n`, lowest first.
unfoldable pub little : ℕ → ℕ → List ℕ
little zero n = []
little (suc k) n = n % 256 ∷ little k (n / 256)

pub length-little : (k n : ℕ) → length (little k n) ≡ k
unfolding little
length-little zero n = refl
length-little (suc k) n = ap suc (length-little k (n / 256))

pub index-append : (pre suf : List ℕ) (k : ℕ) → index (pre ++ suf) (length pre + k) ≡ index suf k
unfolding index
index-append [] suf k = rw zero-add
index-append (x ∷ pre) suf k = rw suc-add (index-append pre suf k)

pub store-append :
    (pre suf : List ℕ) (k v : ℕ)
    → store (pre ++ suf) (length pre + k) v ≡ (store suf k v >>= λ s. ok (pre ++ s))
unfolding store
store-append [] suf k v = rw (zero-add, >>=-ok)
store-append (x ∷ pre) suf k v =
    rw (suc-add, store-append pre suf k v) (>>=_assoc (store suf k v) _ _)

-- A value above bit `k` and one below it.
or_add : (k x z y : ℕ) → z ≡ x * 2 ^ k → y < 2 ^ k → bit_or z y ≡ z + y
or_add k x z y e h = rw e (bit_or_shifted k x y h)

-- What `decode_uint16`, `decode_uint32` and `decode_uint64` join.
pub join2 : (b0 b1 : ℕ) → b0 < 256 → b1 < 256 → bit_or (shl 16 b1 8) b0 ≡ b1 * 2 ^ 8 + b0
join2 b0 b1 h0 h1 = omega (arith, or_add 8 b1 (shl 16 b1 8) b0 (omega arith) h0)

pub join4 :
    (b0 b1 b2 b3 : ℕ)
    → b0 < 256
    → b1 < 256
    → b2 < 256
    → b3 < 256
    → bit_or (bit_or (bit_or (shl 32 b3 24) (shl 32 b2 16)) (shl 32 b1 8)) b0
      ≡ b3 * 2 ^ 24 + b2 * 2 ^ 16 + b1 * 2 ^ 8 + b0
join4 b0 b1 b2 b3 h0 h1 h2 h3 =
    rw (or_add 24 b3 (shl 32 b3 24) (shl 32 b2 16) (omega arith) (omega arith)) (
      rw
        (or_add 16 (b3 * 2 ^ 8 + b2) (shl 32 b3 24 + shl 32 b2 16) (shl 32 b1 8) (omega arith)
          (omega arith))
        (rw
          (or_add 8 (b3 * 2 ^ 16 + b2 * 2 ^ 8 + b1) (shl 32 b3 24 + shl 32 b2 16 + shl 32 b1 8) b0
            (omega arith) h0)
          (omega arith)))

abbrev little2 : ℕ → List ℕ
little2 n = n % 256 ∷ byte_at n 8 ∷ []

abbrev little4 : ℕ → List ℕ
little4 n = n % 256 ∷ byte_at n 8 ∷ byte_at n 16 ∷ byte_at n 24 ∷ []

little-two : (n : ℕ) → little 2 n ≡ little2 n
unfolding little
little-two n = refl

little-four : (n : ℕ) → little 4 n ≡ little4 n
unfolding little
little-four n = ground arith

-- `uint16` is written in little-endian order, over whatever two bytes stood there.
pub encode_uint16-little :
    (n : ℕ) (pre suf : List ℕ) (a0 a1 : ℕ)
    → encode_uint16 n (pre ++ (a0 ∷ a1 ∷ suf)) (length pre) ≡ ok (2, pre ++ (little 2 n ++ suf))
unfolding encode_uint16 store
encode_uint16-little n pre suf a0 a1 = rw little-two (simp store-append)

pub encode_uint32-little :
    (n : ℕ) (pre suf : List ℕ) (a0 a1 a2 a3 : ℕ)
    → encode_uint32 n (pre ++ (a0 ∷ a1 ∷ a2 ∷ a3 ∷ suf)) (length pre)
      ≡ ok (4, pre ++ (little 4 n ++ suf))
unfolding encode_uint32 store
encode_uint32-little n pre suf a0 a1 a2 a3 = rw little-four (simp store-append)

pub decode_uint16-little :
    (n : ℕ) (pre suf : List ℕ)
    → n < 2 ^ 16
    → decode_uint16 (pre ++ (little 2 n ++ suf)) (length pre) ≡ ok (n, length pre + 2)
unfolding decode_uint16 index
decode_uint16-little n pre suf h =
    rw little-two (simp index-append (ground (arith, join2 (n % 256) (byte_at n 8))))

pub decode_uint32-little :
    (n : ℕ) (pre suf : List ℕ)
    → n < 2 ^ 32
    → decode_uint32 (pre ++ (little 4 n ++ suf)) (length pre) ≡ ok (n, length pre + 4)
unfolding decode_uint32 index
decode_uint32-little n pre suf h = rw little-four (
    simp index-append (ground (arith, join4 (n % 256) (byte_at n 8) (byte_at n 16) (byte_at n 24))))

-- What stands behind a uint32.
pub drop-little : (n : ℕ) (xs : List ℕ) → drop 4 (little 4 n ++ xs) ≡ xs
unfolding little
drop-little n xs = refl
