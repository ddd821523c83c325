-- ===== src/Checksum/Detects.antt =====
-- What the checksum tells apart.
use smudge.Prelude.{ℕ, ◌+◌, ◌*◌, ◌%◌, ◌^◌, ◌<◌, ◌≡◌, ◌≢◌, List, [], ◌∷◌, ◌++◌, arith}
use smudge.Prelude.Bits.{bit_or_shifted}
use smudge.Checksum.{adler_mod, adler_loop, checksum}

adler_loop-lt :
    (a b : ℕ) (bytes : List ℕ)
    → a < adler_mod
    → b < adler_mod
    → ((adler_loop a b bytes).0 < adler_mod) × ((adler_loop a b bytes).1 < adler_mod)
unfolding adler_loop
adler_loop-lt a b [] ha hb = (ha, hb)
adler_loop-lt a b (x ∷ bytes) ha hb =
    adler_loop-lt ((a + x) % adler_mod) ((b + (a + x) % adler_mod) % adler_mod) bytes (omega arith)
      (omega arith)

checksum-sums :
    (bytes : List ℕ) → checksum bytes ≡ (adler_loop 1 0 bytes).1 * 2 ^ 16 + (adler_loop 1 0 bytes).0
unfolding checksum
checksum-sums bytes =
    let (ha, hb) = adler_loop-lt 1 0 bytes (omega arith) (omega arith) in
    bit_or_shifted 16 ((adler_loop 1 0 bytes).1) ((adler_loop 1 0 bytes).0) (omega arith)

-- The checksum is a uint32.
pub checksum-lt : (bytes : List ℕ) → checksum bytes < 2 ^ 32
checksum-lt bytes =
    let bounds = adler_loop-lt 1 0 bytes (omega arith) (omega arith) in
    omega (arith, checksum-sums bytes, bounds)

-- Two sums that differ stay different over the same bytes.
adler_loop-apart :
    (a a' b b' : ℕ) (bytes : List ℕ)
    → a < adler_mod
    → a' < adler_mod
    → a ≢ a'
    → (adler_loop a b bytes).0 ≢ (adler_loop a' b' bytes).0
unfolding adler_loop
adler_loop-apart a a' b b' [] ha ha' h = h
adler_loop-apart a a' b b' (x ∷ bytes) ha ha' h =
    adler_loop-apart ((a + x) % adler_mod) ((a' + x) % adler_mod)
      ((b + (a + x) % adler_mod) % adler_mod) ((b' + (a' + x) % adler_mod) % adler_mod) bytes
      (omega arith) (omega arith) (omega arith)

adler_loop-change :
    (a b x y : ℕ) (pre suf : List ℕ)
    → a < adler_mod
    → x < 256
    → y < 256
    → x ≢ y
    → (adler_loop a b (pre ++ (x ∷ suf))).0 ≢ (adler_loop a b (pre ++ (y ∷ suf))).0
unfolding adler_loop
adler_loop-change a b x y [] suf ha hx hy h =
    adler_loop-apart _ _ _ _ suf (omega arith) (omega arith) (omega arith)
adler_loop-change a b x y (z ∷ pre) suf ha hx hy h =
    adler_loop-change ((a + z) % adler_mod) ((b + (a + z) % adler_mod) % adler_mod) x y pre suf
      (omega arith) hx hy h

-- If one byte of a sequence is replaced by another, the checksum changes.
pub checksum-change :
    (pre suf : List ℕ) (x y : ℕ)
    → x < 256
    → y < 256
    → x ≢ y
    → checksum (pre ++ (x ∷ suf)) ≢ checksum (pre ++ (y ∷ suf))
checksum-change pre suf x y hx hy h e = adler_loop-change 1 0 x y pre suf (omega arith) hx hy h (
    omega (
      arith,
      checksum-sums (pre ++ (x ∷ suf)),
      checksum-sums (pre ++ (y ∷ suf)),
      adler_loop-lt 1 0 (pre ++ (x ∷ suf)) (omega arith) (omega arith),
      adler_loop-lt 1 0 (pre ++ (y ∷ suf)) (omega arith) (omega arith),
    ))
