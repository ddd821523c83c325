-- ===== src/Checksum.antt =====
-- hash/adler32.Checksum, as message.go uses it.
pub mod Detects
use smudge.Prelude.{ℕ, ◌+◌, ◌*◌, ◌%◌, ◌^◌, ◌<◌, bit_or, List, [], ◌∷◌, arith}

abbrev pub adler_mod : ℕ
adler_mod = 65521

-- The two running sums over the bytes.
unfoldable pub adler_loop : ℕ → ℕ → List ℕ → ℕ × ℕ
adler_loop a b [] = (a, b)
adler_loop a b (x ∷ bytes) =
    adler_loop ((a + x) % adler_mod) ((b + (a + x) % adler_mod) % adler_mod) bytes

-- `b << 16 | a`.
unfoldable pub checksum : List ℕ → ℕ
unfolding adler_loop
checksum bytes = let (a, b) = adler_loop 1 0 bytes in bit_or (b * 2 ^ 16) a
