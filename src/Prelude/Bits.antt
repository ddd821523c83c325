-- ===== src/Prelude/Bits.antt =====
-- `x << k | y` as arithmetic, for `y` below `2 ^ k`.
use Prim.Native.Nat.{
  ℕ, zero, suc, ◌+◌, ◌*◌, ◌/◌, ◌%◌, ◌^◌, ◌≤◌, ◌<◌, max, bit_or, digits, bit_or-bitwise,
}
use mathlib.Core.Path.{◌≡◌, refl, ap}
use native.Mathlib.Omega.{arith}
use native.Mathlib.Nat.{pow-suc}

-- The recursion on digits that `bit_or` stands for, with its fuel.
abbrev or_digits : ℕ → ℕ → ℕ → ℕ
or_digits fuel x y = digits (λ t. t) max fuel x y

-- Fuel that covers the first number is enough fuel.
or_digits_enough :
    (fuel more x y : ℕ) → x ≤ fuel → x ≤ more → or_digits fuel x y ≡ or_digits more x y
or_digits_enough zero zero x y p q = refl
or_digits_enough zero (suc more) zero y p q = refl
or_digits_enough zero (suc more) (suc x) y p q = absurd (omega arith)
or_digits_enough (suc fuel) zero zero y p q = refl
or_digits_enough (suc fuel) zero (suc x) y p q = absurd (omega arith)
or_digits_enough (suc fuel) (suc more) zero y p q = refl
or_digits_enough (suc fuel) (suc more) (suc x) y p q =
    let half = or_digits_enough fuel more (suc x / 2) (y / 2) (omega arith) (omega arith) in
    ap (λ t. t * 2 + max (suc x % 2) (y % 2)) half

zero-bit_or : (y : ℕ) → bit_or 0 y ≡ y
zero-bit_or y = bit_or-bitwise 0 y

-- The lowest digit of a disjunction.
bit_or_halve : (x y : ℕ) → bit_or x y ≡ bit_or (x / 2) (y / 2) * 2 + max (x % 2) (y % 2)
bit_or_halve zero y = omega (arith, zero-bit_or y, zero-bit_or (y / 2))
bit_or_halve (suc x) y = omega (
  arith,
  bit_or-bitwise (suc x) y,
  bit_or-bitwise (suc x / 2) (y / 2),
  or_digits_enough x (suc x / 2) (suc x / 2) (y / 2) (omega arith) (omega arith),
)

bit_or-zero_below : (n x : ℕ) → x ≤ n → bit_or x 0 ≡ x
bit_or-zero_below n zero h = zero-bit_or 0
bit_or-zero_below zero (suc x) h = absurd (omega arith)
bit_or-zero_below (suc n) (suc x) h =
    omega (arith, bit_or_halve (suc x) 0, bit_or-zero_below n (suc x / 2) (omega arith))

shift_suc : (k x : ℕ) → x * 2 ^ suc k ≡ x * 2 ^ k * 2
shift_suc k x = omega (arith, ap (λ (t : ℕ). x * t) (pow-suc 2 k))

-- A shifted field and the bits under it do not overlap, so `|` adds them.
pub bit_or_shifted : (k x y : ℕ) → y < 2 ^ k → bit_or (x * 2 ^ k) y ≡ x * 2 ^ k + y
bit_or_shifted zero x y h = ground (arith, bit_or-zero_below x x (omega arith))
bit_or_shifted (suc k) x y h =
    ground (
      arith,
      bit_or_halve (x * 2 ^ suc k) y,
      shift_suc k x,
      pow-suc 2 k,
      bit_or_shifted k x (y / 2),
    )
