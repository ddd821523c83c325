-- ===== src/Prelude/Numerals.antt =====
-- Decimal numerals.
use Prim.Native.Nat.{ℕ, suc, ◌+◌, ◌*◌, ◌^◌, ◌<◌}
use mathlib.Core.Path.{◌≡◌, ap}
use mathlib.Core.List.{List, [], ◌∷◌, map}
use native.Mathlib.Omega.{arith}
use native.Mathlib.Nat.{pow-suc}
use smudge.Prelude.Lists.{length, All}
use smudge.Prelude.Text.{Text}

-- What a sequence of decimal digits stands for.
unfoldable pub value_of : List ℕ → ℕ
value_of [] = 0
value_of (d ∷ ds) = d * 10 ^ length ds + value_of ds

abbrev pub AreDigits : List ℕ → Type 0
AreDigits [] = ⊥
AreDigits (d ∷ ds) = All (λ k. k < 10) (d ∷ ds)

-- The digits as characters.
abbrev pub numeral : List ℕ → Text
numeral ds = map (λ d. d + b'0') ds

pub horner :
    (v d : ℕ) (ds : List ℕ)
    → (v * 10 + d) * 10 ^ length ds + value_of ds
      ≡ v * 10 ^ suc (length ds) + (d * 10 ^ length ds + value_of ds)
horner v d ds = omega (arith, ap (λ (t : ℕ). v * t) (pow-suc 10 (length ds)))
