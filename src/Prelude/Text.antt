-- ===== src/Prelude/Text.antt =====
-- Go strings as the code points of their text, and what the program uses of packages strings and
-- strconv.
use Prim.Native.Char.{code}
use Prim.Native.String.{String}
use Prim.Native.Nat.{ℕ, zero, suc, ◌+◌, ◌-◌, ◌*◌, ◌^◌}
use mathlib.Core.List.{List, [], ◌∷◌, map}
use mathlib.Core.Option.{Option, none, some}
use mathlib.Core.Bool.{Bool, ◌&&◌, ◌||◌}
use smudge.Prelude.Tests.{◌==◌, leb, if◌then◌else◌}

abbrev pub Text : Type 0
Text = List ℕ

-- A literal.
abbrev pub runes : String → Text
runes String.[] = []
runes (String.◌∷◌ first others) = code first ∷ runes others

-- unicode.IsSpace.
unfoldable pub is_space : ℕ → Bool
is_space c =
    (leb 9 c && leb c 13)
    || (c == 32)
    || (c == 133)
    || (c == 160)
    || (c == 5760)
    || (leb 8192 c && leb c 8202)
    || (c == 8232)
    || (c == 8233)
    || (c == 8239)
    || (c == 8287)
    || (c == 12288)

unfoldable pub trim_left : Text → Text
trim_left [] = []
trim_left (c ∷ s) = let rest = trim_left s in if is_space c then rest else c ∷ s

-- A space is dropped if nothing is left behind it.
abbrev pub unless_last : ℕ → Text → Text
unless_last c [] = if is_space c then [] else c ∷ []
unless_last c (d ∷ s) = c ∷ d ∷ s

unfoldable pub trim_right : Text → Text
trim_right [] = []
trim_right (c ∷ s) = unless_last c (trim_right s)

-- strings.TrimSpace.
abbrev pub trim_space : Text → Text
trim_space s = trim_right (trim_left s)

-- unicode.ToLower, on the ASCII letters; strings.ToLower maps it.
unfoldable pub lower : ℕ → ℕ
lower c = if leb 65 c && leb c 90 then c + 32 else c

abbrev pub to_lower : Text → Text
to_lower s = map lower s

-- Go's int, of 64 bits.
pub data ℤ : Type 0 where
  pos : ℕ → ℤ
  negsuc : ℕ → ℤ

abbrev pub negate : ℕ → ℤ
negate zero = pos 0
negate (suc n) = negsuc n

-- The value of decimal digits, behind what has been read; none if there is another character.
unfoldable pub digits : ℕ → Text → Option ℕ
digits value [] = some value
digits value (c ∷ s) =
    let rest = digits (value * 10 + (c - 48)) s in if leb 48 c && leb c 57 then rest else none

abbrev pub at_least_one_digit : Text → Option ℕ
at_least_one_digit [] = none
at_least_one_digit (c ∷ s) = digits 0 (c ∷ s)

abbrev pub within : ℕ → (ℕ → ℤ) → Option ℕ → Option ℤ
within limit number none = none
within limit number (some n) = if leb n limit then some (number n) else none

-- strconv.Atoi: an optional sign and decimal digits, within an int.
unfoldable pub atoi : Text → Option ℤ
atoi [] = none
atoi (c ∷ s) =
    if c == 45
    then within (2 ^ 63) negate (at_least_one_digit s)
    else (if c == 43
        then within (2 ^ 63 - 1) pos (at_least_one_digit s)
        else within (2 ^ 63 - 1) pos (at_least_one_digit (c ∷ s)))
