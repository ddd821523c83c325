-- ===== src/Properties/Numbers.antt =====
-- properties.go: getIntVar at a decimal number.
use smudge.Prelude.{
  ℕ, ◌+◌, ◌-◌, ◌*◌, ◌^◌, ◌≤◌, ◌<◌, ◌≡◌, refl, ap, ◌∙◌, some, List, [], ◌∷◌, length, All, arith, leb,
  ◌==◌, ◌&&◌, true, false,
}
use smudge.Prelude.Text.{Text, ℤ, pos, negate, digits, at_least_one_digit, within, atoi}
use smudge.Prelude.Numerals.{value_of, AreDigits, numeral, horner}
use smudge.Properties.{Environ, int_of, get_int_var}

pub data Sign : Type 0 where
  unsigned plus minus : Sign

abbrev pub signed : Sign → Text → Text
signed unsigned s = s
signed plus s = b'+' ∷ s
signed minus s = b'-' ∷ s

abbrev pub number : Sign → ℕ → ℤ
number unsigned n = pos n
number plus n = pos n
number minus n = negate n

-- The largest absolute value.
abbrev pub limit : Sign → ℕ
limit unsigned = 2 ^ 63 - 1
limit plus = 2 ^ 63 - 1
limit minus = 2 ^ 63

digits-numeral :
    (ds : List ℕ) (v : ℕ)
    → All (λ k. k < 10) ds
    → digits v (numeral ds) ≡ some (v * 10 ^ length ds + value_of ds)
unfolding digits value_of
digits-numeral [] v h = ap some (omega arith)
digits-numeral (d ∷ ds) v h =
    let digit : (leb 48 (d + 48) && leb (d + 48) 57) ≡ true = ground (arith, h.0) in
    let back : d + 48 - 48 ≡ d = omega arith in
    rw (digit, back) (digits-numeral ds (v * 10 + d) h.1 ∙ ap some (horner v d ds))

at_least_one_digit-numeral :
    (ds : List ℕ) → AreDigits ds → at_least_one_digit (numeral ds) ≡ some (value_of ds)
at_least_one_digit-numeral [] h = absurd h
at_least_one_digit-numeral (d ∷ ds) h = digits-numeral (d ∷ ds) 0 h ∙ ap some (omega arith)

within-limit : (bound n : ℕ) (to : ℕ → ℤ) → n ≤ bound → within bound to (some n) ≡ some (to n)
within-limit bound n to h = ground (arith, h)

atoi-numeral :
    (sign : Sign) (ds : List ℕ)
    → AreDigits ds
    → value_of ds ≤ limit sign
    → atoi (signed sign (numeral ds)) ≡ some (number sign (value_of ds))
unfolding atoi
atoi-numeral unsigned [] h fits = absurd h
atoi-numeral unsigned (d ∷ ds) h fits =
    let not_minus : (d + 48 == 45) ≡ false = ground arith in
    let not_plus : (d + 48 == 43) ≡ false = ground arith in
    rw (not_minus, not_plus)
      (ap (within (2 ^ 63 - 1) pos) (at_least_one_digit-numeral (d ∷ ds) h)
        ∙ within-limit (2 ^ 63 - 1) _ pos fits)
atoi-numeral plus ds h fits =
    ap (within (2 ^ 63 - 1) pos) (at_least_one_digit-numeral ds h)
    ∙ within-limit (2 ^ 63 - 1) _ pos fits
atoi-numeral minus ds h fits =
    ap (within (2 ^ 63) negate) (at_least_one_digit-numeral ds h)
    ∙ within-limit (2 ^ 63) _ negate fits

atoi_nil : (n : ℤ) → ¬ (atoi [] ≡ some n)
unfolding atoi
atoi_nil n e = cc

int_of-some : (s : Text) (default_val n : ℤ) → atoi s ≡ some n → int_of s default_val ≡ n
int_of-some [] default_val n e = absurd (atoi_nil n e)
int_of-some (c ∷ s) default_val n e = rw e refl

-- getIntVar reads a decimal number, with or without a sign, that fits an int.
pub get_int_var-numeral :
    (environ : Environ) (key : Text) (default_val : ℤ) (sign : Sign) (ds : List ℕ)
    → environ key ≡ signed sign (numeral ds)
    → AreDigits ds
    → value_of ds ≤ limit sign
    → get_int_var environ key default_val ≡ number sign (value_of ds)
unfolding get_int_var
get_int_var-numeral environ key default_val sign ds e h fits =
    int_of-some (environ key) default_val (number sign (value_of ds))
      (ap atoi e ∙ atoi-numeral sign ds h fits)
