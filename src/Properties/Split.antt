-- ===== src/Properties/Split.antt =====
-- properties.go: splitDelimmitedString, at the program's regular expression `\s*((,\s*)|(\s+))`. A
-- match is a run of spaces with or without a comma behind it, and if there is a comma, the spaces
-- behind that.
pub mod Words
pub mod RoundTrip
use smudge.Prelude.{
  ℕ, zero, suc, ◌+◌, ◌-◌, Bool, ◌||◌, Option, none, some, List, [], ◌∷◌, length, take, drop, ◌==◌,
  if◌then◌else◌,
}
use smudge.Prelude.Text.{Text, trim_space}

-- `\s`.
unfoldable pub is_blank : ℕ → Bool
is_blank c = (c == 9) || (c == 10) || (c == 12) || (c == 13) || (c == 32)

-- `\s*`: how many there are.
unfoldable pub blanks : Text → ℕ
blanks [] = 0
blanks (c ∷ s) = let rest = blanks s in if is_blank c then 1 + rest else 0

-- The end of a match that has `n` blanks, by what is behind these.
unfoldable pub match_behind : ℕ → Text → ℕ
match_behind n [] = n
match_behind n (c ∷ s) = if c == b',' then n + 1 + blanks s else n

-- The length of the match at the start of the text, 0 if there is none.
unfoldable pub match_length : Text → ℕ
match_length s = match_behind (blanks s) (drop (blanks s) s)

-- reg.FindAllStringIndex(str, -1) from `i` on, with `inside` characters of a match left to pass.
unfoldable pub find_all : ℕ → ℕ → Text → List (ℕ × ℕ)
find_all inside i [] = []
find_all (suc inside) i (c ∷ s) = find_all inside (i + 1) s
find_all zero i (c ∷ s) =
    let m = match_length (c ∷ s) in
    let rest = find_all (m - 1) (i + 1) s in if m == 0 then rest else (i, i + m) ∷ rest

-- The loop over the matches: `str[lastStart:val[0]]`, and `str[lastStart:]` behind it.
unfoldable pub cut : Text → ℕ → List (ℕ × ℕ) → List Text
cut str last_start [] = drop last_start str ∷ []
cut str last_start ((from, to) ∷ indices) =
    take (from - last_start) (drop last_start str) ∷ cut str to indices

abbrev special_case : List Text → List Text
special_case ([] ∷ []) = []
special_case pieces = pieces

-- The nil slice, for a text of spaces, is none.
unfoldable pub split_trimmed : Text → Option (List Text)
split_trimmed [] = none
split_trimmed (c ∷ s) = some (special_case (cut (c ∷ s) 0 (find_all 0 0 (c ∷ s))))

unfoldable pub split_delimmited_string : Text → Option (List Text)
split_delimmited_string str = split_trimmed (trim_space str)
