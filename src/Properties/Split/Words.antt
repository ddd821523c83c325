-- ===== src/Properties/Split/Words.antt =====
-- properties.go: the matches of the delimiters between words.
use smudge.Prelude.{
  ℕ, suc, ◌+◌, ◌-◌, ◌≡◌, ◌≢◌, refl, ap, ◌∙◌, true, false, List, [], ◌∷◌, ◌++◌, append_assoc, length,
  length-append, drop_append, All, arith, ◌==◌,
}
use smudge.Prelude.Text.{Text, is_space}
use smudge.Properties.Split.{is_blank, blanks, match_behind, match_length, find_all}

-- What stands between two words: blanks, at least one, or a comma with blanks around it.
pub data Separator : Type 0 where
  gap : ℕ → Text → Separator
  comma : Text → Text → Separator

abbrev pub separator_text : Separator → Text
separator_text (gap c s) = c ∷ s
separator_text (comma a b) = a ++ (b',' ∷ b)

abbrev pub Blank : Text → Type 0
Blank s = All (λ c. is_blank c ≡ true) s

abbrev pub Spaces : Text → Type 0
Spaces s = All (λ c. is_space c ≡ true) s

abbrev pub IsSeparator : Separator → Type 0
IsSeparator (gap c s) = Blank (c ∷ s)
IsSeparator (comma a b) = Blank a × Blank b

-- No space and no comma.
abbrev pub Plain : ℕ → Type 0
Plain c = (is_space c ≡ false) × (c ≢ b',')

abbrev pub IsWord : Text → Type 0
IsWord [] = ⊥
IsWord (c ∷ s) = All Plain (c ∷ s)

abbrev pub AreWords : Text → List (Separator × Text) → Type 0
AreWords word others = IsWord word × All (λ e. IsSeparator e.0 × IsWord e.1) others

-- The words with the separators between them.
abbrev pub join : Text → List (Separator × Text) → Text
join word [] = word
join word ((d, next) ∷ others) = word ++ (separator_text d ++ join next others)

abbrev pub second : Separator × Text → Text
second (d, word) = word

Plain-not_blank : (c : ℕ) → Plain c → is_blank c ≡ false
unfolding is_blank is_space
Plain-not_blank c (space, other) = ground (arith, space)

blanks-append : (a s : Text) → Blank a → blanks (a ++ s) ≡ length a + blanks s
unfolding blanks
blanks-append [] s h = omega arith
blanks-append (c ∷ a) s h = rw h.0 (omega (arith, blanks-append a s h.1))

blanks-stop : (c : ℕ) (s : Text) → is_blank c ≡ false → blanks (c ∷ s) ≡ 0
unfolding blanks
blanks-stop c s h = rw h refl

match_length-behind :
    (a s : Text) → Blank a → blanks s ≡ 0 → match_length (a ++ s) ≡ match_behind (length a) s
unfolding match_length
match_length-behind a s h stop =
    let e : blanks (a ++ s) ≡ length a = omega (arith, blanks-append a s h, stop) in
    rw e (ap (match_behind (length a)) (drop_append a s))

match_behind-Plain : (n c : ℕ) (s : Text) → Plain c → match_behind n (c ∷ s) ≡ n
unfolding match_behind
match_behind-Plain n c s (space, other) = ground (arith, other)

match_length-Plain : (c : ℕ) (s : Text) → Plain c → match_length (c ∷ s) ≡ 0
match_length-Plain c s p =
    match_length-behind [] (c ∷ s) tt (blanks-stop c s (Plain-not_blank c p))
    ∙ match_behind-Plain 0 c s p

comma-not_blank : is_blank b',' ≡ false
unfolding is_blank
comma-not_blank = refl

match_length-separator :
    (d : Separator) (c : ℕ) (s : Text)
    → IsSeparator d
    → Plain c
    → match_length (separator_text d ++ (c ∷ s)) ≡ length (separator_text d)
match_length-separator (gap x a) c s h p =
    match_length-behind (x ∷ a) (c ∷ s) h (blanks-stop c s (Plain-not_blank c p))
    ∙ match_behind-Plain (length (x ∷ a)) c s p
match_length-separator (comma a b) c s h p =
    ap match_length (append_assoc a (b',' ∷ b) (c ∷ s))
    ∙ match_length-behind a (b',' ∷ (b ++ (c ∷ s))) h.0 (blanks-stop b',' _ comma-not_blank)
    ∙ behind
  where
    behind : match_behind (length a) (b',' ∷ (b ++ (c ∷ s))) ≡ length (a ++ (b',' ∷ b))
    behind =
        unfold match_behind in
        omega (
          arith,
          length-append a (b',' ∷ b),
          blanks-append b (c ∷ s) h.1,
          blanks-stop c s (Plain-not_blank c p),
        )

pub find_all-word :
    (w s : Text) (i : ℕ) → All Plain w → find_all 0 i (w ++ s) ≡ find_all 0 (i + length w) s
unfolding find_all
find_all-word [] s i h = ap (λ k. find_all 0 k s) (omega arith)
find_all-word (c ∷ w) s i h =
    rw (match_length-Plain c (w ++ s) h.0)
      (find_all-word w s (i + 1) h.1 ∙ ap (λ k. find_all 0 k s) (omega arith))

find_all-inside :
    (d s : Text) (i : ℕ) → find_all (length d) i (d ++ s) ≡ find_all 0 (i + length d) s
unfolding find_all
find_all-inside [] s i = ap (λ k. find_all 0 k s) (omega arith)
find_all-inside (c ∷ d) s i = find_all-inside d s (i + 1) ∙ ap (λ k. find_all 0 k s) (omega arith)

find_all-hit :
    (x n i : ℕ) (t : Text)
    → match_length (x ∷ t) ≡ suc n
    → find_all 0 i (x ∷ t) ≡ (i, i + suc n) ∷ find_all n (i + 1) t
unfolding find_all
find_all-hit x n i t e =
    let positive : (suc n == 0) ≡ false = ground arith in
    let less : suc n - 1 ≡ n = omega arith in rw (e, positive, less) refl

find_all-match :
    (x : ℕ) (d s : Text) (i : ℕ)
    → match_length (x ∷ (d ++ s)) ≡ suc (length d)
    → find_all 0 i (x ∷ (d ++ s)) ≡ (i, i + suc (length d)) ∷ find_all 0 (i + suc (length d)) s
find_all-match x d s i e =
    find_all-hit x (length d) i (d ++ s) e
    ∙ ap (◌∷◌ (i, i + suc (length d)))
        (find_all-inside d s (i + 1) ∙ ap (λ k. find_all 0 k s) (omega arith))

pub find_all-separator :
    (d : Separator) (c : ℕ) (s : Text) (i : ℕ)
    → IsSeparator d
    → Plain c
    → find_all 0 i (separator_text d ++ (c ∷ s))
      ≡ (i, i + length (separator_text d)) ∷ find_all 0 (i + length (separator_text d)) (c ∷ s)
find_all-separator (gap x a) c s i h p =
    find_all-match x a (c ∷ s) i (match_length-separator (gap x a) c s h p)
find_all-separator (comma [] b) c s i h p =
    find_all-match b',' b (c ∷ s) i (match_length-separator (comma [] b) c s h p)
find_all-separator (comma (x ∷ a) b) c s i h p =
    find_all-match x (a ++ (b',' ∷ b)) (c ∷ s) i (match_length-separator (comma (x ∷ a) b) c s h p)
