-- ===== src/Registry/Addresses/Places.antt =====
-- registry.go: the places of characters in a text, as net.SplitHostPort looks for them.
use smudge.Prelude.{
  ℕ, zero, suc, ◌<◌, ◌≡◌, ◌≢◌, refl, ap, false, none, some, List, [], ◌∷◌, ◌++◌, length, drop, All,
  arith,
}
use smudge.Prelude.Text.{Text}
use smudge.Prelude.Numerals.{numeral}
use smudge.Registry.Addresses.{index_byte, last_index, has, is_some}

abbrev pub Without : ℕ → Text → Type 0
Without c s = All (λ d. d ≢ c) s

index_byte-Without : (c : ℕ) (s : Text) → Without c s → index_byte c s ≡ none
unfolding index_byte
index_byte-Without c [] h = refl
index_byte-Without c (d ∷ s) h = ground (arith, h.0, index_byte-Without c s h.1)

last_index-Without : (c : ℕ) (s : Text) → Without c s → last_index c s ≡ none
unfolding last_index
last_index-Without c [] h = refl
last_index-Without c (d ∷ s) h = rw (last_index-Without c s h.1) (ground (arith, h.0))

pub index_byte-found :
    (c : ℕ) (a s : Text) → Without c a → index_byte c (a ++ (c ∷ s)) ≡ some (length a)
unfolding index_byte
index_byte-found c [] s h = ground arith
index_byte-found c (d ∷ a) s h = ground (arith, h.0, index_byte-found c a s h.1)

pub last_index-found :
    (c : ℕ) (a s : Text) → Without c s → last_index c (a ++ (c ∷ s)) ≡ some (length a)
unfolding last_index
last_index-found c [] s h = rw (last_index-Without c s h) (ground arith)
last_index-found c (d ∷ a) s h = rw (last_index-found c a s h) refl

pub has-Without : (c : ℕ) (s : Text) → Without c s → has c s ≡ false
has-Without c s h = ap is_some (index_byte-Without c s h)

pub Without-append : (c : ℕ) (a s : Text) → Without c a → Without c s → Without c (a ++ s)
Without-append c [] s ha hs = hs
Without-append c (d ∷ a) s ha hs = (ha.0, Without-append c a s ha.1 hs)

Without-drop : (c n : ℕ) (s : Text) → Without c s → Without c (drop n s)
Without-drop c zero s h = h
Without-drop c (suc n) [] h = tt
Without-drop c (suc n) (d ∷ s) h = Without-drop c n s h.1

-- Digits are no punctuation.
pub numeral-Without : (c : ℕ) (ds : List ℕ) → 57 < c → All (λ k. k < 10) ds → Without c (numeral ds)
numeral-Without c [] lt h = tt
numeral-Without c (d ∷ ds) lt h = ((λ e. omega (arith, h.0, e, lt)), numeral-Without c ds lt h.1)
