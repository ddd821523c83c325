-- ===== src/Prelude/Count.antt =====
-- How often a number stands in a list: what is kept when the order is forgotten.
use Prim.Native.Nat.{ℕ, zero, suc, ◌+◌, ◌<◌, ◌≤◌}
use mathlib.Core.Path.{◌≡◌, refl, subst}
use mathlib.Core.List.{List, [], ◌∷◌}
use mathlib.Core.Bool.{Bool, true, false}
use native.Mathlib.Omega.{arith}
use native.Mathlib.Decide.{ℕ_discrete}
use smudge.Prelude.Tests.{◌==◌, if◌then◌else◌}
use smudge.Prelude.Lists.{length, set, get_or, All}

abbrev pub one_if : Bool → ℕ
one_if true = 1
one_if false = 0

unfoldable pub count : ℕ → List ℕ → ℕ
count a [] = 0
count a (x ∷ xs) = one_if (x == a) + count a xs

-- A sum over the elements.
unfoldable pub weigh : (ℕ → ℕ) → List ℕ → ℕ
weigh w [] = 0
weigh w (x ∷ xs) = w x + weigh w xs

-- A write takes the weight of one item away and adds that of one.
pub weigh-set :
    (w : ℕ → ℕ) (xs : List ℕ) (i v d : ℕ)
    → i < length xs
    → weigh w (set xs i v) + w (get_or xs i d) ≡ weigh w xs + w v
unfolding weigh
weigh-set w [] i v d h = elim h [ ]
weigh-set w (x ∷ xs) zero v d h = omega arith
weigh-set w (x ∷ xs) (suc i) v d h = omega (arith, weigh-set w xs i v d (omega arith))

pub weigh-count : (a : ℕ) (xs : List ℕ) → weigh (λ x. one_if (x == a)) xs ≡ count a xs
unfolding weigh count
weigh-count a [] = refl
weigh-count a (x ∷ xs) = omega (arith, weigh-count a xs)

-- The elements that pass a test, in order.
unfoldable pub keep {ℓ} : {A : Type ℓ} → (A → Bool) → List A → List A
keep test [] = []
keep test (x ∷ xs) = let rest = keep test xs in if test x then x ∷ rest else rest

pub count-keep :
    (a : ℕ) (test : ℕ → Bool) (xs : List ℕ)
    → count a (keep test xs) ≡ (if test a then count a xs else 0)
unfolding count keep
count-keep a test [] = ground arith
count-keep a test (x ∷ xs) = ground (arith, count-keep a test xs)

pub weigh-keep :
    (test : ℕ → Bool) (xs : List ℕ) → weigh (λ x. one_if (test x)) xs ≡ length (keep test xs)
unfolding weigh keep
weigh-keep test [] = refl
weigh-keep test (x ∷ xs) = ground (arith, weigh-keep test xs)

-- What holds of all elements holds of those that another list has no oftener.
All-counted : (P : ℕ → Type 0) (a : ℕ) (ys : List ℕ) → All P ys → 0 < count a ys → P a
unfolding count
All-counted P a [] h lt = absurd (omega arith)
All-counted P a (y ∷ ys) h lt = elim (ℕ_discrete y a) [
  | yes e ↦ subst P e h.0
  | no ne ↦ All-counted P a ys h.1 (ground (arith, ne, lt))
]

pub All-fewer :
    (P : ℕ → Type 0) (xs ys : List ℕ) → ((a : ℕ) → count a xs ≤ count a ys) → All P ys → All P xs
unfolding count
All-fewer P [] ys fewer h = tt
All-fewer P (x ∷ xs) ys fewer h = (
  All-counted P x ys h (ground (arith, fewer x)),
  All-fewer P xs ys (λ a. ground (arith, fewer a)) h,
)
