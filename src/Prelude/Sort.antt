-- ===== src/Prelude/Sort.antt =====
-- sort.Sort for an order that puts the greatest rank first. Go leaves the order of equal ranks
-- open; here the earlier element stays first.
use Prim.Native.Nat.{ℕ, ◌+◌, ◌≤◌}
use mathlib.Core.Path.{◌≡◌, refl}
use mathlib.Core.List.{List, [], ◌∷◌}
use native.Mathlib.Omega.{arith}
use mathlib.Core.Logic.{inl, inr}
use smudge.Prelude.Tests.{Bool-cases, ◌==◌, if◌then◌else◌, ltb}
use smudge.Prelude.Lists.{All}
use smudge.Prelude.Count.{count, one_if}

module _ {A : Type 0} (rank : A → ℕ) where
  unfoldable pub place : A → List A → List A
  place x [] = x ∷ []
  place x (y ∷ ys) = if ltb (rank y) (rank x) then x ∷ y ∷ ys else y ∷ place x ys

  unfoldable pub sort : List A → List A
  unfolding place
  sort [] = []
  sort (x ∷ xs) = place x (sort xs)

  -- Every element ranks at least as high as all that follow it.
  abbrev pub IsSorted : List A → Type 0
  IsSorted [] = Unit {0}
  IsSorted (x ∷ xs) = All (λ y. rank y ≤ rank x) xs × IsSorted xs

  place-All :
      (n : ℕ) (x : A) (xs : List A)
      → rank x ≤ n
      → All (λ y. rank y ≤ n) xs
      → All (λ y. rank y ≤ n) (place x xs)
  unfolding place
  place-All n x [] h a = (h, tt)
  place-All n x (y ∷ ys) h a = ground (arith, place-All n x ys h a.1)

  All-mono : (m n : ℕ) (xs : List A) → m ≤ n → All (λ y. rank y ≤ m) xs → All (λ y. rank y ≤ n) xs
  All-mono m n [] h a = tt
  All-mono m n (x ∷ xs) h a = (omega arith, All-mono m n xs h a.1)

  place-IsSorted : (x : A) (xs : List A) → IsSorted xs → IsSorted (place x xs)
  unfolding place
  place-IsSorted x [] s = (tt, tt)
  place-IsSorted x (y ∷ ys) s =
      ground
        (arith, place-IsSorted x ys s.1, place-All (rank y) x ys, All-mono (rank y) (rank x) ys)

  pub sort-IsSorted : (xs : List A) → IsSorted (sort xs)
  unfolding sort
  sort-IsSorted [] = tt
  sort-IsSorted (x ∷ xs) = place-IsSorted x (sort xs) (sort-IsSorted xs)

module _ {A : Type 0} (rank : A → ℕ) (P : A → Type 0) where
  place-each : (x : A) (xs : List A) → P x → All P xs → All P (place rank x xs)
  unfolding place
  place-each x [] h a = (h, tt)
  place-each x (y ∷ ys) h a = ground (arith, place-each x ys h a.1)

  placed-each : (x : A) (xs : List A) → All P (place rank x xs) → P x × All P xs
  unfolding place
  placed-each x [] a = a
  placed-each x (y ∷ ys) a = elim (Bool-cases (ltb (rank y) (rank x))) [
    | inl first ↦ rw first at a
    | inr later ↦ let a' = rw later at a in let (h, b) = placed-each x ys a'.1 in (h, (a'.0, b))
  ]

  -- A list and its sorted form have the same elements.
  pub All-sort : (xs : List A) → All P xs → All P (sort rank xs)
  unfolding sort
  All-sort [] a = tt
  All-sort (x ∷ xs) a = place-each x (sort rank xs) a.0 (All-sort xs a.1)

  pub sort-All : (xs : List A) → All P (sort rank xs) → All P xs
  unfolding sort
  sort-All [] a = tt
  sort-All (x ∷ xs) a = let (h, b) = placed-each x (sort rank xs) a in (h, sort-All xs b)

module _ (rank : ℕ → ℕ) where
  count-place : (a x : ℕ) (xs : List ℕ) → count a (place rank x xs) ≡ one_if (x == a) + count a xs
  unfolding place count
  count-place a x [] = refl
  count-place a x (y ∷ ys) = ground (arith, count-place a x ys)

  pub count-sort : (a : ℕ) (xs : List ℕ) → count a (sort rank xs) ≡ count a xs
  unfolding sort count
  count-sort a [] = refl
  count-sort a (x ∷ xs) = omega (arith, count-place a x (sort rank xs), count-sort a xs)
