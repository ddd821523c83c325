-- ===== src/PingData/Ring.antt =====
-- pingData.go: what the ring holds.
use smudge.Prelude.{
  ℕ, suc, ◌+◌, ◌%◌, ◌<◌, ◌≡◌, refl, ap, ◌∙◌, Bool, true, List, [], ◌∷◌, ◌++◌, length, length-append,
  set, ltb, arith, append_assoc, append-nil,
}
use smudge.Prelude.Outcome.{Outcome, ok, ◌>>=◌}
use native.Mathlib.Nat.{mod-eq_of_lt, mod_self}
use smudge.Cluster.{PingData}
use smudge.PingData.{add}

-- Points are added one after another.
unfoldable pub add_all : PingData → List ℕ → Outcome PingData
add_all pd [] = ok pd
add_all pd (x ∷ xs) = do pd' ← add pd x; add_all pd' xs

-- A write behind `pre`.
set_append : (pre suf : List ℕ) (x y : ℕ) → set (pre ++ (y ∷ suf)) (length pre) x ≡ pre ++ (x ∷ suf)
set_append [] suf x y = refl
set_append (z ∷ pre) suf x y = ap (◌∷◌ z) (set_append pre suf x y)

-- A ring of which `pre` is written and `old` is not.
abbrev pub ring : List ℕ → List ℕ → ℕ → Bool → PingData
ring pre old pointer updated = record { pings = pre ++ old; pointer = pointer; updated = updated }

add-written :
    (pre old : List ℕ) (x y : ℕ) (updated : Bool)
    → add (ring pre (y ∷ old) (length pre) updated) x
      ≡ ok (ring (pre ++ (x ∷ [])) old ((length pre + 1) % (length pre + suc (length old))) true)
unfolding add
add-written pre old x y updated =
    let room : ltb (length pre) (length (pre ++ (y ∷ old))) ≡ true =
      ground (arith, length-append pre (y ∷ old)) in
    rw (room, set_append pre old x y, length-append pre (y ∷ old), append_assoc pre) refl

-- The pointer moves on while the lap is not done, and returns to 0 with the last point.
pointer-next :
    (pre old : List ℕ) (x z : ℕ)
    → (length pre + 1) % (length pre + suc (length (z ∷ old))) ≡ length (pre ++ (x ∷ []))
pointer-next pre old x z = mod-eq_of_lt (omega arith) ∙ omega (arith, length-append pre (x ∷ []))

pointer-last : (pre : List ℕ) → (length pre + 1) % (length pre + suc 0) ≡ 0
pointer-last pre = ap (λ (n : ℕ). (length pre + 1) % n) (omega arith) ∙ mod_self (length pre + 1)

add_all-step :
    (pre old : List ℕ) (y x : ℕ) (xs : List ℕ) (updated : Bool)
    → add_all (ring pre (y ∷ old) (length pre) updated) (x ∷ xs)
      ≡ add_all
          (ring (pre ++ (x ∷ [])) old ((length pre + 1) % (length pre + suc (length old))) true)
          xs
unfolding add_all
add_all-step pre old y x xs updated = rw (add-written pre old x y updated) refl

add_all-rest :
    (old xs pre : List ℕ) (y x : ℕ) (updated : Bool)
    → length xs ≡ length old
    → add_all (ring pre (y ∷ old) (length pre) updated) (x ∷ xs)
      ≡ ok (ring (pre ++ (x ∷ xs)) [] 0 true)
add_all-rest [] [] pre y x updated h =
    add_all-step pre [] y x [] updated
    ∙ unfold add_all in ap (λ (k : ℕ). ok (ring (pre ++ (x ∷ [])) [] k true)) (pointer-last pre)
add_all-rest [] (x' ∷ xs) pre y x updated h = absurd (omega arith)
add_all-rest (y' ∷ old) [] pre y x updated h = absurd (omega arith)
add_all-rest (y' ∷ old) (x' ∷ xs) pre y x updated h =
    add_all-step pre (y' ∷ old) y x (x' ∷ xs) updated
    ∙ ap (λ (k : ℕ). add_all (ring (pre ++ (x ∷ [])) (y' ∷ old) k true) (x' ∷ xs))
        (pointer-next pre old x y')
    ∙ add_all-rest old xs (pre ++ (x ∷ [])) y' x' true (omega arith)
    ∙ ap (λ (t : List ℕ). ok (ring t [] 0 true)) (append_assoc pre (x ∷ []) (x' ∷ xs))

-- A ring whose pointer is at the start takes as many points as it has places without an error,
-- and then holds these points, in their order, with its pointer at the start again.
pub add_all-lap :
    (old xs : List ℕ) (updated : Bool)
    → 0 < length old
    → length xs ≡ length old
    → add_all (record { pings = old; pointer = 0; updated = updated }) xs
      ≡ ok (record { pings = xs; pointer = 0; updated = true })
add_all-lap [] xs updated some_room h = absurd (omega arith)
add_all-lap (y ∷ old) [] updated some_room h = absurd (omega arith)
add_all-lap (y ∷ old) (x ∷ xs) updated some_room h =
    let done = add_all-rest old xs [] y x updated (omega arith) in rw append-nil at done
