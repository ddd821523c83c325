-- ===== src/NodeMap/Random.antt =====
-- nodeMap.go: what getRandomNodes may return, whatever the random numbers are.
use smudge.Prelude.{
  ℕ, zero, suc, ◌+◌, ◌-◌, ◌%◌, ◌≤◌, ◌<◌, ◌≡◌, refl, sym, ap, subst, ◌∙◌, Bool, true, false, not,
  List, [], ◌∷◌, length, length-set, get_or, set, get_or-set_self, get_or-set_ne, All,
  if◌then◌else◌, ◌==◌, arith, ℕ_discrete,
}
use Prim.Native.Nat.{min}
use smudge.Prelude.Count.{count, keep, weigh, weigh-set, weigh-count, weigh-keep, one_if}
use smudge.Cluster.{Cluster, Ref}
use smudge.NodeMap.{NodeMap, values, swap, shuffle, pick, excluded, get_random_nodes}

-- What the second write of a swap overwrites.
overwritten :
    (xs : List ℕ) (i j d : ℕ)
    → i < length xs
    → get_or (set xs i (get_or xs j d)) j d ≡ get_or xs j d
overwritten xs i j d h = elim (ℕ_discrete i j) [
  | yes e ↦
      subst (λ k. get_or (set xs i (get_or xs k d)) k d ≡ get_or xs k d) e
        (get_or-set_self xs i (get_or xs i d) d h)
  | no n ↦ get_or-set_ne xs i j (get_or xs j d) d n
]

length-swap : (i j : ℕ) (xs : List ℕ) → length (swap i j xs) ≡ length xs
unfolding swap
length-swap i j xs =
    length-set (set xs i (get_or xs j 0)) j (get_or xs i 0) ∙ length-set xs i (get_or xs j 0)

weigh-swap :
    (w : ℕ → ℕ) (i j : ℕ) (xs : List ℕ)
    → i < length xs
    → j < length xs
    → weigh w (swap i j xs) ≡ weigh w xs
unfolding swap
weigh-swap w i j xs hi hj =
    let first = weigh-set w xs i (get_or xs j 0) 0 hi in
    let fits = length-set xs i (get_or xs j 0) in
    let second = weigh-set w (set xs i (get_or xs j 0)) j (get_or xs i 0) 0 (omega (arith, fits)) in
    omega (arith, first, second, ap w (overwritten xs i j 0 hi))

weigh-shuffle :
    (w : ℕ → ℕ) (draw : ℕ → ℕ) (rounds i : ℕ) (xs : List ℕ)
    → i + rounds ≤ length xs
    → weigh w (shuffle draw rounds i xs) ≡ weigh w xs
unfolding shuffle
weigh-shuffle w draw zero i xs h = refl
weigh-shuffle w draw (suc rounds) i xs h =
    let j = draw i % (i + 1) in
    weigh-shuffle w draw rounds (i + 1) (swap i j xs) (omega (arith, length-swap i j xs))
    ∙ weigh-swap w i j xs (omega arith) (omega arith)

-- The shuffle keeps every node, as often as it was there.
pub count-shuffle :
    (draw : ℕ → ℕ) (xs : List ℕ) (a : ℕ) → count a (shuffle draw (length xs) 0 xs) ≡ count a xs
count-shuffle draw xs a =
    sym (weigh-count a _)
    ∙ weigh-shuffle (λ x. one_if (x == a)) draw (length xs) 0 xs (omega arith)
    ∙ weigh-count a xs

module _ (allowed : Ref → Bool) where
  count-pick : (a size seen : ℕ) (xs : List ℕ) → count a (pick allowed size seen xs) ≤ count a xs
  unfolding pick count
  count-pick a size seen [] = omega arith
  count-pick a size seen (x ∷ xs) =
      ground (arith, count-pick a size seen xs, count-pick a size (seen + 1) xs)

  pick-allowed :
      (size seen : ℕ) (xs : List ℕ) → All (λ n. allowed n ≡ true) (pick allowed size seen xs)
  unfolding pick
  pick-allowed size seen [] = tt
  pick-allowed size seen (x ∷ xs) =
      ground (arith, pick-allowed size seen xs, pick-allowed size (seen + 1) xs)

  length-pick :
      (size seen : ℕ) (xs : List ℕ)
      → seen < size
      → length (pick allowed size seen xs) ≡ min (size - seen) (length (keep allowed xs))
  unfolding pick keep
  length-pick size seen [] h = omega arith
  length-pick size seen (x ∷ xs) h =
      ground (arith, length-pick size seen xs, length-pick size (seen + 1) xs)

module _ (c : Cluster) (m : NodeMap) (exclude : List Ref) where
  -- The nodes that may be returned.
  abbrev pub candidate : Ref → Bool
  candidate n = not (excluded c exclude n)

  length-candidates :
      (draw : ℕ → ℕ)
      → length (keep candidate (shuffle draw (length (values m)) 0 (values m)))
        ≡ length (keep candidate (values m))
  length-candidates draw =
      sym (weigh-keep candidate _)
      ∙ weigh-shuffle (λ n. one_if (candidate n)) draw _ 0 (values m) (omega arith)
      ∙ weigh-keep candidate (values m)

  length-pick-from :
      (size : ℕ) (xs : List Ref)
      → (size ≡ 0 → length xs ≡ 0)
      → length (pick candidate size 0 xs) ≡ min size (length (keep candidate xs))
  length-pick-from zero [] h = unfold pick keep in refl
  length-pick-from zero (x ∷ xs) h = absurd (omega (arith, h refl))
  length-pick-from (suc size) xs h =
      omega (arith, length-pick candidate (suc size) 0 xs (omega arith))

  pick-not-excluded :
      (xs : List Ref)
      → All (λ n. candidate n ≡ true) xs
      → All (λ n. excluded c exclude n ≡ false) xs
  pick-not-excluded [] a = tt
  pick-not-excluded (x ∷ xs) a = (ground arith, pick-not-excluded xs a.1)

  length-shuffle :
      (draw : ℕ → ℕ) (rounds i : ℕ) (xs : List ℕ) → length (shuffle draw rounds i xs) ≡ length xs
  unfolding shuffle
  length-shuffle draw zero i xs = refl
  length-shuffle draw (suc rounds) i xs =
      length-shuffle draw rounds (i + 1) (swap i (draw i % (i + 1)) xs)
      ∙ length-swap i (draw i % (i + 1)) xs

  -- Whatever the random numbers are, getRandomNodes returns nodes of the map, none oftener than the
  -- map has it, none at an excluded address, and as many as were asked for (all, where 0 were asked
  -- for), or all that are not excluded if these are fewer.
  pub get_random_nodes_lem :
      (draw : ℕ → ℕ) (size : ℕ)
      → All (λ n. excluded c exclude n ≡ false) (get_random_nodes c m draw size exclude)
        × ((a : ℕ) → count a (get_random_nodes c m draw size exclude) ≤ count a (values m))
        × (length (get_random_nodes c m draw size exclude)
            ≡ min
                (if size == 0 then length (values m) else size)
                (length (keep candidate (values m))))
  unfolding get_random_nodes
  get_random_nodes_lem draw size =
      let all_nodes = values m in
      let size' = if size == 0 then length all_nodes else size in
      let shuffled = shuffle draw (length all_nodes) 0 all_nodes in
      (
        pick-not-excluded _ (pick-allowed candidate size' 0 shuffled),
        λ a. omega (arith, count-pick candidate a size' 0 shuffled, count-shuffle draw all_nodes a),
        length-pick-from size' shuffled
              (λ e. ground (arith, length-shuffle draw (length all_nodes) 0 all_nodes))
            ∙ ap (min size') (length-candidates draw),
      )
