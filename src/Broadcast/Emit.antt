-- ===== src/Broadcast/Emit.antt =====
-- broadcast.go: what getBroadcastToEmit returns, and what it removes.
use smudge.Prelude.{
  ◌≤◌, ◌≡◌, ◌≢◌, In, In-self, All-map, ◌⊎◌, inl, inr, refl, ap, sym, ◌∙◌, subst, Bool, true, false,
  Option, none, some, List, [], ◌∷◌, All, leb, arith, Bool-cases, not,
}
use smudge.Prelude.Maps.{remove, remove-All}
use smudge.Prelude.Count.{keep}
use smudge.Prelude.Sort.{sort, IsSorted, sort-IsSorted, All-sort, sort-All}
use smudge.Cluster.{Cluster, Broadcast, Tag, Tag-discrete, rank8}
use smudge.Broadcast.{
  label, expire_loop, get_broadcast_to_emit, head?, by_broadcast_emit_counter,
  broadcast_remove_value,
}

-- Emitted often enough.
abbrev pub is_old : Tag × Broadcast → Bool
is_old e = leb (rank8 e.1.emit_counter) broadcast_remove_value

abbrev pub Labelled : Cluster → List (Tag × Broadcast) → Type 0
Labelled c = All (λ e. e.0 ≡ label c e.1)

expire_loop-kept :
    (c : Cluster) (entries m : List (Tag × Broadcast))
    → (expire_loop c m entries).1 ≡ keep (λ e. not (is_old e)) entries
unfolding expire_loop keep
expire_loop-kept c [] m = refl
expire_loop-kept c (e ∷ entries) m = elim (Bool-cases (is_old e)) [
  | inl old ↦ rw old (expire_loop-kept c entries (remove Tag-discrete (label c e.1) m))
  | inr fresh ↦ rw fresh (ap (◌∷◌ e) (expire_loop-kept c entries m))
]

-- The key is that of an old entry.
abbrev OldKey : Tag → List (Tag × Broadcast) → Type 0
OldKey k [] = ⊥
OldKey k (e ∷ entries) = ((is_old e ≡ true) × (e.0 ≡ k)) ⊎ OldKey k entries

abbrev Covered : List (Tag × Broadcast) → Tag × Broadcast → Type 0
Covered entries y = is_old y ≡ true → OldKey y.0 entries

abbrev pub IsFresh : Tag × Broadcast → Type 0
IsFresh e = is_old e ≡ false

Covered-nil : (y : Tag × Broadcast) → Covered [] y → IsFresh y
Covered-nil y h = elim (Bool-cases (is_old y)) [ inl old ↦ absurd (h old) | inr fresh ↦ fresh ]

Covered-self : (entries : List (Tag × Broadcast)) → All (Covered entries) entries
Covered-self [] = tt
Covered-self (e ∷ entries) = (
  (λ old. inl (old, refl)),
  All-map (Covered entries) (Covered (e ∷ entries)) entries (λ y h old. inr (h old))
      (Covered-self entries),
)

Covered-fresh :
    (e : Tag × Broadcast) (entries : List (Tag × Broadcast)) (y : Tag × Broadcast)
    → IsFresh e
    → Covered (e ∷ entries) y
    → Covered entries y
Covered-fresh e entries y fresh h old = elim (h old) [
  | inl found ↦ absurd (clash (sym fresh ∙ found.0))
  | inr later ↦ later
]
  where
    clash : ¬ (false ≡ true)
    clash w = cc

Covered-other :
    (c : Cluster) (e : Tag × Broadcast) (entries : List (Tag × Broadcast)) (y : Tag × Broadcast)
    → e.0 ≡ label c e.1
    → (y.0 ≢ label c e.1) × Covered (e ∷ entries) y
    → Covered entries y
Covered-other c e entries y lab h old = elim (h.1 old) [
  | inl found ↦ absurd (h.0 (sym found.1 ∙ lab))
  | inr later ↦ later
]

expire_loop-IsFresh :
    (c : Cluster) (entries m : List (Tag × Broadcast))
    → Labelled c entries
    → All (Covered entries) m
    → All IsFresh (expire_loop c m entries).0
unfolding expire_loop
expire_loop-IsFresh c [] m lab h = All-map (Covered []) IsFresh m Covered-nil h
expire_loop-IsFresh c (e ∷ entries) m lab h = elim (Bool-cases (is_old e)) [
  | inl old ↦ rw old (
      expire_loop-IsFresh c entries (remove Tag-discrete (label c e.1) m) lab.1 (
        All-map _ (Covered entries) (remove Tag-discrete (label c e.1) m)
          (λ y. Covered-other c e entries y lab.0)
          (remove-All Tag-discrete (Covered (e ∷ entries)) (label c e.1) m h)))
  | inr fresh ↦ rw fresh (
      expire_loop-IsFresh c entries m lab.1 (
        All-map (Covered (e ∷ entries)) (Covered entries) m (λ y. Covered-fresh e entries y fresh)
          h))
]

-- The entry stands in the list, and no other has a higher counter; no entry stands in no list but
-- the empty one.
abbrev pub IsHighest : Option (Tag × Broadcast) → List (Tag × Broadcast) → Type 0
IsHighest none xs = xs ≡ []
IsHighest (some e) xs =
    In e xs × All (λ y. by_broadcast_emit_counter y ≤ by_broadcast_emit_counter e) xs

sort-nil : (xs : List (Tag × Broadcast)) → sort by_broadcast_emit_counter xs ≡ [] → xs ≡ []
sort-nil xs e =
    nothing xs (sort-All by_broadcast_emit_counter (λ y. ⊥) xs (subst (All (λ y. ⊥)) (sym e) tt))
  where
    nothing : (ys : List (Tag × Broadcast)) → All (λ y. ⊥) ys → ys ≡ []
    nothing [] a = refl
    nothing (y ∷ ys) a = absurd a.0

head-IsHighest :
    (xs sorted : List (Tag × Broadcast))
    → sorted ≡ sort by_broadcast_emit_counter xs
    → IsHighest (head? sorted) xs
head-IsHighest xs [] e = sort-nil xs (sym e)
head-IsHighest xs (x ∷ sorted) e =
    let order =
      subst (IsSorted by_broadcast_emit_counter) (sym e)
        (sort-IsSorted by_broadcast_emit_counter xs) in
    let inside =
      subst (All (λ y. In y xs)) (sym e)
        (All-sort by_broadcast_emit_counter (λ y. In y xs) xs (In-self xs)) in
    (
      inside.0,
      sort-All by_broadcast_emit_counter
          (λ y. by_broadcast_emit_counter y ≤ by_broadcast_emit_counter x) xs
          (subst (All (λ y. by_broadcast_emit_counter y ≤ by_broadcast_emit_counter x)) e
            (omega arith, order.0)),
    )

-- If every broadcast stands under its label, getBroadcastToEmit leaves none in the map whose counter
-- is -100 or less, and returns, of the others, one with the highest counter; nothing, where there
-- is no other.
pub get_broadcast_to_emit_lem :
    (c : Cluster)
    → Labelled c c.broadcasts
    → All IsFresh (get_broadcast_to_emit c).0.broadcasts
      × IsHighest (get_broadcast_to_emit c).1 (keep (λ e. not (is_old e)) c.broadcasts)
unfolding get_broadcast_to_emit
get_broadcast_to_emit_lem c lab = (
  expire_loop-IsFresh c c.broadcasts c.broadcasts lab (Covered-self c.broadcasts),
  subst
      (λ xs.
        IsHighest
          (head? (sort by_broadcast_emit_counter (expire_loop c c.broadcasts c.broadcasts).1)) xs)
      (expire_loop-kept c c.broadcasts c.broadcasts) (head-IsHighest _ _ refl),
)
