-- ===== src/Registry/Updated.antt =====
-- registry.go: which nodes getRandomUpdatedNodes returns.
use smudge.Prelude.{
  if_pos, if_neg, zero, suc, ℕ, ◌≤◌, ◌≡◌, ◌≢◌, refl, sym, subst, inl, inr, false, List, [], ◌∷◌,
  All, All-map, take, length, length-take, ltb, arith, Bool-cases, if◌then◌else◌,
}
use smudge.Prelude.Maps.{insert, remove, remove-All}
use smudge.Prelude.Sort.{sort, IsSorted, sort-IsSorted, All-sort}
use smudge.Net.{Address, Address-discrete}
use smudge.NodeMap
use smudge.NodeMap.{NodeMap}
use smudge.Cluster.{Cluster, Ref, address_of}
use smudge.Registry.{
  is_spent, prune_loop, delete_all, by_node_emit_counter, get_random_updated_nodes,
}

-- An entry of a node to tell of: under its address, and to be announced still.
abbrev Live : Cluster → Address × Ref → Type 0
Live c e = (e.0 ≡ address_of c e.1) × (is_spent c e.1 ≡ false)

-- The addresses of the excluded nodes are not the entry's key.
abbrev pub Spared : Cluster → List Ref → Address → Type 0
Spared c exclude a = All (λ x. a ≢ address_of c x) exclude

insert-Live :
    (c : Cluster) (n : Ref) (m : NodeMap)
    → is_spent c n ≡ false
    → All (Live c) m
    → All (Live c) (NodeMap.add c m n)
unfolding NodeMap.add insert
insert-Live c n [] h a = ((refl, h), tt)
insert-Live c n ((k, r) ∷ m) h a = elim (Address-discrete k (address_of c n)) [
  | yes e ↦ rw (if_pos _ e) ((e, h), a.1)
  | no ne ↦ rw (if_neg _ ne) (a.0, insert-Live c n m h a.1)
]

copied-Live :
    (c : Cluster) (n : Ref) (copy : NodeMap)
    → All (Live c) copy
    → All (Live c) (if is_spent c n then copy else NodeMap.add c copy n)
copied-Live c n copy a = elim (Bool-cases (is_spent c n)) [
  | inl spent ↦ subst (λ b. All (Live c) (if b then copy else NodeMap.add c copy n)) (sym spent) a
  | inr live ↦
      subst (λ b. All (Live c) (if b then copy else NodeMap.add c copy n)) (sym live)
        (insert-Live c n copy live a)
]

prune_loop-Live :
    (c : Cluster) (nodes : List Ref) (updated copy : NodeMap)
    → All (Live c) copy
    → All (Live c) (prune_loop c updated copy nodes).1
unfolding prune_loop
prune_loop-Live c [] updated copy a = a
prune_loop-Live c (n ∷ nodes) updated copy a =
    prune_loop-Live c nodes (if is_spent c n then NodeMap.delete c updated n else updated)
      (if is_spent c n then copy else NodeMap.add c copy n) (copied-Live c n copy a)

-- What holds of the entries still holds behind the deletes, and none has a deleted key.
delete_all-All :
    (c : Cluster) (P : Address × Ref → Type 0) (exclude : List Ref) (m : NodeMap)
    → All P m
    → All (λ e. Spared c exclude e.0 × P e) (delete_all c m exclude)
unfolding delete_all NodeMap.delete
delete_all-All c P [] m a = All-map P _ m (λ e h. (tt, h)) a
delete_all-All c P (x ∷ exclude) m a =
    All-map (λ e. Spared c exclude e.0 × ((e.0 ≢ address_of c x) × P e)) _
      (delete_all c (remove Address-discrete (address_of c x) m) exclude)
      (λ e h. ((h.1.0, h.0), h.1.1))
      (delete_all-All c (λ e. (e.0 ≢ address_of c x) × P e) exclude
        (remove Address-discrete (address_of c x) m)
        (remove-All Address-discrete P (address_of c x) m a))

-- A node to tell of.
abbrev pub IsNews : Cluster → List Ref → Ref → Type 0
IsNews c exclude n = Spared c exclude (address_of c n) × (is_spent c n ≡ false)

values-IsNews :
    (c : Cluster) (exclude : List Ref) (m : NodeMap)
    → All (λ e. Spared c exclude e.0 × Live c e) m
    → All (IsNews c exclude) (NodeMap.values m)
values-IsNews c exclude [] a = tt
values-IsNews c exclude ((k, r) ∷ m) a =
    ((subst (Spared c exclude) a.0.1.0 a.0.0, a.0.1.1), values-IsNews c exclude m a.1)

All-take : (P : Ref → Type 0) (n : ℕ) (xs : List Ref) → All P xs → All P (take n xs)
All-take P zero xs a = tt
All-take P (suc n) [] a = tt
All-take P (suc n) (x ∷ xs) a = (a.0, All-take P n xs a.1)

IsSorted-take :
    (rank : Ref → ℕ) (n : ℕ) (xs : List Ref) → IsSorted rank xs → IsSorted rank (take n xs)
IsSorted-take rank zero xs a = tt
IsSorted-take rank (suc n) [] a = tt
IsSorted-take rank (suc n) (x ∷ xs) a = (All-take _ n xs a.0, IsSorted-take rank n xs a.1)

-- getRandomUpdatedNodes returns at most `size` nodes, the most often to be announced first, each
-- of them with a positive counter and none at an excluded address.
pub get_random_updated_nodes_lem :
    (c : Cluster) (size : ℕ) (exclude : List Ref)
    → (length (get_random_updated_nodes c size exclude).1 ≤ size)
      × All (IsNews c exclude) (get_random_updated_nodes c size exclude).1
      × IsSorted (by_node_emit_counter c) (get_random_updated_nodes c size exclude).1
unfolding get_random_updated_nodes
get_random_updated_nodes_lem c size exclude =
    let copy = (prune_loop c c.updated_nodes NodeMap.init (NodeMap.values c.updated_nodes)).1 in
    let nodes = NodeMap.values (delete_all c copy exclude) in
    let slice = sort (by_node_emit_counter c) nodes in
    let size' = if ltb (length slice) size then length slice else size in
    let news = values-IsNews c exclude (delete_all c copy exclude) (
      delete_all-All c (Live c) exclude copy
        (prune_loop-Live c (NodeMap.values c.updated_nodes) c.updated_nodes NodeMap.init tt)) in
    (
      ground (arith, length-take size' slice),
      All-take (IsNews c exclude) size' slice
          (All-sort (by_node_emit_counter c) (IsNews c exclude) nodes news),
      IsSorted-take (by_node_emit_counter c) size' slice
          (sort-IsSorted (by_node_emit_counter c) nodes),
    )
