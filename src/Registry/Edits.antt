-- ===== src/Registry/Edits.antt =====
-- registry.go: writes to a node that leave its address, status and heartbeat alone.
use smudge.Prelude.{
  ℕ, zero, suc, ◌≤◌, ◌≡◌, refl, ap, sym, ◌∙◌, subst, inl, inr, List, [], ◌∷◌, length, set, arith,
  dec_lt, Bool-cases, if◌then◌else◌,
}
use smudge.Prelude.Maps.{Distinct, remove, remove-Distinct}
use smudge.Net.{Address-discrete}
use smudge.NodeMap
use smudge.NodeMap.{NodeMap}
use smudge.Cluster.{Cluster, Node, Ref, deref, assign, address, address_of, touch}
use smudge.Registry.{is_spent, prune_loop, get_random_updated_nodes}
use smudge.Registry.WellFormed.{IsWellFormed, Sound, Keyed, Keyed-remove, maps-Sound, assign-Sound}

pub set_beyond : (xs : List Node) (i : ℕ) (v : Node) → length xs ≤ i → set xs i v ≡ xs
set_beyond [] i v h = refl
set_beyond (x ∷ xs) zero v h = absurd (omega arith)
set_beyond (x ∷ xs) (suc i) v h = ap (◌∷◌ x) (set_beyond xs i v (omega arith))

pub keep-Sound :
    (c : Cluster) (r : Ref) (n : Node)
    → address n ≡ address (deref c r)
    → n.heartbeat ≡ (deref c r).heartbeat
    → n.status ≡ (deref c r).status
    → IsWellFormed c
    → Sound c (assign c r n)
keep-Sound c r n same beat status w = elim (dec_lt r (length c.heap)) [
  | yes inside ↦
      assign-Sound c r n inside same (omega (arith, beat))
        (λ e. w.statuses r inside (sym status ∙ e)) w
  | no beyond ↦
      unfold assign in
      (maps-Sound c _ (set_beyond c.heap r n (omega arith)) refl refl w.known w.updated
        w.known_distinct w.updated_distinct w.acks w.duties w)
]

pub touch_any-Sound : (c : Cluster) (r : Ref) → IsWellFormed c → Sound c (touch c r)
unfolding touch address
touch_any-Sound c r w = keep-Sound c r _ refl refl refl w

prune_loop-Keyed :
    (c : Cluster) (nodes : List Ref) (updated copy : NodeMap)
    → Keyed c updated
    → Distinct Address-discrete updated
    → Keyed c (prune_loop c updated copy nodes).0
      × Distinct Address-discrete (prune_loop c updated copy nodes).0
unfolding prune_loop NodeMap.delete
prune_loop-Keyed c [] updated copy k d = (k, d)
prune_loop-Keyed c (n ∷ nodes) updated copy k d =
    let updated' =
      if is_spent c n then remove Address-discrete (address_of c n) updated else updated in
    let kept : Keyed c updated' × Distinct Address-discrete updated' =
      elim (Bool-cases (is_spent c n)) [
        | inl spent ↦
            subst
              (λ b.
                let u = if b then remove Address-discrete (address_of c n) updated else updated in
                Keyed c u × Distinct Address-discrete u)
              (sym spent)
              (
                Keyed-remove c (address_of c n) updated k,
                remove-Distinct Address-discrete (address_of c n) updated d,
              )
        | inr live ↦
            subst
              (λ b.
                let u = if b then remove Address-discrete (address_of c n) updated else updated in
                Keyed c u × Distinct Address-discrete u)
              (sym live) (k, d)
      ] in
    prune_loop-Keyed c nodes updated' (if is_spent c n then copy else NodeMap.add c copy n) kept.0
      kept.1

pub get_random_updated_nodes-Sound :
    (c : Cluster) (size : ℕ) (exclude : List Ref)
    → IsWellFormed c
    → Sound c (get_random_updated_nodes c size exclude).0
unfolding get_random_updated_nodes
get_random_updated_nodes-Sound c size exclude w =
    let kept =
      prune_loop-Keyed c (NodeMap.values c.updated_nodes) c.updated_nodes NodeMap.init w.updated
        w.updated_distinct in
    maps-Sound c _ refl refl refl w.known kept.0 w.known_distinct kept.1 w.acks w.duties w
