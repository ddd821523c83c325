-- ===== src/Membership/Timeouts/Targets.antt =====
-- membership.go: whom getTargetNodes picks for the indirect pings.
use smudge.Prelude.{
  ℕ, ◌≤◌, ◌≡◌, ◌≢◌, false, List, [], ◌∷◌, ◌++◌, length, length-append, All, All-append, arith,
  Bool-cases, inl, inr, ◌==◌, leb,
}
use smudge.Cluster.{Cluster, Ref, status_dead, deref}
use smudge.NodeMap.{excluded, get_random_nodes}
use smudge.NodeMap.Random.{get_random_nodes_lem}
use smudge.Membership.Timeouts.{target_loop, get_target_nodes}

module _ (c : Cluster) (count : ℕ) where
  length-target_loop :
      (filtered nodes : List Ref)
      → length filtered ≤ count
      → length (target_loop c count filtered nodes) ≤ count
  unfolding target_loop
  length-target_loop filtered [] h = h
  length-target_loop filtered (n ∷ nodes) h = ground (
    arith,
    length-target_loop filtered nodes,
    length-target_loop (filtered ++ (n ∷ [])) nodes,
    length-append filtered (n ∷ []),
  )

  -- What holds of the nodes that are not dead holds of the nodes that are picked.
  pub target_loop-All :
      (P : Ref → Type 0) (filtered nodes : List Ref)
      → All P filtered
      → All (λ n. (deref c n).status ≢ status_dead → P n) nodes
      → All P (target_loop c count filtered nodes)
  unfolding target_loop
  target_loop-All P filtered [] hf hn = hf
  target_loop-All P filtered (n ∷ nodes) hf hn = elim (Bool-cases (leb count (length filtered))) [
    | inl full ↦ rw full hf
    | inr room ↦ elim (Bool-cases ((deref c n).status == status_dead)) [
      | inl dead ↦ rw (room, dead) (target_loop-All P filtered nodes hf hn.1)
      | inr live ↦
          rw (room, live)
            (target_loop-All P (filtered ++ (n ∷ [])) nodes
              (All-append P filtered (n ∷ []) hf (hn.0 (ground arith), tt)) hn.1)
    ]
  ]

both :
    (c : Cluster) (exclude nodes : List Ref)
    → All (λ n. excluded c exclude n ≡ false) nodes
    → All
        (λ n.
          (deref c n).status ≢ status_dead
          → (excluded c exclude n ≡ false) × ((deref c n).status ≢ status_dead))
        nodes
both c exclude [] h = tt
both c exclude (n ∷ nodes) h = ((λ live. (h.0, live)), both c exclude nodes h.1)

-- getTargetNodes picks at most `count` nodes, none of them dead and none at an excluded address,
-- whatever the random numbers are.
pub get_target_nodes_lem :
    (c : Cluster) (draw : ℕ → ℕ) (count : ℕ) (exclude : List Ref)
    → (length (get_target_nodes c draw count exclude) ≤ count)
      × All
          (λ n. (excluded c exclude n ≡ false) × ((deref c n).status ≢ status_dead))
          (get_target_nodes c draw count exclude)
unfolding get_target_nodes
get_target_nodes_lem c draw count exclude =
    let nodes = get_random_nodes c c.known_nodes draw 0 exclude in
    (
      length-target_loop c count [] nodes (omega arith),
      target_loop-All c count
          (λ n. (excluded c exclude n ≡ false) × ((deref c n).status ≢ status_dead)) [] nodes tt
          (both c exclude nodes (get_random_nodes_lem c c.known_nodes exclude draw 0).0),
    )
