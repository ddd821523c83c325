-- ===== src/NodeMap/Range.antt =====
-- nodeMap.go: getRandomNodes returns nodes that exist.
use smudge.Prelude.{ℕ, ◌<◌, List, [], ◌∷◌, length, All, arith}
use smudge.Prelude.Count.{All-fewer}
use smudge.Cluster.{Cluster, Ref}
use smudge.Cluster.Heap.{Keeps}
use smudge.NodeMap.{NodeMap, values, get_random_nodes}
use smudge.NodeMap.Random.{get_random_nodes_lem}
use smudge.Registry.WellFormed.{IsWellFormed, Keyed}

abbrev pub AllIn : Cluster → List Ref → Type 0
AllIn c nodes = All (λ n. n < length c.heap) nodes

pub AllIn-Keeps : (c c' : Cluster) (nodes : List Ref) → Keeps c c' → AllIn c nodes → AllIn c' nodes
AllIn-Keeps c c' [] k h = tt
AllIn-Keeps c c' (n ∷ nodes) k h = (omega (arith, h.0, k.longer), AllIn-Keeps c c' nodes k h.1)

values-In : (c : Cluster) (m : NodeMap) → Keyed c m → AllIn c (values m)
values-In c [] h = tt
values-In c ((a, r) ∷ m) h = (h.0.0, values-In c m h.1)

pub get_random_nodes-In :
    (c : Cluster) (draw : ℕ → ℕ) (size : ℕ) (exclude : List Ref)
    → IsWellFormed c
    → AllIn c (get_random_nodes c c.known_nodes draw size exclude)
get_random_nodes-In c draw size exclude w =
    All-fewer (λ n. n < length c.heap) _ (values c.known_nodes)
      (get_random_nodes_lem c c.known_nodes exclude draw size).1 (values-In c c.known_nodes w.known)
