-- ===== src/Wire/Found.antt =====
-- message.go, broadcast.go: the node that is found, or made, is a node.
use smudge.Prelude.{
  if_pos, if_neg, subst, ap, ◌∙◌, ◌%◌, ◌==◌, if◌then◌else◌, ℕ, ◌<◌, ◌≡◌, refl, Option, none, some,
  [], ◌∷◌, length, length-append, arith,
}
use smudge.Prelude.Maps.{lookup}
use smudge.Net.{node_address_string, Ip, Address, Address-discrete}
use smudge.NodeMap
use smudge.NodeMap.{NodeMap}
use smudge.Cluster.{Cluster, Ref, alloc, address, address_of}
use smudge.Cluster.Heap.{deref-alloc_new}
use smudge.Wire.{find_or_create}
use smudge.Registry.{create_node_by_ip}
use smudge.Registry.WellFormed.{IsWellFormed, Sound, Sound-refl, Keyed, Entry}
use smudge.Registry.Known.{create_node_by_ip-Sound}

lookup-Entry :
    (c : Cluster) (a : Address) (r : Ref) (m : NodeMap)
    → Keyed c m
    → lookup Address-discrete a m ≡ some r
    → Entry c (a, r)
unfolding lookup
lookup-Entry c a r [] k e = absurd (clash e)
  where
    clash : ¬ (none ≡ some r)
    clash e = cc
lookup-Entry c a r ((b, q) ∷ m) k e = elim (Address-discrete b a) [
  | yes here ↦
      let got = rw (if_pos _ here) at e in
      subst (λ (t : Address × Ref). Entry c t)
        (ap (λ t. (t, q)) here ∙ ap (λ j. (a, j)) (some-inj got)) k.0
  | no further ↦ let got = rw (if_neg _ further) at e in lookup-Entry c a r m k.1 got
]
  where
    some-inj : some q ≡ some r → q ≡ r
    some-inj w = cc

-- The state is well-formed still, and the node is in it.
abbrev pub IsFound : Cluster → Cluster × Ref → Type 0
IsFound c t = Sound c t.0 × (t.1 < length t.0.heap)

pub create_node_by_ip-IsFound :
    (c : Cluster) (ip : Ip) (port : ℕ) → IsWellFormed c → IsFound c (create_node_by_ip c ip port)
create_node_by_ip-IsFound c ip port w = (
  create_node_by_ip-Sound c ip port w,
  unfold create_node_by_ip alloc in omega (arith, length-append c.heap (_ ∷ [])),
)

pub find_or_create-IsFound :
    (c : Cluster) (ip : Ip) (port : ℕ) → IsWellFormed c → IsFound c (find_or_create c ip port)
unfolding find_or_create NodeMap.get_by_ip NodeMap.get_by_address
find_or_create-IsFound c ip port w = by_lookup _ refl
  where
    port' : ℕ
    port' = if port == 0 then c.listen_port % 65536 else port

    by_lookup :
        (o : Option Ref)
        → lookup Address-discrete (node_address_string ip port') c.known_nodes ≡ o
        → IsFound c (elim o [ none ↦ create_node_by_ip c ip port | some node ↦ (c, node) ])
    by_lookup none e = create_node_by_ip-IsFound c ip port w
    by_lookup (some r) e = (
      Sound-refl c w,
      (lookup-Entry c (node_address_string ip port') r c.known_nodes w.known e).0,
    )

abbrev pub IsAt : Ip → ℕ → Cluster × Ref → Type 0
IsAt ip port t = address_of t.0 t.1 ≡ node_address_string ip port

created-address : (c : Cluster) (ip : Ip) (port : ℕ) → IsAt ip port (create_node_by_ip c ip port)
unfolding address_of create_node_by_ip address
created-address c ip port = ap address (deref-alloc_new c _)

-- If the port is not 0, the node is at the address.
pub find_or_create-address :
    (c : Cluster) (ip : Ip) (port : ℕ)
    → 0 < port
    → IsWellFormed c
    → IsAt ip port (find_or_create c ip port)
unfolding find_or_create NodeMap.get_by_ip NodeMap.get_by_address
find_or_create-address c ip port positive w = by_lookup _ given _ refl
  where
    given : (if port == 0 then c.listen_port % 65536 else port) ≡ port
    given = ground arith

    by_lookup :
        (p : ℕ)
        → p ≡ port
        → (o : Option Ref) → lookup Address-discrete (node_address_string ip p) c.known_nodes ≡ o
        → IsAt ip port (elim o [ none ↦ create_node_by_ip c ip port | some node ↦ (c, node) ])
    by_lookup p same none e = created-address c ip port
    by_lookup p same (some r) e =
        (lookup-Entry c (node_address_string ip p) r c.known_nodes w.known e).1
        ∙ ap (λ q. node_address_string ip q) same
