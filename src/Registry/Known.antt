-- ===== src/Registry/Known.antt =====
-- registry.go: AddNode and RemoveNode on the map of known nodes.
use smudge.Prelude.{
  ℕ, ◌<◌, ◌≡◌, refl, ap, ◌∙◌, inl, inr, true, false, none, some, length, arith, Bool-cases, ◌==◌,
  ==_iff, ◌≢◌, sym, dec_lt,
}
use smudge.Prelude.Outcome.{ok}
use smudge.Prelude.Maps.{
  insert-Distinct, remove-Distinct, lookup, has_key, lookup-insert_self, lookup-remove_self,
  lookup-remove_ne,
}
use smudge.Net.{Ip, Address, Address-discrete}
use smudge.NodeMap
use smudge.NodeMap.{NodeMap}
use smudge.Cluster.{
  Cluster, Ref, status_unknown, status_alive, status_forward_to, deref, assign, address, address_of,
  touch,
}
use smudge.Registry.{
  update_node_status, update_status, enter, add_node, remove_node, create_node_by_ip,
}
use smudge.Cluster.Heap.{deref-assign_self}
use smudge.Registry.Edits.{touch_any-Sound, set_beyond}
use smudge.Registry.Invariant.{touch-Sound, update_node_status-Sound}
use smudge.Registry.WellFormed.{
  IsWellFormed, Sound, Sound-refl, Sound-then, Keyed-insert, Keyed-remove, maps-Sound, alloc-Sound,
}

pub contains-same :
    (c c' : Cluster) (m : NodeMap) (r : Ref)
    → address_of c' r ≡ address_of c r
    → NodeMap.contains c' m r ≡ NodeMap.contains c m r
unfolding NodeMap.contains
contains-same c c' m r e = rw e

has_key-some :
    (a : Address) (r : Ref) (m : NodeMap)
    → lookup Address-discrete a m ≡ some r
    → has_key Address-discrete a m ≡ true
unfolding has_key
has_key-some a r m e = ground (arith, e)

pub contains-add :
    (c : Cluster) (m : NodeMap) (r : Ref) → NodeMap.contains c (NodeMap.add c m r) r ≡ true
unfolding NodeMap.contains NodeMap.contains_by_address NodeMap.add
contains-add c m r =
    has_key-some (address_of c r) r _ (lookup-insert_self Address-discrete (address_of c r) r m)

-- Both AddNode and RemoveNode change the map behind a touch.
put_known : Cluster → NodeMap → Cluster
put_known c m = record c { known_nodes = m; known_nodes_modified = true }

put_known-address :
    (c : Cluster) (m : NodeMap) (r : Ref) → address_of (put_known c m) r ≡ address_of c r
unfolding put_known address_of deref
put_known-address c m r = refl

enter-Sound : (c : Cluster) (r : Ref) → r < length c.heap → IsWellFormed c → Sound c (enter c r)
unfolding enter NodeMap.add
enter-Sound c r h w = Sound-then c (touch c r) _ (touch-Sound c r h w) (λ w1.
    let t = touch-Sound c r h w in
    let h1 : r < length (touch c r).heap = omega (arith, t.grows.longer) in
    maps-Sound (touch c r) _ refl refl refl
      (Keyed-insert (touch c r) r (touch c r).known_nodes h1 w1.known) w1.updated
      (insert-Distinct Address-discrete (address_of (touch c r) r) r (touch c r).known_nodes
        w1.known_distinct)
      w1.updated_distinct w1.acks w1.duties w1)

enter-contains :
    (c : Cluster) (r : Ref) → NodeMap.contains (enter c r) (enter c r).known_nodes r ≡ true
unfolding enter
enter-contains c r =
    let c1 = touch c r in
    let m = NodeMap.add c1 c1.known_nodes r in
    contains-same c1 (record c1 { known_nodes = m; known_nodes_modified = true }) m r
      (unfold put_known in put_known-address c1 m r)
    ∙ contains-add c1 c1.known_nodes r

-- What AddNode promises of the state that it leaves.
pub record Added (c c' : Cluster) (r : Ref) : Type 0 where
  pub sound : Sound c c'
  pub present : NodeMap.contains c' c'.known_nodes r ≡ true

entered : (c d : Cluster) (r : Ref) → r < length c.heap → Sound c d → Added c (enter d r) r
entered c d r h s = record {
  sound = Sound-then c d _ s (λ w. enter-Sound d r (omega (arith, s.grows.longer)) w);
  present = enter-contains d r;
}

-- On a well-formed state AddNode returns (it does not meet FORWARD_TO, on which it would panic),
-- and the node is then known, under its own address.
pub add_node-returns :
    (c : Cluster) (r : Ref)
    → r < length c.heap
    → IsWellFormed c
    → (c' : Cluster) × (add_node c r ≡ ok c') × Added c c' r
unfolding add_node update_status
add_node-returns c r h w = elim (Bool-cases (NodeMap.contains c c.known_nodes r)) [
  | inl old ↦ (c, rw old, record { sound = Sound-refl c w; present = old })
  | inr new ↦ elim (Bool-cases ((deref c r).status == status_unknown)) [
    | inl unknown ↦
        let d = update_node_status c r status_alive (deref c r).heartbeat (some c.this_host) in
        let s =
          update_node_status-Sound c r status_alive (deref c r).heartbeat (some c.this_host) h
            (omega arith) (omega arith) w in
        (enter d r, rw (new, unknown), entered c d r h s)
    | inr named ↦ elim (Bool-cases ((deref c r).status == status_forward_to)) [
      | inl forward ↦
          absurd (w.statuses r h ((==_iff (deref c r).status status_forward_to).0 forward))
      | inr other ↦ (enter c r, rw (new, named, other), entered c c r h (Sound-refl c w))
    ]
  ]
]

-- RemoveNode keeps a well-formed state well-formed, moves no node to another address and takes no
-- heartbeat back.
pub remove_node-Sound : (c : Cluster) (r : Ref) → IsWellFormed c → Sound c (remove_node c r)
unfolding remove_node NodeMap.delete
remove_node-Sound c r w = elim (Bool-cases (NodeMap.contains c c.known_nodes r)) [
  | inr absent ↦ rw absent (Sound-refl c w)
  | inl present ↦ rw present (
      Sound-then c (touch c r) _ (touch_any-Sound c r w) (λ w1.
        maps-Sound (touch c r) _ refl refl refl
          (Keyed-remove (touch c r) (address_of (touch c r) r) (touch c r).known_nodes w1.known)
          w1.updated
          (remove-Distinct Address-discrete (address_of (touch c r) r) (touch c r).known_nodes
            w1.known_distinct)
          w1.updated_distinct w1.acks w1.duties w1))
]

has_key-none :
    (a : Address) (m : NodeMap)
    → lookup Address-discrete a m ≡ none
    → has_key Address-discrete a m ≡ false
unfolding has_key
has_key-none a m e = ground (arith, e)

-- A node that was removed is not known.
removed : Cluster → Ref → Cluster
removed c r = put_known (touch c r) (NodeMap.delete (touch c r) (touch c r).known_nodes r)

removed-absent :
    (c : Cluster) (r : Ref) → NodeMap.contains (removed c r) (removed c r).known_nodes r ≡ false
unfolding removed put_known NodeMap.contains NodeMap.contains_by_address NodeMap.delete address_of
    deref
removed-absent c r =
    has_key-none (address_of (touch c r) r) _
      (lookup-remove_self Address-discrete (address_of (touch c r) r) (touch c r).known_nodes)

remove_node-known :
    (c : Cluster) (r : Ref)
    → NodeMap.contains c c.known_nodes r ≡ true
    → remove_node c r ≡ removed c r
unfolding remove_node removed put_known
remove_node-known c r e = rw e refl

remove_node-unknown :
    (c : Cluster) (r : Ref) → NodeMap.contains c c.known_nodes r ≡ false → remove_node c r ≡ c
unfolding remove_node
remove_node-unknown c r e = rw e refl

pub remove_node-absent :
    (c : Cluster) (r : Ref)
    → NodeMap.contains (remove_node c r) (remove_node c r).known_nodes r ≡ false
remove_node-absent c r = elim (Bool-cases (NodeMap.contains c c.known_nodes r)) [
  | inr absent ↦
      ap (λ (d : Cluster). NodeMap.contains d d.known_nodes r) (remove_node-unknown c r absent)
      ∙ absent
  | inl present ↦
      ap (λ (d : Cluster). NodeMap.contains d d.known_nodes r) (remove_node-known c r present)
      ∙ removed-absent c r
]

touch-address : (c : Cluster) (r : Ref) → address_of (touch c r) r ≡ address_of c r
unfolding address_of
touch-address c r = elim (dec_lt r (length c.heap)) [
  | yes inside ↦
      unfold touch in (ap address (deref-assign_self c r _ inside) ∙ unfold address in refl)
  | no beyond ↦ unfold touch assign deref in rw (set_beyond c.heap r _ (omega arith)) refl
]

removed-others :
    (c : Cluster) (r : Ref) (a : Address)
    → address_of c r ≢ a
    → lookup Address-discrete a (removed c r).known_nodes ≡ lookup Address-discrete a c.known_nodes
unfolding removed put_known NodeMap.delete
removed-others c r a ne =
    lookup-remove_ne Address-discrete (address_of (touch c r) r) a (touch c r).known_nodes
      (λ e. ne (sym (touch-address c r) ∙ e))
    ∙ unfold touch assign in refl

remove_node-others :
    (c : Cluster) (r : Ref) (a : Address)
    → address_of c r ≢ a
    → lookup Address-discrete a (remove_node c r).known_nodes
      ≡ lookup Address-discrete a c.known_nodes
remove_node-others c r a ne = elim (Bool-cases (NodeMap.contains c c.known_nodes r)) [
  | inr absent ↦
      ap (λ (d : Cluster). lookup Address-discrete a d.known_nodes) (remove_node-unknown c r absent)
  | inl present ↦
      ap (λ (d : Cluster). lookup Address-discrete a d.known_nodes) (remove_node-known c r present)
      ∙ removed-others c r a ne
]

-- RemoveNode on a well-formed state: afterwards no node is known at the node's address, at any other
-- address the same node is known as before, and the state is well-formed, with no node moved and no
-- heartbeat taken back.
pub remove_node-removes :
    (c : Cluster) (r : Ref) (a : Address)
    → address_of c r ≢ a
    → IsWellFormed c
    → (NodeMap.contains (remove_node c r) (remove_node c r).known_nodes r ≡ false)
      × (lookup Address-discrete a (remove_node c r).known_nodes
          ≡ lookup Address-discrete a c.known_nodes)
      × Sound c (remove_node c r)
remove_node-removes c r a ne w =
    (remove_node-absent c r, remove_node-others c r a ne, remove_node-Sound c r w)

pub create_node_by_ip-Sound :
    (c : Cluster) (ip : Ip) (port : ℕ) → IsWellFormed c → Sound c (create_node_by_ip c ip port).0
unfolding create_node_by_ip
create_node_by_ip-Sound c ip port w = alloc-Sound c _ (omega arith) w
