-- ===== src/Registry/View.antt =====
-- registry.go: what the rest of the program sees of the known nodes: under an address, the status and
-- the heartbeat. The heap, the pointers and the order of the map are forgotten.
use smudge.Prelude.{
  ℕ, ◌<◌, ◌≡◌, ◌≢◌, refl, sym, ap, ◌∙◌, subst, true, Option, none, some, [], ◌∷◌, length, arith,
  ◌==◌, ℕ_discrete, ite, if_pos, if_neg, ==_iff,
}
use smudge.Prelude.Maps.{lookup, insert, lookup-insert}
use smudge.Net.{Address, Address-discrete}
use smudge.NodeMap
use smudge.NodeMap.{NodeMap}
use smudge.Events.{do_status_update}
use smudge.Cluster.{Cluster, Node, NodeStatus, Ref, deref, assign, address_of, touch}
use smudge.Cluster.Heap.{deref-assign_self, deref-assign_ne}
use smudge.Registry.{set_status, note_updated, forget_retries, update_node_status, enter}
use smudge.Registry.WellFormed.{Keyed}
use smudge.Registry.Statuses.{update_node_status-heap}

-- A status and a heartbeat.
abbrev pub Facts : Type 0
Facts = NodeStatus × ℕ

unfoldable pub facts : Cluster → Ref → Facts
facts c r = ((deref c r).status, (deref c r).heartbeat)

abbrev pub View : Type 0
View = Address → Option Facts

abbrev pub seen : Cluster → Option Ref → Option Facts
seen c none = none
seen c (some r) = some (facts c r)

unfoldable pub view : Cluster → View
view c a = seen c (lookup Address-discrete a c.known_nodes)

facts-heap : (c c' : Cluster) (j : Ref) → c'.heap ≡ c.heap → facts c' j ≡ facts c j
unfolding facts deref
facts-heap c c' j h = rw h refl

abbrev facts_of : Node → Facts
facts_of n = (n.status, n.heartbeat)

module _ (c : Cluster) (r : Ref) (status : NodeStatus) (heartbeat : ℕ) (source : Option Ref) where
  pub facts-update_same :
      (deref c r).status == status ≡ true
      → (j : Ref) → facts (update_node_status c r status heartbeat source) j ≡ facts c j
  unfolding update_node_status
  facts-update_same same j = rw same refl

  set_status_self :
      r < length c.heap → facts (set_status c r status heartbeat source) r ≡ (status, heartbeat)
  unfolding set_status facts
  set_status_self inside = ap facts_of (deref-assign_self c r _ inside)

  set_status_other :
      (j : Ref) → r ≢ j → facts (set_status c r status heartbeat source) j ≡ facts c j
  unfolding set_status facts
  set_status_other j apart = ap facts_of (deref-assign_ne c r j _ apart)

  pub facts-update_new :
      r < length c.heap
      → (deref c r).status ≢ status
      → facts (update_node_status c r status heartbeat source) r ≡ (status, heartbeat)
  facts-update_new inside new =
      facts-heap (set_status c r status heartbeat source) _ r
        (update_node_status-heap c r status heartbeat source new)
      ∙ set_status_self inside

  pub facts-update_other :
      (j : Ref) → r ≢ j → facts (update_node_status c r status heartbeat source) j ≡ facts c j
  facts-update_other j apart = elim (ℕ_discrete (deref c r).status status) [
    | yes same ↦ facts-update_same ((==_iff _ _).1 same) j
    | no ne ↦
        facts-heap (set_status c r status heartbeat source) _ j
          (update_node_status-heap c r status heartbeat source ne)
        ∙ set_status_other j apart
  ]

  pub known-update : (update_node_status c r status heartbeat source).known_nodes ≡ c.known_nodes
  unfolding update_node_status set_status assign note_updated forget_retries do_status_update
  known-update = ground arith

touch-facts : (c : Cluster) (r j : Ref) → r < length c.heap → facts (touch c r) j ≡ facts c j
unfolding touch facts
touch-facts c r j inside = elim (ℕ_discrete r j) [
  | yes e ↦
      subst
        (λ k.
          facts_of (deref (assign c r (record (deref c r) { timestamp = c.now })) k)
          ≡ facts_of (deref c k))
        e (ap facts_of (deref-assign_self c r _ inside))
  | no ne ↦ ap facts_of (deref-assign_ne c r j _ ne)
]

-- A lookup gives a node of this address.
pub lookup-address :
    (c : Cluster) (a : Address) (r : Ref) (m : NodeMap)
    → Keyed c m
    → lookup Address-discrete a m ≡ some r
    → address_of c r ≡ a
unfolding lookup
lookup-address c a r [] k e = absurd (clash e)
  where
    clash : ¬ (none ≡ some r)
    clash f = cc
lookup-address c a r ((b, q) ∷ m) k e = elim (Address-discrete b a) [
  | yes here ↦
      let got = rw (if_pos _ here) at e in
      subst (λ j. address_of c j ≡ a) (some-inj got) (k.0.1 ∙ here)
  | no further ↦ let got = rw (if_neg _ further) at e in lookup-address c a r m k.1 got
]
  where
    some-inj : some q ≡ some r → q ≡ r
    some-inj w = cc

-- What is written to a node is not seen at another address.
pub view-elsewhere :
    (c c' : Cluster) (r : Ref) (a : Address)
    → c'.known_nodes ≡ c.known_nodes
    → ((j : Ref) → r ≢ j → facts c' j ≡ facts c j)
    → Keyed c c.known_nodes
    → a ≢ address_of c r
    → view c' a ≡ view c a
unfolding view
view-elsewhere c c' r a same others keyed apart =
    ap (λ m. seen c' (lookup Address-discrete a m)) same
    ∙ by_lookup (lookup Address-discrete a c.known_nodes) refl
  where
    by_lookup :
        (o : Option Ref) → lookup Address-discrete a c.known_nodes ≡ o → seen c' o ≡ seen c o
    by_lookup none e = refl
    by_lookup (some j) e = ap some (
        others j (λ q.
          apart (sym (lookup-address c a j c.known_nodes keyed e) ∙ ap (address_of c) (sym q))))

seen-same :
    (c c' : Cluster) (o : Option Ref) → ((j : Ref) → facts c' j ≡ facts c j) → seen c' o ≡ seen c o
seen-same c c' none same = refl
seen-same c c' (some j) same = ap some (same j)

seen-ite :
    {P : Type 0} (c : Cluster) (d : Dec P) (x y : Option Ref)
    → seen c (ite d x y) ≡ ite d (seen c x) (seen c y)
seen-ite c (yes p) x y = refl
seen-ite c (no p) x y = refl

pub enter-facts : (c : Cluster) (r j : Ref) → r < length c.heap → facts (enter c r) j ≡ facts c j
enter-facts c r j inside =
    facts-heap (touch c r) (enter c r) j (unfold enter in refl) ∙ touch-facts c r j inside

pub known-enter :
    (c : Cluster) (r : Ref)
    → address_of (touch c r) r ≡ address_of c r
    → (enter c r).known_nodes ≡ insert Address-discrete (address_of c r) r c.known_nodes
unfolding enter NodeMap.add
known-enter c r same =
    ap (λ k. insert Address-discrete k r (touch c r).known_nodes) same ∙ unfold touch assign in refl

-- A node enters the map.
pub view-enter :
    (c : Cluster) (r : Ref) (a : Address)
    → r < length c.heap
    → address_of (touch c r) r ≡ address_of c r
    → view (enter c r) a ≡ ite (Address-discrete (address_of c r) a) (some (facts c r)) (view c a)
unfolding view
view-enter c r a inside same =
    seen-same c (enter c r) _ (λ j. enter-facts c r j inside)
    ∙ ap (λ m. seen c (lookup Address-discrete a m)) (known-enter c r same)
    ∙ ap (seen c) (lookup-insert Address-discrete (address_of c r) a r c.known_nodes)
    ∙ seen-ite c (Address-discrete (address_of c r) a) (some r) _
