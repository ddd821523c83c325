-- ===== src/Membership/Merge/Steps.antt =====
-- membership.go: updateNodeStatus and AddNode over the view of the known nodes.
use smudge.Prelude.{
  ℕ, ◌<◌, ◌≡◌, ◌≢◌, refl, sym, ap, ◌∙◌, true, false, Option, none, some, length, arith, ◌==◌, ite,
}
use smudge.Prelude.Outcome.{ok}
use smudge.Prelude.Maps.{lookup, has_key, insert, lookup-insert_ne}
use smudge.Net.{Address, Address-discrete}
use smudge.NodeMap
use smudge.NodeMap.{NodeMap, same_address}
use smudge.Cluster.{
  touch, Cluster, Ref, NodeStatus, status_unknown, status_forward_to, deref, address_of,
}
use smudge.Registry.{update_node_status, add_node, enter}
use smudge.Registry.Invariant.{update_node_status-Held, touch-Sound}
use smudge.Registry.WellFormed.{IsWellFormed, Held}
use smudge.Registry.View.{
  facts, seen, view, facts-update_other, known-update, view-elsewhere, view-enter, enter-facts,
  known-enter,
}

pub contains-none :
    (c : Cluster) (m : NodeMap) (r : Ref)
    → lookup Address-discrete (address_of c r) m ≡ none
    → NodeMap.contains c m r ≡ false
unfolding NodeMap.contains NodeMap.contains_by_address has_key
contains-none c m r e = ground (arith, e)

pub contains-some :
    (c : Cluster) (m : NodeMap) (r q : Ref)
    → lookup Address-discrete (address_of c r) m ≡ some q
    → NodeMap.contains c m r ≡ true
unfolding NodeMap.contains NodeMap.contains_by_address has_key
contains-some c m r q e = ground (arith, e)

-- Only one node has changed, and only at its address is another node known than before.
pub record Local (c c' : Cluster) (r : Ref) : Type 0 where
  pub others : (j : Ref) → r ≢ j → facts c' j ≡ facts c j
  pub elsewhere :
      (a : Address)
      → address_of c r ≢ a
      → lookup Address-discrete a c'.known_nodes ≡ lookup Address-discrete a c.known_nodes

pub Local-refl : (c : Cluster) (r : Ref) → Local c c r
Local-refl c r = record { others = λ j apart. refl; elsewhere = λ a apart. refl }

module _ (c : Cluster) (r : Ref) (inside : r < length c.heap) (w : IsWellFormed c)
    (status : NodeStatus) (heartbeat : ℕ) (source : Option Ref)
    (named : status ≢ status_forward_to) where
  abbrev d : Cluster
  d = update_node_status c r status heartbeat source

  held : Held c d
  held = update_node_status-Held c r status heartbeat source inside named w

  same_address_then : address_of d r ≡ address_of c r
  same_address_then = held.moves_none.keeps r inside

  inside_then : r < length d.heap
  inside_then = omega (arith, inside, held.moves_none.longer)

  -- Elsewhere the view is as it was.
  pub update-elsewhere : (a : Address) → address_of c r ≢ a → view d a ≡ view c a
  update-elsewhere a apart =
      view-elsewhere c d r a (known-update c r status heartbeat source)
        (facts-update_other c r status heartbeat source) w.known (λ e. apart (sym e))

  lookup-then :
      (o : Option Ref)
      → lookup Address-discrete (address_of c r) c.known_nodes ≡ o
      → lookup Address-discrete (address_of d r) d.known_nodes ≡ o
  lookup-then o e =
      ap (λ m. lookup Address-discrete (address_of d r) m)
        (known-update c r status heartbeat source)
      ∙ ap (λ a. lookup Address-discrete a c.known_nodes) same_address_then
      ∙ e

  -- AddNode of a node that is known.
  pub add_node-old :
      lookup Address-discrete (address_of c r) c.known_nodes ≡ some r → add_node d r ≡ ok d
  unfolding add_node
  add_node-old e = rw (contains-some d d.known_nodes r r (lookup-then (some r) e)) refl

  pub view-old :
      lookup Address-discrete (address_of c r) c.known_nodes ≡ some r
      → view d (address_of c r) ≡ some (facts d r)
  unfolding view
  view-old e =
      ap (λ m. seen d (lookup Address-discrete (address_of c r) m))
        (known-update c r status heartbeat source)
      ∙ ap (seen d) e

  -- AddNode of one that is not.
  pub add_node-new :
      lookup Address-discrete (address_of c r) c.known_nodes ≡ none
      → (deref d r).status ≢ status_unknown
      → add_node d r ≡ ok (enter d r)
  unfolding add_node
  add_node-new e known =
      let absent = contains-none d d.known_nodes r (lookup-then none e) in
      let first : ((deref d r).status == status_unknown) ≡ false = ground (arith, known) in
      let other = held.well_formed.statuses r inside_then in
      let second : ((deref d r).status == status_forward_to) ≡ false = ground (arith, other) in
      rw (absent, first, second) refl

  pub view-new :
      (a : Address)
      → view (enter d r) a ≡ ite (Address-discrete (address_of c r) a) (some (facts d r)) (view c a)
  view-new a =
      view-enter d r a inside_then
        ((touch-Sound d r inside_then held.well_formed).grows.keeps r inside_then)
      ∙ ap (λ k. ite (Address-discrete k a) (some (facts d r)) (view d a)) same_address_then
      ∙ elsewhere (Address-discrete (address_of c r) a)
    where
      elsewhere :
          (e : Dec (address_of c r ≡ a))
          → ite e (some (facts d r)) (view d a) ≡ ite e (some (facts d r)) (view c a)
      elsewhere (yes e) = refl
      elsewhere (no ne) = update-elsewhere a ne

  touched_address : address_of (touch d r) r ≡ address_of c r
  touched_address =
      (touch-Sound d r inside_then held.well_formed).grows.keeps r inside_then ∙ same_address_then

  pub update-Local : Local c d r
  update-Local = record {
    others = facts-update_other c r status heartbeat source;
    elsewhere =
        λ a apart. ap (λ m. lookup Address-discrete a m) (known-update c r status heartbeat source);
  }

  pub enter-Local : Local c (enter d r) r
  enter-Local = record {
    others = λ j apart.
        enter-facts d r j inside_then ∙ facts-update_other c r status heartbeat source j apart;
    elsewhere = λ a apart.
        ap (λ m. lookup Address-discrete a m)
          (known-enter d r (touched_address ∙ sym same_address_then)
            ∙ ap (λ m. insert Address-discrete (address_of d r) r m)
                (known-update c r status heartbeat source))
        ∙ lookup-insert_ne Address-discrete (address_of d r) a r c.known_nodes
            (λ e. apart (sym same_address_then ∙ e));
  }
