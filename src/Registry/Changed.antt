-- ===== src/Registry/Changed.antt =====
-- registry.go: what updateNodeStatus changes, and what it leaves.
use smudge.Prelude.{
  ℕ, ◌<◌, ◌≡◌, ◌≢◌, refl, sym, ap, subst, ◌∙◌, Bool, true, false, Bool-cases, inl, inr, Option,
  none, List, ◌++◌, length, map, arith, ◌==◌, if◌then◌else◌,
}
use smudge.Prelude.Maps.{lookup, remove, lookup-remove_self}
use smudge.Net.{Address, Address-discrete}
use smudge.Events.{do_status_update}
use smudge.NodeMap
use smudge.NodeMap.{NodeMap}
use smudge.Cluster.{
  Cluster, NodeStatus, DeadNodeCounter, Ref, status_dead, on_change, emit_count, int8, deref,
  assign, address, address_of,
}
use smudge.Cluster.Heap.{deref-assign_self, deref-assign_ne}
use smudge.Registry.{set_status, note_updated, forget_retries, update_node_status}
use smudge.Registry.Invariant.{spread, update_node_status-new}
use smudge.Registry.Known.{contains-add, contains-same}

not_equal : (a b : ℕ) → a ≢ b → (a == b) ≡ false
not_equal a b ne = ground arith

noted_in : Cluster → Ref → Bool → NodeMap
noted_in c r old = if old then c.updated_nodes else NodeMap.add c c.updated_nodes r

note_updated-map :
    (c : Cluster) (r : Ref)
    → note_updated c r
      ≡ record c { updated_nodes = noted_in c r (NodeMap.contains c c.updated_nodes r) }
unfolding note_updated noted_in
note_updated-map c r = elim (Bool-cases (NodeMap.contains c c.updated_nodes r)) [
  | inl old ↦ rw old refl
  | inr new ↦ rw new refl
]

noted_in-contains :
    (c : Cluster) (r : Ref)
    → NodeMap.contains c (noted_in c r (NodeMap.contains c c.updated_nodes r)) r ≡ true
unfolding noted_in
noted_in-contains c r = elim (Bool-cases (NodeMap.contains c c.updated_nodes r)) [
  | inl old ↦ rw old old
  | inr new ↦ rw new (contains-add c c.updated_nodes r)
]

-- The retries of the node: kept for a dead node, and forgotten for any other.
abbrev pub retries_then : NodeStatus → Option DeadNodeCounter → Option DeadNodeCounter
retries_then status retries = if status == status_dead then retries else none

kept_retries : Cluster → Ref → NodeStatus → List (Address × DeadNodeCounter)
kept_retries c r status =
    if status == status_dead
    then c.dead_node_retries
    else remove Address-discrete (address_of c r) c.dead_node_retries

forget_retries-map :
    (c : Cluster) (r : Ref) (status : NodeStatus)
    → forget_retries c r status ≡ record c { dead_node_retries = kept_retries c r status }
unfolding forget_retries kept_retries
forget_retries-map c r status = elim (Bool-cases (status == status_dead)) [
  | inl dead ↦ rw dead refl
  | inr live ↦ rw live refl
]

kept_retries-lookup :
    (c : Cluster) (r : Ref) (status : NodeStatus)
    → lookup Address-discrete (address_of c r) (kept_retries c r status)
      ≡ retries_then status (lookup Address-discrete (address_of c r) c.dead_node_retries)
unfolding kept_retries
kept_retries-lookup c r status = elim (Bool-cases (status == status_dead)) [
  | inl dead ↦ rw dead refl
  | inr live ↦ rw live (lookup-remove_self Address-discrete (address_of c r) c.dead_node_retries)
]

-- What is done behind the write to the node, as one change of the state.
spread_to : Cluster → Ref → NodeStatus → Cluster
spread_to c r status = record c {
  updated_nodes = noted_in c r (NodeMap.contains c c.updated_nodes r);
  dead_node_retries = kept_retries c r status;
  events = c.events ++ map (λ sl. on_change sl r status) c.status_listeners;
}

spread-map :
    (c : Cluster) (r : Ref) (status : NodeStatus) → spread c r status ≡ spread_to c r status
unfolding spread spread_to do_status_update kept_retries address_of deref
spread-map c r status =
    ap (λ d. do_status_update (forget_retries d r status) r status) (note_updated-map c r)
    ∙ ap (λ d. do_status_update d r status) (forget_retries-map _ r status)

-- What becomes of node `r`, of another node `j`, and of the variables.
pub record Changed (c c' : Cluster) (r j : Ref) (status : NodeStatus) (heartbeat : ℕ)
    (source : Option Ref) : Type 0 where
  pub written : deref c' r ≡ record (deref c r) {
    timestamp = c.now;
    status = status;
    status_source = source;
    emit_counter = int8 (emit_count c);
    heartbeat = heartbeat;
  }
  pub other : deref c' j ≡ deref c j
  pub updated : NodeMap.contains c' c'.updated_nodes r ≡ true
  pub retries :
      lookup Address-discrete (address_of c r) c'.dead_node_retries
      ≡ retries_then status (lookup Address-discrete (address_of c r) c.dead_node_retries)
  pub told : c'.events ≡ c.events ++ map (λ sl. on_change sl r status) c.status_listeners
  pub known : c'.known_nodes ≡ c.known_nodes

module _ (c : Cluster) (r j : Ref) (status : NodeStatus) (heartbeat : ℕ) (source : Option Ref)
    (inside : r < length c.heap) (ne : r ≢ j) where
  abbrev c1 : Cluster
  c1 = set_status c r status heartbeat source

  written_at : deref c1 r ≡ record (deref c r) {
    timestamp = c.now;
    status = status;
    status_source = source;
    emit_counter = int8 (emit_count c);
    heartbeat = heartbeat;
  }
  unfolding set_status
  written_at = deref-assign_self c r _ inside

  address-written : address_of c1 r ≡ address_of c r
  unfolding address_of
  address-written = ap address written_at ∙ unfold address in refl

  other_left : deref c1 j ≡ deref c j
  unfolding set_status
  other_left = deref-assign_ne c r j _ ne

  spread_to-deref : (k : Ref) → deref (spread_to c1 r status) k ≡ deref c1 k
  unfolding spread_to deref
  spread_to-deref k = refl

  spread_to-address : address_of (spread_to c1 r status) r ≡ address_of c1 r
  unfolding address_of
  spread_to-address = ap address (spread_to-deref r)

  retries-written : c1.dead_node_retries ≡ c.dead_node_retries
  unfolding set_status assign
  retries-written = refl

  spread_to-Changed : Changed c (spread_to c1 r status) r j status heartbeat source
  unfolding spread_to
  spread_to-Changed = record {
    written = spread_to-deref r ∙ written_at;
    other = spread_to-deref j ∙ other_left;
    updated =
        contains-same c1 (spread_to c1 r status)
          (noted_in c1 r (NodeMap.contains c1 c1.updated_nodes r)) r spread_to-address
        ∙ noted_in-contains c1 r;
    retries =
        subst
          (λ a.
            lookup Address-discrete a (kept_retries c1 r status)
            ≡ retries_then status (lookup Address-discrete a c.dead_node_retries))
          address-written
          (kept_retries-lookup c1 r status
            ∙ ap (λ m. retries_then status (lookup Address-discrete (address_of c1 r) m))
                retries-written);
    told = unfold set_status assign in refl;
    known = unfold set_status assign in refl;
  }

  -- updateNodeStatus of a node that exists, to a status that is not the one it has: the node gets the
  -- status, the heartbeat, the source and the time, and as many announcements as emitCount says; it is
  -- among the updated nodes; its retries are forgotten unless it is dead; each listener is called once;
  -- and another node, and the known nodes, are as they were.
  pub update_node_status-Changed :
      (deref c r).status ≢ status
      → Changed c (update_node_status c r status heartbeat source) r j status heartbeat source
  update_node_status-Changed new =
      subst (λ d. Changed c d r j status heartbeat source)
        (sym (
          update_node_status-new c r status heartbeat source
            (not_equal (deref c r).status status new)
          ∙ spread-map c1 r status))
        spread_to-Changed
