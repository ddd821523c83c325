-- ===== src/Registry.antt =====
-- registry.go: the known nodes, the recently updated nodes and the retries of dead nodes.
pub mod Invariant
pub mod Known
pub mod Updated
pub mod Edits
pub mod Changed
pub mod WellFormed
pub mod Duties
pub mod View
pub mod Addresses
pub mod Statuses
use smudge.Prelude.{
  ℕ, zero, suc, ◌+◌, ◌-◌, ◌%◌, Bool, true, false, Option, none, some, List, [], ◌∷◌, take, length,
  ltb, leb, ◌==◌, if◌then◌else◌,
}
use smudge.Prelude.Outcome.{Outcome, ok, panic, ◌>>=◌}
use smudge.Prelude.Maps.{remove, insert}
use smudge.Prelude.Sort.{sort}
use smudge.Prelude.Count.{keep}
use smudge.Net.{Ip, Address-discrete}
use smudge.Events.{do_status_update}
use smudge.NodeMap
use smudge.NodeMap.{NodeMap}
use smudge.Cluster.{
  Cluster, Node, NodeStatus, Ref, status_unknown, status_alive, status_dead, status_forward_to,
  no_data, deref, assign, alloc, address_of, touch, emit_count, int8, rank8,
}

-- The lines of updateNodeStatus that write the node.
unfoldable pub set_status : Cluster → Ref → NodeStatus → ℕ → Option Ref → Cluster
set_status c node status heartbeat source = assign c node (record (deref c node) {
  timestamp = c.now;
  status = status;
  status_source = source;
  emit_counter = int8 (emit_count c);
  heartbeat = heartbeat;
})

unfoldable pub note_updated : Cluster → Ref → Cluster
note_updated c node =
    if NodeMap.contains c c.updated_nodes node
    then c
    else record c { updated_nodes = NodeMap.add c c.updated_nodes node }

unfoldable pub forget_retries : Cluster → Ref → NodeStatus → Cluster
forget_retries c node status = if status == status_dead then c else record c {
  dead_node_retries = remove Address-discrete (address_of c node) c.dead_node_retries;
}

unfoldable pub update_node_status : Cluster → Ref → NodeStatus → ℕ → Option Ref → Cluster
update_node_status c node status heartbeat source =
    if (deref c node).status == status
    then c
    else (let c1 = set_status c node status heartbeat source in
        let c2 = note_updated c1 node in
        let c3 = forget_retries c2 node status in do_status_update c3 node status)

-- UpdateNodeStatus, the exported one.
unfoldable pub update_status : Cluster → Ref → NodeStatus → Option Ref → Cluster
update_status c node status source =
    update_node_status c node status (deref c node).heartbeat source

-- The lines of AddNode behind the checks.
unfoldable pub enter : Cluster → Ref → Cluster
enter c node =
    let c1 = touch c node in
    record c1 { known_nodes = NodeMap.add c1 c1.known_nodes node; known_nodes_modified = true }

unfoldable pub add_node : Cluster → Ref → Outcome Cluster
add_node c node =
    if NodeMap.contains c c.known_nodes node
    then ok c
    else (if (deref c node).status == status_unknown
        then ok (enter (update_status c node status_alive (some c.this_host)) node)
        else (if (deref c node).status == status_forward_to then panic else ok (enter c node)))

unfoldable pub create_node_by_ip : Cluster → Ip → ℕ → Cluster × Ref
create_node_by_ip c ip port = alloc c (record {
  ip = ip;
  port = port;
  timestamp = c.now;
  ping_millis = no_data;
  status = status_unknown;
  emit_counter = 0;
  heartbeat = 0;
  status_source = none;
})

unfoldable pub remove_node : Cluster → Ref → Cluster
remove_node c node =
    if NodeMap.contains c c.known_nodes node
    then (let c1 = touch c node in
        record c1 {
          known_nodes = NodeMap.delete c1 c1.known_nodes node;
          known_nodes_modified = true;
        })
    else c

unfoldable pub all_nodes : Cluster → List Ref
all_nodes c = NodeMap.values c.known_nodes

unfoldable pub healthy_nodes : Cluster → List Ref
healthy_nodes c = keep (λ v. (deref c v).status == status_alive) (NodeMap.values c.known_nodes)

-- `int8` 0 and below.
abbrev pub is_spent : Cluster → Ref → Bool
is_spent c n = leb (rank8 (deref c n).emit_counter) 128

-- The pruning loop of getRandomUpdatedNodes over `updatedNodes.values()`: what is left of the map,
-- and the copy.
unfoldable pub prune_loop : Cluster → NodeMap → NodeMap → List Ref → NodeMap × NodeMap
prune_loop c updated copy [] = (updated, copy)
prune_loop c updated copy (n ∷ nodes) =
    prune_loop c (if is_spent c n then NodeMap.delete c updated n else updated)
      (if is_spent c n then copy else NodeMap.add c copy n) nodes

unfoldable pub delete_all : Cluster → NodeMap → List Ref → NodeMap
delete_all c m [] = m
delete_all c m (n ∷ nodes) = delete_all c (NodeMap.delete c m n) nodes

-- Less of byNodeEmitCounter.
abbrev pub by_node_emit_counter : Cluster → Ref → ℕ
by_node_emit_counter c n = rank8 (deref c n).emit_counter

unfoldable pub get_random_updated_nodes : Cluster → ℕ → List Ref → Cluster × List Ref
get_random_updated_nodes c size exclude =
    let (updated, copy) =
      prune_loop c c.updated_nodes NodeMap.init (NodeMap.values c.updated_nodes) in
    let slice = sort (by_node_emit_counter c) (NodeMap.values (delete_all c copy exclude)) in
    (
      record c { updated_nodes = updated },
      take (if ltb (length slice) size then length slice else size) slice,
    )
