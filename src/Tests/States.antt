-- ===== src/Tests/States.antt =====
-- The states of the program, at those of the tests.
use smudge.Prelude.{
  ℕ_discrete, List, ◌*◌, ◌^◌, ◌+◌, ◌≢◌, not, ℕ, ◌+◌, ◌≤◌, ◌≡◌, refl, true, false, none, some, [],
  ◌∷◌, ◌++◌, length, arith, All, ap, get_or, take, map,
}
use Prim.Native.Nat.{min}
use smudge.Prelude.Outcome.{Ends, ok, panic}
use smudge.Prelude.Count.{count, keep}
use smudge.Bytes.{index}
use smudge.Net.{node_address_string, to4, shortest}
use smudge.Cluster.{neg8, address, address_of, Cluster, deref, status_dead, verb_ping_request}
use smudge.NodeMap.{get_random_nodes, values, excluded}
use smudge.NodeMap.Random.{candidate, get_random_nodes_lem}
use smudge.Registry.{update_node_status, add_node, remove_node}
use smudge.Cluster.{status_suspected}
use smudge.Registry.Changed.{Changed, update_node_status-Changed}
use smudge.Membership.Transmit.Sent.{Sent}
use smudge.Registry.WellFormed.{Sound}
use smudge.Registry.Known.{Added, add_node-returns, remove_node-removes}
use smudge.Broadcast.{receive_broadcast, accept, check_origin}
use smudge.Broadcast.Accept.{receive_broadcast-twice}
use smudge.Message.{Message}
use smudge.PingData.Ring.{add_all, add_all-lap}
use smudge.Membership.{update_statuses_from_message}
use smudge.Membership.Statuses.{update_statuses_from_message-returns}
use smudge.Membership.Alive.{update_statuses_from_message-NotDead}
use smudge.Registry.Statuses.{NotDead}
use smudge.Membership.Backoff.Schedule.{visits, visit_count, waiting, waits, visits-waits}
use smudge.Membership.Receive.{handle_message}
use smudge.Membership.Receive.Unguarded.{handle_message-unguarded}
use smudge.Membership.Timeouts.{get_target_nodes}
use smudge.Membership.Timeouts.Targets.{get_target_nodes_lem}
use smudge.Membership.Transmit.{add_members_loop}
use smudge.Membership.Transmit.Limit.{due, told, add_members_loop-limit}
use smudge.Broadcast.{get_broadcast_to_emit, label}
use smudge.Broadcast.Emit.{Labelled, IsFresh, IsHighest, is_old, get_broadcast_to_emit_lem}
use smudge.Registry.{get_random_updated_nodes, by_node_emit_counter}
use smudge.Registry.Updated.{IsNews, get_random_updated_nodes_lem}
use smudge.Prelude.Sort.{IsSorted}
use smudge.Checksum.{checksum, adler_loop}
use smudge.Membership.Receive.{receive_message_udp}
use smudge.Membership.Receive.Sound.{receive_message_udp-Sends}
use smudge.Membership.Transmit.Sound.{Sends}
use smudge.Cluster.{PendingAck, pack_ping, pack_ping_req}
use smudge.NodeMap.{contains, contains_by_address}
use smudge.Prelude.Maps.{has_key, lookup}
use smudge.Net.{Address, Address-discrete}
use smudge.Membership.Timeouts.{time_out}
use smudge.Membership.Timeouts.Grades.{Downgraded, time_out-Downgraded}
use smudge.Broadcast.{broadcast_bytes}
use smudge.Broadcast.Labels.{AllLabelled, broadcasts-Labelled}
use smudge.Tests.{an_address, a_cluster, a_message, a_broadcast, a_cluster-IsWellFormed}

draw : ℕ → ℕ
draw i = i + 3

get_random_nodes_lem_example :
    All
      (λ n. excluded a_cluster (0 ∷ []) n ≡ false)
      (get_random_nodes a_cluster a_cluster.known_nodes draw 1 (0 ∷ []))
    × ((a : ℕ)
        → count a (get_random_nodes a_cluster a_cluster.known_nodes draw 1 (0 ∷ []))
          ≤ count a (values a_cluster.known_nodes))
    × (length (get_random_nodes a_cluster a_cluster.known_nodes draw 1 (0 ∷ []))
        ≡ min 1 (
            length (
              keep
                (candidate a_cluster a_cluster.known_nodes (0 ∷ []))
                (values a_cluster.known_nodes))))
get_random_nodes_lem_example = get_random_nodes_lem a_cluster a_cluster.known_nodes (0 ∷ []) draw 1

update_node_status-Changed_example :
    Changed a_cluster
      (update_node_status a_cluster 1 status_suspected 6 (some 0))
      1
      0
      status_suspected
      6
      (some 0)
unfolding deref
update_node_status-Changed_example =
    update_node_status-Changed a_cluster 1 0 status_suspected 6 (some 0) (omega arith) (omega arith)
      (omega arith)

add_node-returns_example : (c' : Cluster) × (add_node a_cluster 2 ≡ ok c') × Added a_cluster c' 2
add_node-returns_example = add_node-returns a_cluster 2 (omega arith) a_cluster-IsWellFormed

not_the_host : address_of a_cluster 1 ≢ an_address 1
unfolding deref address_of address node_address_string shortest to4
not_the_host e = omega (arith, ap (λ (a : Address). get_or a.host 3 0) e)

remove_node-removes_example :
    (contains (remove_node a_cluster 1) (remove_node a_cluster 1).known_nodes 1 ≡ false)
    × (lookup Address-discrete (an_address 1) (remove_node a_cluster 1).known_nodes
        ≡ lookup Address-discrete (an_address 1) a_cluster.known_nodes)
    × Sound a_cluster (remove_node a_cluster 1)
remove_node-removes_example =
    remove_node-removes a_cluster 1 (an_address 1) not_the_host a_cluster-IsWellFormed

update_statuses_from_message-returns_example :
    (c' : Cluster) × (update_statuses_from_message a_cluster a_message ≡ ok c')
    × Added a_cluster c' 2
update_statuses_from_message-returns_example =
    update_statuses_from_message-returns a_cluster a_message 2 refl (omega arith) (omega arith, tt)
      a_cluster-IsWellFormed

visits-waits_example : (visits (visit_count 10 1) (waiting 1)).1 ≡ waits 10 1
visits-waits_example = visits-waits 10 1

-- From the first visit of a dead node to its removal: 9 pings in 2046 visits.
whole : visit_count 10 1 ≡ 2046
unfolding visit_count
whole = refl

add_all-lap_example :
    add_all (record { pings = 150 ∷ 150 ∷ []; pointer = 0; updated = false }) (151 ∷ 152 ∷ [])
    ≡ ok (record { pings = 151 ∷ 152 ∷ []; pointer = 0; updated = true })
add_all-lap_example = add_all-lap (150 ∷ 150 ∷ []) (151 ∷ 152 ∷ []) false (omega arith) refl

abbrev request : Message
request = record a_message { verb = verb_ping_request; members = []; broadcast = none }

handle_message-unguarded_example : handle_message a_cluster draw request ≡ panic
handle_message-unguarded_example =
    handle_message-unguarded a_cluster draw request 2 refl refl refl refl (omega arith)
      a_cluster-IsWellFormed

host-NotDead : NotDead a_cluster 0
unfolding deref
host-NotDead = omega arith

-- Word that this host is dead.
abbrev obituary : Message
obituary = record a_message {
  members = record { source = some 1; heartbeat = 9; node = 0; status = status_dead } ∷ [];
}

obituary-returns :
    (c' : Cluster) × (update_statuses_from_message a_cluster obituary ≡ ok c')
    × Added a_cluster c' 2
obituary-returns =
    update_statuses_from_message-returns a_cluster obituary 2 refl (omega arith) (omega arith, tt)
      a_cluster-IsWellFormed

update_statuses_from_message-NotDead_example : NotDead obituary-returns.0 0
update_statuses_from_message-NotDead_example =
    update_statuses_from_message-NotDead a_cluster obituary-returns.0 obituary 2 refl (omega arith)
      (omega arith, tt) a_cluster-IsWellFormed obituary-returns.1 host-NotDead

accepted : receive_broadcast a_cluster (some a_broadcast) ≡ ok (accept a_cluster a_broadcast)
unfolding receive_broadcast check_origin deref shortest to4 index
accepted = refl

receive_broadcast-twice_example :
    receive_broadcast (accept a_cluster a_broadcast) (some a_broadcast)
    ≡ ok (accept a_cluster a_broadcast)
receive_broadcast-twice_example =
    receive_broadcast-twice a_cluster (accept a_cluster a_broadcast) (some a_broadcast) accepted

get_target_nodes_lem_example :
    (length (get_target_nodes a_cluster draw 2 (0 ∷ [])) ≤ 2)
    × All
        (λ n. (excluded a_cluster (0 ∷ []) n ≡ false) × ((deref a_cluster n).status ≢ status_dead))
        (get_target_nodes a_cluster draw 2 (0 ∷ []))
get_target_nodes_lem_example = get_target_nodes_lem a_cluster draw 2 (0 ∷ [])

add_members_loop-limit_example :
    ((add_members_loop a_cluster a_message (1 ∷ 2 ∷ [])).1.members
      ≡ a_message.members ++ take 62 (map (told a_cluster) (1 ∷ 2 ∷ [])))
    × ((add_members_loop a_cluster a_message (1 ∷ 2 ∷ [])).2 ≡ due (1 + 2))
add_members_loop-limit_example =
    add_members_loop-limit (1 ∷ 2 ∷ []) a_cluster a_message (omega arith)

-- A broadcast that was emitted often enough, and one that was not.
abbrev emitting : Cluster
emitting = record a_cluster {
  broadcasts =
      (record { address = an_address 1; code = 1 }, a_broadcast)
      ∷ (
        record { address = an_address 1; code = 2 },
        record a_broadcast { index = 2; emit_counter = neg8 100 },
      )
      ∷ [];
}

emitting-Labelled : Labelled emitting emitting.broadcasts
unfolding label address_of address deref node_address_string shortest to4
emitting-Labelled = (refl, (refl, tt))

get_broadcast_to_emit_lem_example :
    All IsFresh (get_broadcast_to_emit emitting).0.broadcasts
    × IsHighest (get_broadcast_to_emit emitting).1 (keep (λ e. not (is_old e)) emitting.broadcasts)
get_broadcast_to_emit_lem_example = get_broadcast_to_emit_lem emitting emitting-Labelled

get_random_updated_nodes_lem_example :
    (length (get_random_updated_nodes a_cluster 3 (0 ∷ [])).1 ≤ 3)
    × All (IsNews a_cluster (0 ∷ [])) (get_random_updated_nodes a_cluster 3 (0 ∷ [])).1
    × IsSorted (by_node_emit_counter a_cluster) (get_random_updated_nodes a_cluster 3 (0 ∷ [])).1
get_random_updated_nodes_lem_example = get_random_updated_nodes_lem a_cluster 3 (0 ∷ [])

-- A datagram of 11 bytes whose checksum is right: a ping from port 9999 with heartbeat 1.
abbrev datagram : List ℕ
datagram = 56 ∷ 0 ∷ 40 ∷ 1 ∷ 0 ∷ 15 ∷ 39 ∷ 1 ∷ 0 ∷ 0 ∷ 0 ∷ []

receive_message_udp-Sends_example : Sends a_cluster (
    receive_message_udp a_cluster draw
      (10 ∷ 0 ∷ 0 ∷ 3 ∷ [])
      (record { elems = datagram; spare = [] }))
receive_message_udp-Sends_example =
    receive_message_udp-Sends a_cluster draw (10 ∷ 0 ∷ 0 ∷ 3 ∷ [])
      (record { elems = datagram; spare = [] }) a_cluster-IsWellFormed

sealed : checksum (0 ∷ 15 ∷ 39 ∷ 1 ∷ 0 ∷ 0 ∷ 0 ∷ []) ≡ 56 + 40 * 2 ^ 16 + 2 ^ 24
unfolding checksum adler_loop
sealed = refl

abbrev waited : PendingAck
waited = record {
  start_time = 1;
  node = 0;
  callback = some 1;
  callback_code = 0;
  pack_type = pack_ping_req;
}

waited-known : contains a_cluster a_cluster.known_nodes 1 ≡ true
unfolding contains contains_by_address has_key lookup deref address_of address node_address_string
    shortest to4 Address-discrete ℕ_discrete
waited-known = refl

request-not-ping : pack_ping_req ≢ pack_ping
request-not-ping e = cc

time_out-Downgraded_example :
    (c' : Cluster) × (time_out a_cluster waited pack_ping_req ≡ ok c') × Downgraded a_cluster 1 c'
time_out-Downgraded_example =
    time_out-Downgraded a_cluster waited pack_ping_req 1 request-not-ping refl (omega arith)
      waited-known

broadcasts-Labelled_example :
    AllLabelled (broadcast_bytes emitting (4 ∷ 5 ∷ [])).0
    × Ends AllLabelled (receive_broadcast emitting (some a_broadcast))
broadcasts-Labelled_example =
    broadcasts-Labelled emitting (4 ∷ 5 ∷ []) (some a_broadcast) emitting-Labelled
