-- ===== src/Membership/Timeouts.antt =====
-- membership.go: the loop over the pending acks, and the indirect pings.
pub mod Targets
pub mod Grades
pub mod Held
pub mod Tasks
use smudge.Prelude.{
  ℕ, ◌*◌, ◌%◌, ◌^◌, Option, some, List, [], ◌∷◌, ◌++◌, ltb, leb, ◌==◌, if◌then◌else◌, length,
}
use smudge.Prelude.Outcome.{Outcome, ok, ◌>>=◌, or_panic}
use smudge.Prelude.Maps.{remove}
use smudge.Cluster.{
  Cluster, Ref, Tag, Tag-discrete, PendingAck, PendingAckType, pack_ping, pack_ping_req, pack_nfp,
  timed_out, Task, transmit_ack, forward_on_timeout, status_dead, status_suspected, deref, assign,
  ping_request_count, as_size,
}
use smudge.NodeMap
use smudge.Registry.{update_node_status}
use smudge.Membership.{elapsed}
use smudge.Membership.Receive.{spawn}
use smudge.Membership.Transmit.{transmit_verb_forward_udp, transmit_verb_ack_udp}

unfoldable pub set_timed_out : Cluster → Ref → Cluster
set_timed_out c node = assign c node (record (deref c node) { ping_millis = timed_out })

-- One grade down, if the node is known: SUSPECTED becomes DEAD, DEAD stays, any other becomes
-- SUSPECTED. `noted` is the node whose pingMillis is set then.
unfoldable pub downgrade : Cluster → Ref → Option Ref → Outcome Cluster
downgrade c node noted =
    let status = (deref c node).status in
    let next = if status == status_suspected then status_dead else status_suspected in
    let lowered = update_node_status c node next c.current_heartbeat (some c.this_host) in
    if NodeMap.contains c c.known_nodes node
    then (if status == status_dead
        then ok c
        else (or_panic noted >>= λ r. ok (set_timed_out lowered r)))
    else ok c

-- The switch over the type of an ack that timed out.
unfoldable pub time_out : Cluster → PendingAck → PendingAckType → Outcome Cluster
time_out c pack pack_ping = ok (spawn c (forward_on_timeout pack))
time_out c pack pack_ping_req = do
  callback ← or_panic pack.callback
  downgrade c callback (some callback)
time_out c pack pack_nfp = downgrade c pack.node pack.callback

abbrev pub allowance : PendingAckType → ℕ → ℕ
allowance pack_ping_req millis = millis * 2 % 2 ^ 32
allowance pack_ping millis = millis
allowance pack_nfp millis = millis

unfoldable pub check_pending : Cluster → Tag × PendingAck → Outcome Cluster
check_pending c (k, pack) =
    let timeout_millis = allowance pack.pack_type (c.timeout_millis c.pingdata.pings) in
    let expired = (do
      c1 ← time_out c pack pack.pack_type
      ok (record c1 { pending_acks = remove Tag-discrete k c1.pending_acks })) in
    if ltb timeout_millis (elapsed c pack) then expired else ok c

unfoldable pub check_pending_loop : Cluster → List (Tag × PendingAck) → Outcome Cluster
check_pending_loop c [] = ok c
check_pending_loop c (e ∷ entries) = do c1 ← check_pending c e; check_pending_loop c1 entries

-- One round of startTimeoutCheckLoop.
unfoldable pub timeout_check : Cluster → Outcome Cluster
timeout_check c = check_pending_loop c c.pending_acks

unfoldable pub target_loop : Cluster → ℕ → List Ref → List Ref → List Ref
target_loop c count filtered [] = filtered
target_loop c count filtered (n ∷ nodes) =
    let rest =
      target_loop c count
        (if (deref c n).status == status_dead then filtered else filtered ++ (n ∷ [])) nodes in
    if leb count (length filtered) then filtered else rest

unfoldable pub get_target_nodes : Cluster → (ℕ → ℕ) → ℕ → List Ref → List Ref
get_target_nodes c draw count exclude =
    target_loop c count [] (NodeMap.get_random_nodes c c.known_nodes draw 0 exclude)

unfoldable pub forward_loop : Cluster → (ℕ → ℕ) → Ref → List Ref → Outcome Cluster
forward_loop c draw node [] = ok c
forward_loop c draw node (n ∷ nodes) = do
  (c1, _) ← transmit_verb_forward_udp c draw n node c.current_heartbeat
  forward_loop c1 draw node nodes

unfoldable pub forward_or_bury : Cluster → (ℕ → ℕ) → PendingAck → List Ref → Outcome Cluster
forward_or_bury c draw pack [] =
    ok (update_node_status c pack.node status_dead c.current_heartbeat (some c.this_host))
forward_or_bury c draw pack (n ∷ nodes) = forward_loop c draw pack.node (n ∷ nodes)

unfoldable pub do_forward_on_timeout : Cluster → (ℕ → ℕ) → PendingAck → Outcome Cluster
do_forward_on_timeout c draw pack = do
  count ← as_size (ping_request_count c)
  forward_or_bury c draw pack (get_target_nodes c draw count (c.this_host ∷ pack.node ∷ []))

-- A goroutine runs.
unfoldable pub run_task : Cluster → (ℕ → ℕ) → Task → Outcome Cluster
run_task c draw (transmit_ack node code) = do
  (c1, _) ← transmit_verb_ack_udp c draw node code
  ok c1
run_task c draw (forward_on_timeout pack) = do_forward_on_timeout c draw pack
