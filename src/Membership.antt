-- ===== src/Membership.antt =====
-- membership.go: the state machine of the protocol. A goroutine is a task that is noted and run as
-- a step of its own; `draw` stands for the random numbers of a call.
pub mod Statuses
pub mod Alive
pub mod Transmit
pub mod Receive
pub mod Timeouts
pub mod Backoff
pub mod Multicast
pub mod Merge
use smudge.Prelude.{
  ℕ, ◌+◌, ◌-◌, ◌%◌, ◌^◌, Bool, true, false, Option, none, some, List, [], ◌∷◌, ◌++◌, ltb, leb, ◌==◌,
  if◌then◌else◌, length,
}
use smudge.Prelude.Outcome.{Outcome, ok, panic, ◌>>=◌, or_panic}
use smudge.Cluster.{
  Cluster, Ref, Tag, PendingAck, NodeStatus, status_dead, status_alive, status_forward_to, deref,
  address_of,
}
use smudge.Registry.{update_node_status, add_node}
use smudge.NodeMap
use smudge.NodeMap.{same_address}
use smudge.Message.{Message, MessageMember}

-- `node.Address() + ":" + strconv.FormatInt(int64(code), 10)`.
unfoldable pub ack_key : Cluster → Ref → ℕ → Tag
ack_key c node code = record { address = address_of c node; code = code }

-- pendingAck.elapsed, on uint32.
unfoldable pub elapsed : Cluster → PendingAck → ℕ
elapsed c a = (c.now + 2 ^ 32 - a.start_time) % 2 ^ 32

-- The `default` case of updateStatusesFromMessage, and the DEAD case behind its test.
unfoldable pub apply_status : Cluster → MessageMember → Outcome Cluster
apply_status c m = add_node (update_node_status c m.node m.status m.heartbeat m.source) m.node

-- One round of the loop of updateStatusesFromMessage.
unfoldable pub update_from_member : Cluster → MessageMember → Outcome Cluster
update_from_member c m =
    if ltb m.heartbeat (deref c m.node).heartbeat
    then ok c
    else (if m.status == status_forward_to
        then ok c
        else (if m.status == status_dead
            then (if same_address (address_of c m.node) (address_of c c.this_host)
                then ok c
                else apply_status c m)
            else apply_status c m))

unfoldable pub update_from_members : Cluster → List MessageMember → Outcome Cluster
update_from_members c [] = ok c
update_from_members c (m ∷ members) = do c' ← update_from_member c m; update_from_members c' members

-- The sender is alive, if its heartbeat is news.
unfoldable pub update_sender : Cluster → Ref → ℕ → Cluster
update_sender c sender heartbeat =
    if ltb (deref c sender).heartbeat heartbeat
    then update_node_status c sender status_alive heartbeat (some c.this_host)
    else c

unfoldable pub enroll_sender : Cluster → Ref → Outcome Cluster
enroll_sender c sender = if NodeMap.contains c c.known_nodes sender then ok c else add_node c sender

unfoldable pub update_statuses_from_message : Cluster → Message → Outcome Cluster
update_statuses_from_message c msg = do
  c1 ← update_from_members c msg.members
  sender ← or_panic msg.sender
  enroll_sender (update_sender c1 sender msg.sender_heartbeat) sender
