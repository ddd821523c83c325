-- ===== src/Membership/Backoff.antt =====
-- membership.go: the loop of Begin over the nodes, with its exponential backoff of dead ones.
pub mod Schedule
pub mod Sound
pub mod Removal
pub mod Patience
pub mod Visits
use smudge.Prelude.{
  ℕ, zero, suc, ◌+◌, ◌-◌, ◌*◌, ◌%◌, ◌^◌, ◌≤◌, ◌<◌, ◌≡◌, refl, Bool, true, false, Option, none, some,
  List, [], ◌∷◌, ◌++◌, replicate, ltb, leb, ◌==◌, if◌then◌else◌, length, arith, ◌&&◌,
}
use smudge.Prelude.Outcome.{Outcome, ok, panic, ◌>>=◌}
use smudge.Prelude.Maps.{lookup, insert, remove}
use smudge.Net.{Address, Address-discrete}
use smudge.Cluster.{Cluster, Ref, DeadNodeCounter, status_dead, deref, address_of}
use smudge.NodeMap
use smudge.Registry.{remove_node}
use smudge.Membership.Transmit.{Error, ping_node}

abbrev pub max_dead_node_retries : ℕ
max_dead_node_retries = 10

-- What a visit of a dead node comes to: passing over it, pinging it, or removing it.
pub data Visit : Type 0 where
  skips pings forgets : Visit

-- `dnc.retryCountdown--` and what follows.
unfoldable pub visit_dead : DeadNodeCounter → DeadNodeCounter × Visit
visit_dead d =
    let countdown = d.retry_countdown - 1 in
    if countdown == 0
    then (
      record { retry = d.retry + 1; retry_countdown = 2 ^ (d.retry + 1) },
      if ltb max_dead_node_retries (d.retry + 1) then forgets else pings,
    )
    else (record d { retry_countdown = countdown }, skips)

-- `&deadNodeCounter{retry: 1, retryCountdown: 2}`, where the map has none.
abbrev pub fresh_counter : DeadNodeCounter
fresh_counter = record { retry = 1; retry_countdown = 2 }

abbrev pub counter_or_fresh : Option DeadNodeCounter → DeadNodeCounter
counter_or_fresh none = fresh_counter
counter_or_fresh (some d) = d

-- What is done with the counter of the visit; a node that is forgotten is removed.
unfoldable pub settle_visit : Cluster → Ref → DeadNodeCounter → Visit → Cluster × Visit
settle_visit c node d forgets = (
  remove_node
      (record c {
        dead_node_retries = remove Address-discrete (address_of c node) c.dead_node_retries;
      })
      node,
  forgets,
)
settle_visit c node d skips = (
  record c {
    dead_node_retries = insert Address-discrete (address_of c node) d c.dead_node_retries;
  },
  skips,
)
settle_visit c node d pings = (
  record c {
    dead_node_retries = insert Address-discrete (address_of c node) d c.dead_node_retries;
  },
  pings,
)

-- The backoff of a dead node, up to the ping.
unfoldable pub back_off : Cluster → Ref → Cluster × Visit
back_off c node =
    let counter =
      counter_or_fresh (lookup Address-discrete (address_of c node) c.dead_node_retries) in
    settle_visit c node (visit_dead counter).0 (visit_dead counter).1

-- `currentHeartbeat++` and PingNode, whose error is only logged.
unfoldable pub beat : Cluster → (ℕ → ℕ) → Ref → Outcome Cluster
beat c draw node = do
  (c', _) ←
      ping_node (record c { current_heartbeat = (c.current_heartbeat + 1) % 2 ^ 32 }) draw node
  ok c'

-- One round of the inner loop; the flag says whether the node was pinged.
unfoldable pub visit : Cluster → (ℕ → ℕ) → Ref → Outcome (Cluster × Bool)
visit c draw node =
    let pinged = λ (c' : Cluster). (beat c' draw node >>= λ c''. ok (c'', true)) in
    let backed = back_off c node in
    if (deref c node).status == status_dead
    then elim backed.1 [
      | skips ↦ ok (backed.0, false)
      | pings ↦ pinged backed.0
      | forgets ↦ ok (backed.0, false)
    ]
    else pinged c

-- The inner loop, which a change of the known nodes ends behind a ping; it returns the number of
-- pings.
unfoldable pub round_loop : Cluster → (ℕ → ℕ) → ℕ → List Ref → Outcome (Cluster × ℕ)
round_loop c draw ping_counter [] = ok (c, ping_counter)
round_loop c draw ping_counter (node ∷ nodes) = do
  (c', pinged) ← visit c draw node
  let more = round_loop c' draw (if pinged then ping_counter + 1 else ping_counter) nodes
  if pinged && c'.known_nodes_modified
      then ok (record c' { known_nodes_modified = false }, ping_counter + 1)
      else more

-- One round of the outer loop.
unfoldable pub heartbeat_round : Cluster → (ℕ → ℕ) → Outcome (Cluster × ℕ)
heartbeat_round c draw =
    round_loop c draw 0 (NodeMap.get_random_nodes c c.known_nodes draw 0 (c.this_host ∷ []))
