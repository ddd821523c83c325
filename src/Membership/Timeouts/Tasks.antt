-- ===== src/Membership/Timeouts/Tasks.antt =====
-- membership.go: a goroutine that answers, or that pings through other nodes, keeps the state
-- well-formed.
use smudge.Prelude.{ℕ, ◌<◌, ◌≢◌, some, List, [], ◌∷◌, length, arith, All}
use smudge.Prelude.Outcome.{Ends, Ends-bind, Ends-weaken, Any}
use smudge.Cluster.{
  Cluster, Ref, PendingAck, Task, transmit_ack, forward_on_timeout, status_dead, deref,
  verb_ping_request, ping_request_count, as_size,
}
use smudge.Cluster.Heap.{as_size-Ends}
use smudge.Registry.Duties.{TaskOk}
use smudge.Registry.Invariant.{update_node_status-Held}
use smudge.Registry.WellFormed.{IsWellFormed, Sound, Sound-refl, Sound-then, Held, Sound-Held}
use smudge.NodeMap.{get_random_nodes}
use smudge.NodeMap.Range.{AllIn, AllIn-Keeps, get_random_nodes-In}
use smudge.Membership.{ack_key}
use smudge.Membership.Transmit.{transmit_verb_forward_udp, transmit_verb_ack_udp}
use smudge.Membership.Transmit.Sound.{Sends, await-Sends, transmit_verb_ack_udp-Sends}
use smudge.Membership.Timeouts.{
  get_target_nodes, forward_loop, forward_or_bury, do_forward_on_timeout, run_task,
}
use smudge.Membership.Timeouts.Targets.{target_loop-All}

each-In :
    (c : Cluster) (nodes : List Ref)
    → AllIn c nodes
    → All (λ n. (deref c n).status ≢ status_dead → n < length c.heap) nodes
each-In c [] h = tt
each-In c (n ∷ nodes) h = ((λ _. h.0), each-In c nodes h.1)

get_target_nodes-In :
    (c : Cluster) (draw : ℕ → ℕ) (count : ℕ) (exclude : List Ref)
    → IsWellFormed c
    → AllIn c (get_target_nodes c draw count exclude)
unfolding get_target_nodes
get_target_nodes-In c draw count exclude w =
    let nodes = get_random_nodes c c.known_nodes draw 0 exclude in
    target_loop-All c count (λ n. n < length c.heap) [] nodes tt
      (each-In c nodes (get_random_nodes-In c draw 0 exclude w))

transmit_verb_forward_udp-Sends :
    (c : Cluster) (draw : ℕ → ℕ) (node downstream : Ref) (code : ℕ)
    → node < length c.heap
    → downstream < length c.heap
    → IsWellFormed c
    → Sends c (transmit_verb_forward_udp c draw node downstream code)
unfolding transmit_verb_forward_udp
transmit_verb_forward_udp-Sends c draw node downstream code h d w =
    await-Sends c (ack_key c node code) _ draw node (some downstream) verb_ping_request code (h, d)
      w

forward_loop-Sound :
    (nodes : List Ref) (c : Cluster) (draw : ℕ → ℕ) (node : Ref)
    → AllIn c nodes
    → node < length c.heap
    → IsWellFormed c
    → Ends (Sound c) (forward_loop c draw node nodes)
unfolding forward_loop
forward_loop-Sound [] c draw node inside h w = Sound-refl c w
forward_loop-Sound (n ∷ nodes) c draw node inside h w =
    Ends-bind (λ t. Sound c t.0) (Sound c)
      (transmit_verb_forward_udp c draw n node c.current_heartbeat) _
      (transmit_verb_forward_udp-Sends c draw n node c.current_heartbeat inside.0 h w)
      (λ t s.
        Ends-weaken (Sound t.0) (Sound c) (forward_loop t.0 draw node nodes)
          (λ c2 s2. Sound-then c t.0 c2 s (λ _. s2))
          (forward_loop-Sound nodes t.0 draw node
            (AllIn-Keeps c t.0 nodes s.grows.moves_none inside.1) (omega (arith, s.grows.longer))
            s.well_formed))

forward_or_bury-Held :
    (c : Cluster) (draw : ℕ → ℕ) (pack : PendingAck) (nodes : List Ref)
    → AllIn c nodes
    → pack.node < length c.heap
    → IsWellFormed c
    → Ends (Held c) (forward_or_bury c draw pack nodes)
unfolding forward_or_bury
forward_or_bury-Held c draw pack [] inside h w =
    update_node_status-Held c pack.node status_dead c.current_heartbeat (some c.this_host) h
      (omega arith) w
forward_or_bury-Held c draw pack (n ∷ nodes) inside h w =
    Ends-weaken (Sound c) (Held c) (forward_loop c draw pack.node (n ∷ nodes))
      (λ c' s. Sound-Held c c' s) (forward_loop-Sound (n ∷ nodes) c draw pack.node inside h w)

-- A goroutine whose nodes exist returns or panics, and is never stuck; if it returns, a state that
-- was well-formed is still, and no node has changed its address.
pub run_task-Held :
    (c : Cluster) (draw : ℕ → ℕ) (task : Task)
    → TaskOk (length c.heap) task
    → IsWellFormed c
    → Ends (Held c) (run_task c draw task)
unfolding run_task do_forward_on_timeout
run_task-Held c draw (transmit_ack r code) fits w =
    Ends-bind (λ t. Sound c t.0) (Held c) (transmit_verb_ack_udp c draw r code) _
      (transmit_verb_ack_udp-Sends c draw r code w) (λ t s. Sound-Held c t.0 s)
run_task-Held c draw (forward_on_timeout pack) fits w =
    Ends-bind Any _ (as_size (ping_request_count c)) _ (as_size-Ends (ping_request_count c))
      (λ count _.
        forward_or_bury-Held c draw pack _
          (get_target_nodes-In c draw count (c.this_host ∷ pack.node ∷ []) w) fits.0 w)
