-- ===== src/Membership/Backoff/Sound.antt =====
-- membership.go: what a round of the loop of Begin may do to the state.
use smudge.Prelude.{
  ℕ, ◌<◌, length, arith, ◌+◌, refl, Bool, true, false, none, List, [], ◌∷◌, Bool-cases, inl, inr,
  if◌then◌else◌, ◌==◌, ◌&&◌, ◌%◌, ◌^◌,
}
use smudge.Prelude.Outcome.{ok, ◌>>=◌, Ends, Ends-bind, Ends-weaken}
use smudge.Prelude.Maps.{remove}
use smudge.Net.{Address-discrete}
use smudge.Cluster.{Cluster, Ref, DeadNodeCounter, deref, address_of, status_dead, verb_ping}
use smudge.NodeMap.Range.{AllIn, AllIn-Keeps, get_random_nodes-In}
use smudge.Registry.Known.{remove_node-Sound}
use smudge.Membership.{ack_key}
use smudge.Membership.Transmit.{ping_node, transmit_verb_ping_udp}
use smudge.Registry.WellFormed.{IsWellFormed, Sound, Sound-refl, Sound-then}
use smudge.Membership.Transmit.Sound.{other-Sound, await-Sends}
use smudge.Membership.Backoff.{
  Visit, skips, pings, forgets, settle_visit, back_off, beat, visit, round_loop, heartbeat_round,
}

settle_visit-Sound :
    (c : Cluster) (node : Ref) (d : DeadNodeCounter) (v : Visit)
    → IsWellFormed c
    → Sound c (settle_visit c node d v).0
unfolding settle_visit
settle_visit-Sound c node d skips w = other-Sound c _ refl refl refl refl refl refl refl w
settle_visit-Sound c node d pings w = other-Sound c _ refl refl refl refl refl refl refl w
settle_visit-Sound c node d forgets w =
    let cleared : Cluster = record c {
      dead_node_retries = remove Address-discrete (address_of c node) c.dead_node_retries;
    } in
    Sound-then c cleared _ (other-Sound c cleared refl refl refl refl refl refl refl w)
      (λ w1. remove_node-Sound cleared node w1)

back_off-Sound : (c : Cluster) (node : Ref) → IsWellFormed c → Sound c (back_off c node).0
unfolding back_off
back_off-Sound c node w = settle_visit-Sound c node _ _ w

beat-Sound :
    (c : Cluster) (draw : ℕ → ℕ) (node : Ref)
    → node < length c.heap
    → IsWellFormed c
    → Ends (Sound c) (beat c draw node)
unfolding beat ping_node transmit_verb_ping_udp
beat-Sound c draw node inside w =
    let c1 = record c { current_heartbeat = (c.current_heartbeat + 1) % 2 ^ 32 } in
    let s1 = other-Sound c c1 refl refl refl refl refl refl refl w in
    Ends-bind (λ t. Sound c1 t.0) _ (transmit_verb_ping_udp c1 draw node c1.current_heartbeat) _
      (await-Sends c1 (ack_key c1 node c1.current_heartbeat) _ draw node none verb_ping
        c1.current_heartbeat (inside, refl) s1.well_formed)
      (λ t s. Sound-then c c1 t.0 s1 (λ _. s))

pinged-Sound :
    (c d : Cluster) (draw : ℕ → ℕ) (node : Ref)
    → node < length c.heap
    → Sound c d
    → Ends (λ (t : Cluster × Bool). Sound c t.0) (beat d draw node >>= λ c'. ok (c', true))
pinged-Sound c d draw node inside s =
    Ends-bind (Sound d) _ (beat d draw node) _
      (beat-Sound d draw node (omega (arith, s.grows.longer)) s.well_formed)
      (λ c' s'. Sound-then c d c' s (λ _. s'))

visit-Sound :
    (c : Cluster) (draw : ℕ → ℕ) (node : Ref)
    → node < length c.heap
    → IsWellFormed c
    → Ends (λ t. Sound c t.0) (visit c draw node)
unfolding visit
visit-Sound c draw node inside w = elim (Bool-cases ((deref c node).status == status_dead)) [
  | inl dead ↦ rw dead (by_visit (back_off c node).1)
  | inr live ↦ rw live (pinged-Sound c c draw node inside (Sound-refl c w))
]
  where
    by_visit :
        (v : Visit)
        → Ends
            (λ (t : Cluster × Bool). Sound c t.0)
            (elim v [
              | skips ↦ ok ((back_off c node).0, false)
              | pings ↦ beat (back_off c node).0 draw node >>= λ c'. ok (c', true)
              | forgets ↦ ok ((back_off c node).0, false)
            ])
    by_visit skips = back_off-Sound c node w
    by_visit pings = pinged-Sound c (back_off c node).0 draw node inside (back_off-Sound c node w)
    by_visit forgets = back_off-Sound c node w

round_loop-Sound :
    (nodes : List Ref) (c : Cluster) (draw : ℕ → ℕ) (ping_counter : ℕ)
    → AllIn c nodes
    → IsWellFormed c
    → Ends (λ t. Sound c t.0) (round_loop c draw ping_counter nodes)
unfolding round_loop
round_loop-Sound [] c draw ping_counter inside w = Sound-refl c w
round_loop-Sound (node ∷ nodes) c draw ping_counter inside w =
    Ends-bind (λ t. Sound c t.0) _ (visit c draw node) _ (visit-Sound c draw node inside.0 w)
      (λ t s.
        let counter = if t.1 then ping_counter + 1 else ping_counter in
        elim (Bool-cases (t.1 && t.0.known_nodes_modified)) [
          | inl modified ↦
              rw modified (
                Sound-then c t.0 _ s
                  (λ w1. other-Sound t.0 _ refl refl refl refl refl refl refl w1))
          | inr same ↦ rw same (
              Ends-weaken (λ u. Sound t.0 u.0) (λ u. Sound c u.0)
                (round_loop t.0 draw counter nodes) (λ u e. Sound-then c t.0 u.0 s (λ _. e))
                (round_loop-Sound nodes t.0 draw counter
                  (AllIn-Keeps c t.0 nodes s.grows.moves_none inside.1) s.well_formed))
        ])

-- A round of the heartbeat loop of Begin, over all nodes in whatever order, returns or panics; if it
-- returns, a state that was well-formed is still, no node has changed its address and none has lost
-- heartbeat.
pub heartbeat_round-Sound :
    (c : Cluster) (draw : ℕ → ℕ) → IsWellFormed c → Ends (λ t. Sound c t.0) (heartbeat_round c draw)
unfolding heartbeat_round
heartbeat_round-Sound c draw w =
    round_loop-Sound _ c draw 0 (get_random_nodes-In c draw 0 (c.this_host ∷ []) w) w
