-- ===== src/Membership/Timeouts/Held.antt =====
-- membership.go: a round of the timeout check and a goroutine of it do not panic on their own account,
-- and keep the state well-formed.
use smudge.Prelude.{
  ◌<◌, ◌≡◌, ◌≢◌, refl, Bool, true, false, Option, none, some, List, [], ◌∷◌, length, arith,
  Bool-cases, inl, inr, ltb, ◌==◌, if◌then◌else◌,
}
use smudge.Prelude.Outcome.{Outcome, ok}
use smudge.Prelude.Maps.{remove}
use smudge.Cluster.{
  Cluster, Ref, Tag, Tag-discrete, PendingAck, PendingAckType, pack_ping, pack_ping_req, pack_nfp,
  forward_on_timeout, status_dead, status_suspected, status_forward_to, address, deref,
}
use smudge.Registry.{update_node_status}
use smudge.Registry.Duties.{AckOk, AcksOk, AcksOk-mono, CallbackOk}
use smudge.Registry.Edits.{keep-Sound}
use smudge.Registry.Invariant.{update_node_status-Held}
use smudge.Registry.WellFormed.{IsWellFormed, Sound, Sound-refl, Held, Held-then, Sound-Held}
use smudge.NodeMap
use smudge.Membership.{elapsed}
use smudge.Membership.Receive.{spawn}
use smudge.Membership.Receive.Sound.{spawn-Sound, drop_ack-Sound}
use smudge.Membership.Timeouts.{
  set_timed_out, downgrade, time_out, allowance, check_pending, check_pending_loop, timeout_check,
}

-- A call that returns, and what it leaves.
abbrev pub Succeeds : Cluster → Outcome Cluster → Type 0
Succeeds c o = (c' : Cluster) × (o ≡ ok c') × Held c c'

set_timed_out-Sound : (c : Cluster) (r : Ref) → IsWellFormed c → Sound c (set_timed_out c r)
unfolding set_timed_out address
set_timed_out-Sound c r w = keep-Sound c r _ refl refl refl w

-- The grade below is never FORWARD_TO.
lowered-named : (b : Bool) → (if b then status_dead else status_suspected) ≢ status_forward_to
lowered-named true = omega arith
lowered-named false = omega arith

downgrade-Succeeds :
    (c : Cluster) (node r : Ref)
    → node < length c.heap
    → IsWellFormed c
    → Succeeds c (downgrade c node (some r))
unfolding downgrade
downgrade-Succeeds c node r h w =
    let next =
      if (deref c node).status == status_suspected then status_dead else status_suspected in
    let lowered = update_node_status c node next c.current_heartbeat (some c.this_host) in
    let held =
      update_node_status-Held c node next c.current_heartbeat (some c.this_host) h
        (lowered-named ((deref c node).status == status_suspected)) w in
    let same = Sound-Held c c (Sound-refl c w) in
    elim (Bool-cases (NodeMap.contains c c.known_nodes node)) [
      | inr absent ↦ (c, rw absent, same)
      | inl present ↦ elim (Bool-cases ((deref c node).status == status_dead)) [
        | inl dead ↦ (c, rw (present, dead), same)
        | inr live ↦ (
          set_timed_out lowered r,
          rw (present, live),
          Held-then c lowered _ held
              (λ w1. Sound-Held lowered _ (set_timed_out-Sound lowered r w1)),
        )
      ]
    ]

time_out-Succeeds :
    (c : Cluster) (pack : PendingAck) (kind : PendingAckType) (callback : Option Ref)
    → pack.pack_type ≡ kind
    → pack.callback ≡ callback
    → AckOk (length c.heap) pack
    → CallbackOk (length c.heap) kind callback
    → IsWellFormed c
    → Succeeds c (time_out c pack kind)
unfolding time_out
time_out-Succeeds c pack pack_ping callback e f fits from w =
    let s = spawn-Sound c (forward_on_timeout pack) fits w in
    (spawn c (forward_on_timeout pack), refl, Sound-Held c _ s)
time_out-Succeeds c pack pack_ping_req none e f fits from w = absurd (other from)
  where
    other : ¬ (pack_ping_req ≡ pack_ping)
    other eq = cc
time_out-Succeeds c pack pack_ping_req (some r) e f fits from w =
    rw f (downgrade-Succeeds c r r from w)
time_out-Succeeds c pack pack_nfp none e f fits from w = absurd (other from)
  where
    other : ¬ (pack_nfp ≡ pack_ping)
    other eq = cc
time_out-Succeeds c pack pack_nfp (some r) e f fits from w =
    rw f (downgrade-Succeeds c pack.node r fits.0 w)

check_pending-Succeeds :
    (c : Cluster) (key : Tag) (pack : PendingAck)
    → AckOk (length c.heap) pack
    → IsWellFormed c
    → Succeeds c (check_pending c (key, pack))
unfolding check_pending
check_pending-Succeeds c key pack fits w =
    let millis = allowance pack.pack_type (c.timeout_millis c.pingdata.pings) in
    elim (Bool-cases (ltb millis (elapsed c pack))) [
      | inr early ↦ (c, rw early, Sound-Held c c (Sound-refl c w))
      | inl late ↦
          let (c1, e, held) =
            time_out-Succeeds c pack pack.pack_type pack.callback refl refl fits fits.1 w in
          (
            record c1 { pending_acks = remove Tag-discrete key c1.pending_acks },
            rw (late, e),
            Held-then c c1 _ held (λ w1. Sound-Held c1 _ (drop_ack-Sound c1 key w1)),
          )
    ]

check_pending_loop-Succeeds :
    (entries : List (Tag × PendingAck)) (c : Cluster)
    → AcksOk (length c.heap) entries
    → IsWellFormed c
    → Succeeds c (check_pending_loop c entries)
unfolding check_pending_loop
check_pending_loop-Succeeds [] c fit w = (c, refl, Sound-Held c c (Sound-refl c w))
check_pending_loop-Succeeds ((key, pack) ∷ entries) c fit w =
    let (c1, e1, h1) = check_pending-Succeeds c key pack fit.0 w in
    let (c2, e2, h2) =
      check_pending_loop-Succeeds entries c1
        (AcksOk-mono (length c.heap) _ entries h1.moves_none.longer fit.1) h1.well_formed in
    (c2, rw e1 e2, Held-then c c1 c2 h1 (λ _. h2))

-- In a well-formed state a round of startTimeoutCheckLoop returns: every indirect ping that timed out
-- has the callback that its case dereferences. The state that it leaves is well-formed, and no node
-- has changed its address.
pub timeout_check-returns :
    (c : Cluster) → IsWellFormed c → (c' : Cluster) × (timeout_check c ≡ ok c') × Held c c'
unfolding timeout_check
timeout_check-returns c w = check_pending_loop-Succeeds c.pending_acks c w.acks w
