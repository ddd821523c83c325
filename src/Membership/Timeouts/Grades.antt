-- ===== src/Membership/Timeouts/Grades.antt =====
-- membership.go: the statuses behind a forwarded ping that timed out.
use smudge.Prelude.{
  ℕ, ◌<◌, ◌≤◌, ◌≡◌, ◌≢◌, refl, sym, ap, ◌∙◌, subst, true, Option, some, Bool-cases, inl, inr,
  if◌then◌else◌, ◌==◌, length, arith, dec_lt, ℕ_discrete,
}
use smudge.Prelude.Outcome.{ok, ◌>>=◌, or_panic}
use smudge.NodeMap
use smudge.Cluster.{
  Cluster, Node, NodeStatus, Ref, PendingAck, PendingAckType, pack_ping, pack_ping_req, pack_nfp,
  status_dead, status_suspected, deref, assign,
}
use smudge.Cluster.Heap.{deref-assign_self, deref-assign_ne}
use smudge.Registry.{set_status, update_node_status}
use smudge.Registry.Edits.{set_beyond}
use smudge.Registry.Statuses.{update_node_status-heap}
use smudge.Membership.Timeouts.{set_timed_out, downgrade, time_out}

-- One grade down.
unfoldable pub grade : NodeStatus → NodeStatus
grade s =
    if s == status_dead
    then status_dead
    else (if s == status_suspected then status_dead else status_suspected)

deref-heap : (c c' : Cluster) (j : Ref) → c'.heap ≡ c.heap → deref c' j ≡ deref c j
unfolding deref
deref-heap c c' j h = rw h refl

assign-beyond :
    (c : Cluster) (r : Ref) (n : Node) → length c.heap ≤ r → (assign c r n).heap ≡ c.heap
unfolding assign
assign-beyond c r n h = set_beyond c.heap r n h

module _ (c : Cluster) (r : Ref) (status : NodeStatus) (heartbeat : ℕ) (source : Option Ref) where
  set_status_self :
      r < length c.heap → (deref (set_status c r status heartbeat source) r).status ≡ status
  unfolding set_status
  set_status_self inside = ap (λ (n : Node). n.status) (deref-assign_self c r _ inside)

  set_status_other :
      (j : Ref)
      → j ≢ r
      → (deref (set_status c r status heartbeat source) j).status ≡ (deref c j).status
  unfolding set_status
  set_status_other j apart =
      ap (λ (n : Node). n.status) (deref-assign_ne c r j _ (λ e. apart (sym e)))

  updated-status :
      r < length c.heap → (deref (update_node_status c r status heartbeat source) r).status ≡ status
  updated-status inside = elim (ℕ_discrete (deref c r).status status) [
    | yes same ↦ unfold update_node_status in ground (arith, same)
    | no ne ↦
        ap (λ (n : Node). n.status)
          (deref-heap (set_status c r status heartbeat source) _ r
            (update_node_status-heap c r status heartbeat source ne))
        ∙ set_status_self inside
  ]

  other_status :
      (j : Ref)
      → j ≢ r
      → (deref (update_node_status c r status heartbeat source) j).status ≡ (deref c j).status
  other_status j apart = elim (ℕ_discrete (deref c r).status status) [
    | yes same ↦ unfold update_node_status in ground (arith, same)
    | no ne ↦
        ap (λ (n : Node). n.status)
          (deref-heap (set_status c r status heartbeat source) _ j
            (update_node_status-heap c r status heartbeat source ne))
        ∙ set_status_other j apart
  ]

set_timed_out-status :
    (c : Cluster) (q j : Ref) → (deref (set_timed_out c q) j).status ≡ (deref c j).status
unfolding set_timed_out
set_timed_out-status c q j = elim (dec_lt q (length c.heap)) [
  | yes inside ↦ elim (ℕ_discrete q j) [
    | yes e ↦
        subst (λ k. (deref (set_timed_out c q) k).status ≡ (deref c k).status) e
          (ap (λ (n : Node). n.status) (deref-assign_self c q _ inside))
    | no ne ↦ ap (λ (n : Node). n.status) (deref-assign_ne c q j _ ne)
  ]
  | no beyond ↦
      ap (λ (n : Node). n.status)
        (deref-heap c (assign c q _) j (assign-beyond c q _ (omega arith)))
]

-- What a state is to another behind the timeout of a forwarded ping of `r`.
abbrev pub Downgraded : Cluster → Ref → Cluster → Type 0
Downgraded c r c' =
    ((deref c' r).status ≡ grade (deref c r).status)
    × ((j : Ref) → j ≢ r → (deref c' j).status ≡ (deref c j).status)

lowered :
    (c : Cluster) (r q : Ref) (next : NodeStatus)
    → r < length c.heap
    → next ≡ grade (deref c r).status
    → Downgraded c r
        (set_timed_out (update_node_status c r next c.current_heartbeat (some c.this_host)) q)
lowered c r q next inside e =
    let d = update_node_status c r next c.current_heartbeat (some c.this_host) in
    (
      set_timed_out-status d q r
          ∙ updated-status c r next c.current_heartbeat (some c.this_host) inside
          ∙ e,
      λ j apart.
          set_timed_out-status d q j
          ∙ other_status c r next c.current_heartbeat (some c.this_host) j apart,
    )

downgrade-Downgraded :
    (c : Cluster) (r q : Ref)
    → r < length c.heap
    → NodeMap.contains c c.known_nodes r ≡ true
    → (c' : Cluster) × (downgrade c r (some q) ≡ ok c') × Downgraded c r c'
unfolding downgrade
downgrade-Downgraded c r q inside known = elim (Bool-cases ((deref c r).status == status_dead)) [
  | inl dead ↦ (c, rw (known, dead) refl, (unfold grade in ground (arith, dead), λ j apart. refl))
  | inr live ↦
      let next = if (deref c r).status == status_suspected then status_dead else status_suspected in
      (
        set_timed_out (update_node_status c r next c.current_heartbeat (some c.this_host)) q,
        rw (known, live) refl,
        lowered c r q next inside (unfold grade in rw live refl),
      )
]

-- The node whose status is at stake: of a PINGREQ, the node that was to be pinged; of a
-- non-forwarding ping, the one that was pinged.
abbrev pub subject : PendingAckType → PendingAck → Ref → Ref
subject pack_ping pack callback = callback
subject pack_ping_req pack callback = callback
subject pack_nfp pack callback = pack.node

-- A PINGREQ or a non-forwarding ping that timed out, with a callback, moves the known node at stake
-- one grade down, SUSPECTED to DEAD and any other but DEAD to SUSPECTED, and no other node.
pub time_out-Downgraded :
    (c : Cluster) (pack : PendingAck) (kind : PendingAckType) (callback : Ref)
    → kind ≢ pack_ping
    → pack.callback ≡ some callback
    → subject kind pack callback < length c.heap
    → NodeMap.contains c c.known_nodes (subject kind pack callback) ≡ true
    → (c' : Cluster) × (time_out c pack kind ≡ ok c') × Downgraded c (subject kind pack callback) c'
unfolding time_out
time_out-Downgraded c pack pack_ping callback forwarded found inside known = absurd (forwarded refl)
time_out-Downgraded c pack pack_ping_req callback forwarded found inside known =
    let (c', e, d) = downgrade-Downgraded c callback callback inside known in
    (c', ap (λ (o : Option Ref). or_panic o >>= λ r. downgrade c r (some r)) found ∙ e, d)
time_out-Downgraded c pack pack_nfp callback forwarded found inside known =
    let (c', e, d) = downgrade-Downgraded c pack.node callback inside known in
    (c', ap (downgrade c pack.node) found ∙ e, d)
