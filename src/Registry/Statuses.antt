-- ===== src/Registry/Statuses.antt =====
-- registry.go: what updateNodeStatus and AddNode do to the status of a node.
use smudge.Prelude.{
  ℕ, ◌<◌, ◌≡◌, ◌≢◌, refl, sym, ap, subst, ◌∙◌, inl, inr, Option, some, length, arith, Bool-cases,
  ◌==◌, ℕ_discrete,
}
use smudge.Prelude.Outcome.{ok, panic}
use smudge.Cluster.{
  Cluster, Ref, Node, NodeStatus, status_forward_to, status_dead, status_alive, status_unknown,
  deref, assign, touch,
}
use smudge.Cluster.Heap.{deref-assign_self, deref-assign_ne, length-assign}
use smudge.NodeMap
use smudge.NodeMap.{same_address}
use smudge.Events.{do_status_update}
use smudge.Registry.{
  set_status, note_updated, forget_retries, update_node_status, update_status, add_node, enter,
}

-- Only the node's own heap entry is written.
pub update_node_status-heap :
    (c : Cluster) (r : Ref) (status : NodeStatus) (heartbeat : ℕ) (source : Option Ref)
    → (deref c r).status ≢ status
    → (update_node_status c r status heartbeat source).heap
      ≡ (set_status c r status heartbeat source).heap
unfolding update_node_status note_updated forget_retries do_status_update
update_node_status-heap c r status heartbeat source h = ground arith

abbrev pub NotDead : Cluster → Ref → Type 0
NotDead c j = (deref c j).status ≢ status_dead

NotDead-heap : (c c' : Cluster) (j : Ref) → c'.heap ≡ c.heap → NotDead c j → NotDead c' j
unfolding deref
NotDead-heap c c' j e h = rw e h

module _ (c : Cluster) (r j : Ref) (inside : r < length c.heap) where
  assign-NotDead :
      (n : Node) → (r ≡ j → n.status ≢ status_dead) → NotDead c j → NotDead (assign c r n) j
  assign-NotDead n new h = elim (ℕ_discrete r j) [
    | yes e ↦ subst (λ k. NotDead (assign c r n) k) e (rw (deref-assign_self c r n inside) (new e))
    | no ne ↦ rw (deref-assign_ne c r j n ne) h
  ]

  set_status-NotDead :
      (status : NodeStatus) (heartbeat : ℕ) (source : Option Ref)
      → (r ≡ j → status ≢ status_dead)
      → NotDead c j
      → NotDead (set_status c r status heartbeat source) j
  unfolding set_status
  set_status-NotDead status heartbeat source new h = assign-NotDead _ new h

  pub update_node_status-NotDead :
      (status : NodeStatus) (heartbeat : ℕ) (source : Option Ref)
      → (r ≡ j → status ≢ status_dead)
      → NotDead c j
      → NotDead (update_node_status c r status heartbeat source) j
  update_node_status-NotDead status heartbeat source new h =
      elim (ℕ_discrete (deref c r).status status) [
        | yes same ↦ unfold update_node_status in ground (arith, same, h)
        | no ne ↦
            NotDead-heap (set_status c r status heartbeat source) _ j
              (update_node_status-heap c r status heartbeat source ne)
              (set_status-NotDead status heartbeat source new h)
      ]

  enter-NotDead : NotDead c j → NotDead (enter c r) j
  enter-NotDead h =
      NotDead-heap (touch c r) _ j (unfold enter in refl)
        (unfold touch in assign-NotDead _ (λ e. subst (NotDead c) (sym e) h) h)

pub length-update_node_status :
    (c : Cluster) (r : Ref) (status : NodeStatus) (heartbeat : ℕ) (source : Option Ref)
    → length (update_node_status c r status heartbeat source).heap ≡ length c.heap
length-update_node_status c r status heartbeat source =
    elim (ℕ_discrete (deref c r).status status) [
      | yes same ↦ unfold update_node_status in ground (arith, same)
      | no ne ↦
          ap length (update_node_status-heap c r status heartbeat source ne)
          ∙ unfold set_status in length-assign c r _
    ]

pub alive-not-dead : status_alive ≢ status_dead
alive-not-dead = λ e. omega (arith, e)

pub ok-inj : (c d : Cluster) → ok c ≡ ok d → c ≡ d
ok-inj c d e = cc

panic-not-ok : (c : Cluster) → ¬ (panic ≡ ok c)
panic-not-ok c e = cc

pub add_node-NotDead :
    (c c' : Cluster) (r j : Ref)
    → r < length c.heap
    → add_node c r ≡ ok c'
    → NotDead c j
    → NotDead c' j
unfolding add_node update_status
add_node-NotDead c c' r j inside e h = elim (Bool-cases (NodeMap.contains c c.known_nodes r)) [
  | inl old ↦ let got = rw old at e in subst (λ d. NotDead d j) (ok-inj c c' got) h
  | inr new ↦ elim (Bool-cases ((deref c r).status == status_unknown)) [
    | inl unknown ↦
        let got = rw (new, unknown) at e in
        let d = update_node_status c r status_alive (deref c r).heartbeat (some c.this_host) in
        let size =
          length-update_node_status c r status_alive (deref c r).heartbeat (some c.this_host) in
        subst (λ s. NotDead s j) (ok-inj (enter d r) c' got)
          (enter-NotDead d r j (omega (arith, size)) (
            update_node_status-NotDead c r j inside status_alive (deref c r).heartbeat
              (some c.this_host) (λ _. alive-not-dead) h))
    | inr named ↦ elim (Bool-cases ((deref c r).status == status_forward_to)) [
      | inl forward ↦ let got = rw (new, named, forward) at e in absurd (panic-not-ok c' got)
      | inr other ↦
          let got = rw (new, named, other) at e in
          subst (λ s. NotDead s j) (ok-inj (enter c r) c' got) (enter-NotDead c r j inside h)
    ]
  ]
]
