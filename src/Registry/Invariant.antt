-- ===== src/Registry/Invariant.antt =====
-- registry.go: the steps of updateNodeStatus, and the whole of it, against the invariant.
use smudge.Prelude.{
  ℕ, ◌≤◌, ◌<◌, ◌≡◌, ◌≢◌, refl, true, false, inl, inr, Option, length, arith, Bool-cases, ◌==◌,
}
use smudge.Prelude.Maps.{insert-Distinct}
use smudge.Net.{Address-discrete}
use smudge.Events.{do_status_update}
use smudge.NodeMap
use smudge.NodeMap.{NodeMap}
use smudge.Cluster.{
  Cluster, NodeStatus, Ref, status_dead, status_forward_to, deref, address, address_of, touch,
}
use smudge.Registry.{set_status, note_updated, forget_retries, update_node_status}
use smudge.Registry.WellFormed.{
  IsWellFormed, Sound, Sound-then, Sound-refl, Keyed-insert, maps-Sound, assign-Sound, Held,
  Held-then, Sound-Held, assign-Held,
}

module _ (c : Cluster) (r : Ref) (h : r < length c.heap) (w : IsWellFormed c) where
  set_status-Sound :
      (status : NodeStatus) (heartbeat : ℕ) (source : Option Ref)
      → status ≢ status_forward_to
      → (deref c r).heartbeat ≤ heartbeat
      → Sound c (set_status c r status heartbeat source)
  unfolding set_status address
  set_status-Sound status heartbeat source st more = assign-Sound c r _ h refl more st w

  set_status-Held :
      (status : NodeStatus) (heartbeat : ℕ) (source : Option Ref)
      → status ≢ status_forward_to
      → Held c (set_status c r status heartbeat source)
  unfolding set_status address
  set_status-Held status heartbeat source st = assign-Held c r _ h refl st w

  pub touch-Sound : Sound c (touch c r)
  unfolding touch address
  touch-Sound = assign-Sound c r _ h refl (omega arith) (w.statuses r h) w

  note_updated-Sound : Sound c (note_updated c r)
  unfolding note_updated NodeMap.add
  note_updated-Sound = elim (Bool-cases (NodeMap.contains c c.updated_nodes r)) [
    | inl old ↦ rw old (Sound-refl c w)
    | inr new ↦ rw new (
        maps-Sound c _ refl refl refl w.known (Keyed-insert c r c.updated_nodes h w.updated)
          w.known_distinct
          (insert-Distinct Address-discrete (address_of c r) r c.updated_nodes w.updated_distinct)
          w.acks w.duties w)
  ]

  forget_retries-Sound : (status : NodeStatus) → Sound c (forget_retries c r status)
  unfolding forget_retries
  forget_retries-Sound status = elim (Bool-cases (status == status_dead)) [
    | inl dead ↦ rw dead (Sound-refl c w)
    | inr live ↦ rw live (
        maps-Sound c _ refl refl refl w.known w.updated w.known_distinct w.updated_distinct w.acks
          w.duties w)
  ]

  do_status_update-Sound : (status : NodeStatus) → Sound c (do_status_update c r status)
  unfolding do_status_update
  do_status_update-Sound status =
      maps-Sound c _ refl refl refl w.known w.updated w.known_distinct w.updated_distinct w.acks
        w.duties w

-- What updateNodeStatus does once the node is written.
unfoldable pub spread : Cluster → Ref → NodeStatus → Cluster
spread c r status = do_status_update (forget_retries (note_updated c r) r status) r status

spread-Sound :
    (c : Cluster) (r : Ref) (status : NodeStatus)
    → r < length c.heap
    → IsWellFormed c
    → Sound c (spread c r status)
unfolding spread
spread-Sound c r status h w =
    let c2 = note_updated c r in
    let s2 = note_updated-Sound c r h w in
    let h2 : r < length c2.heap = omega (arith, s2.grows.longer) in
    let c3 = forget_retries c2 r status in
    let s3 = Sound-then c c2 c3 s2 (λ w2. forget_retries-Sound c2 r h2 w2 status) in
    Sound-then c c3 _ s3
      (λ w3. do_status_update-Sound c3 r (omega (arith, s3.grows.longer)) w3 status)

pub update_node_status-new :
    (c : Cluster) (r : Ref) (status : NodeStatus) (heartbeat : ℕ) (source : Option Ref)
    → (deref c r).status == status ≡ false
    → update_node_status c r status heartbeat source
      ≡ spread (set_status c r status heartbeat source) r status
unfolding update_node_status spread
update_node_status-new c r status heartbeat source new = rw new refl

pub update_node_status-same :
    (c : Cluster) (r : Ref) (status : NodeStatus) (heartbeat : ℕ) (source : Option Ref)
    → (deref c r).status == status ≡ true
    → update_node_status c r status heartbeat source ≡ c
unfolding update_node_status
update_node_status-same c r status heartbeat source same = rw same refl

-- Updating a node that exists to a status other than FORWARD_TO, with a heartbeat that is not lower
-- than its own, keeps a well-formed state well-formed, moves no node to another address and takes
-- no heartbeat back.
pub update_node_status-Sound :
    (c : Cluster) (r : Ref) (status : NodeStatus) (heartbeat : ℕ) (source : Option Ref)
    → r < length c.heap
    → status ≢ status_forward_to
    → (deref c r).heartbeat ≤ heartbeat
    → IsWellFormed c
    → Sound c (update_node_status c r status heartbeat source)
update_node_status-Sound c r status heartbeat source h st more w =
    elim (Bool-cases ((deref c r).status == status)) [
      | inl same ↦ rw (update_node_status-same c r status heartbeat source same) (Sound-refl c w)
      | inr new ↦
          let c1 = set_status c r status heartbeat source in
          let s1 = set_status-Sound c r h w status heartbeat source st more in
          rw (update_node_status-new c r status heartbeat source new) (
            Sound-then c c1 _ s1
              (λ w1. spread-Sound c1 r status (omega (arith, s1.grows.longer)) w1))
    ]

-- With whatever heartbeat, the state stays well-formed.
pub update_node_status-Held :
    (c : Cluster) (r : Ref) (status : NodeStatus) (heartbeat : ℕ) (source : Option Ref)
    → r < length c.heap
    → status ≢ status_forward_to
    → IsWellFormed c
    → Held c (update_node_status c r status heartbeat source)
update_node_status-Held c r status heartbeat source h st w =
    elim (Bool-cases ((deref c r).status == status)) [
      | inl same ↦
          rw (update_node_status-same c r status heartbeat source same)
            (Sound-Held c c (Sound-refl c w))
      | inr new ↦
          let c1 = set_status c r status heartbeat source in
          let s1 = set_status-Held c r h w status heartbeat source st in
          rw (update_node_status-new c r status heartbeat source new) (
            Held-then c c1 _ s1 (λ w1.
              Sound-Held c1 _ (spread-Sound c1 r status (omega (arith, s1.moves_none.longer)) w1)))
    ]
