-- ===== src/Membership/Backoff/Removal.antt =====
-- membership.go: the backoff of a dead node, by what its counter comes to.
use smudge.Prelude.{◌≡◌, ◌≢◌, refl, ap, ◌∙◌, false, none}
use smudge.Prelude.Maps.{lookup, insert, lookup-insert_self}
use smudge.Net.{Address-discrete}
use smudge.NodeMap
use smudge.Cluster.{Cluster, Ref, DeadNodeCounter, deref, address_of}
use smudge.Registry.Known.{remove_node-absent}
use smudge.Membership.Backoff.{
  Visit, skips, pings, forgets, visit_dead, counter_or_fresh, settle_visit, back_off,
}
use smudge.Membership.Backoff.Schedule.{waiting, visit_count}
use smudge.Membership.Backoff.Patience.{before_last}

unfoldable pub counter : Cluster → Ref → DeadNodeCounter
counter c node = counter_or_fresh (lookup Address-discrete (address_of c node) c.dead_node_retries)

unfoldable pub noted : Cluster → Ref → DeadNodeCounter → Cluster
noted c node d = record c {
  dead_node_retries = insert Address-discrete (address_of c node) d c.dead_node_retries;
}

pub back_off-noted :
    (c : Cluster) (node : Ref) (v : Visit)
    → (visit_dead (counter c node)).1 ≡ v
    → v ≢ forgets
    → back_off c node ≡ (noted c node (visit_dead (counter c node)).0, v)
unfolding back_off counter noted settle_visit
back_off-noted c node skips e h = ap (settle_visit c node (visit_dead (counter c node)).0) e
back_off-noted c node pings e h = ap (settle_visit c node (visit_dead (counter c node)).0) e
back_off-noted c node forgets e h = absurd (h refl)

pub noted-counter :
    (c : Cluster) (node : Ref) (d : DeadNodeCounter) → counter (noted c node d) node ≡ d
unfolding counter noted address_of deref
noted-counter c node d =
    ap counter_or_fresh
      (lookup-insert_self Address-discrete (address_of c node) d c.dead_node_retries)

-- The visit that forgets it.
pub back_off-forgets :
    (c : Cluster) (node : Ref)
    → (visit_dead (counter c node)).1 ≡ forgets
    → ((back_off c node).1 ≡ forgets)
      × (NodeMap.contains (back_off c node).0 (back_off c node).0.known_nodes node ≡ false)
unfolding back_off counter settle_visit
back_off-forgets c node e =
    let settled = ap (settle_visit c node (visit_dead (counter c node)).0) e in
    (
      ap (λ (t : Cluster × Visit). t.1) settled,
      ap (λ (t : Cluster × Visit). NodeMap.contains t.0 t.0.known_nodes node) settled
          ∙ remove_node-absent _ node,
    )

pub due : (visit_dead (record { retry = 10; retry_countdown = 1 })).1 ≡ forgets
unfolding visit_dead
due = refl

pub counter-unseen :
    (c : Cluster) (node : Ref)
    → lookup Address-discrete (address_of c node) c.dead_node_retries ≡ none
    → counter c node ≡ waiting 1
unfolding counter
counter-unseen c node e = ap counter_or_fresh e

pub all_but_one : before_last ≡ 2045
unfolding before_last visit_count
all_but_one = refl
