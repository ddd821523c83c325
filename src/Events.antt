-- ===== src/Events.antt =====
-- events.go: the listeners, which are the caller's code, and the calls that they receive.
use smudge.Prelude.{ℕ, [], ◌∷◌, ◌++◌, map}
use smudge.Cluster.{Cluster, Ref, NodeStatus, Broadcast, on_change, on_broadcast}

unfoldable pub add_broadcast_listener : Cluster → ℕ → Cluster
add_broadcast_listener c listener = record c {
  broadcast_listeners = c.broadcast_listeners ++ (listener ∷ []);
}

unfoldable pub do_broadcast_update : Cluster → Broadcast → Cluster
do_broadcast_update c broadcast = record c {
  events = c.events ++ map (λ sl. on_broadcast sl broadcast) c.broadcast_listeners;
}

unfoldable pub add_status_listener : Cluster → ℕ → Cluster
add_status_listener c listener = record c {
  status_listeners = c.status_listeners ++ (listener ∷ []);
}

unfoldable pub do_status_update : Cluster → Ref → NodeStatus → Cluster
do_status_update c node status = record c {
  events = c.events ++ map (λ sl. on_change sl node status) c.status_listeners;
}
