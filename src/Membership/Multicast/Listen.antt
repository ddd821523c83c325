-- ===== src/Membership/Multicast/Listen.antt =====
-- membership.go: what listenUDPMulticast does with a datagram. An announcement of another cluster, or
-- one that cannot be read, is only logged.
use smudge.Prelude.{ℕ, ℕ_discrete, Option, none, some, List, ite}
use smudge.Prelude.Outcome.{Outcome, ok, ◌>>=◌}
use smudge.Net.{Ip}
use smudge.Wire.{Slice}
use smudge.Cluster.{Cluster}
use smudge.Message
use smudge.Message.{Message, decode_message}
use smudge.Membership.{update_statuses_from_message}
use smudge.Membership.Multicast.{decode_multicast_announce_bytes}

unfoldable pub Name-discrete : Discrete (List ℕ)
Name-discrete = hlevel ℕ_discrete

-- An announcement of this cluster: the statuses of its sender and members are taken up.
unfoldable pub heed : Cluster → Message → Option Message.Error → Outcome Cluster
heed c msg none = update_statuses_from_message c msg
heed c msg (some e) = ok c

unfoldable pub take_announcement : Cluster → List ℕ → Ip → Option (List ℕ × Slice) → Outcome Cluster
take_announcement c cluster_name source_ip none = ok c
take_announcement c cluster_name source_ip (some (name, msg_bytes)) =
    let heeded = (do (c', msg, e) ← decode_message c source_ip msg_bytes; heed c' msg e) in
    ite (Name-discrete cluster_name name) heeded (ok c)

unfoldable pub receive_announcement : Cluster → List ℕ → Ip → Slice → Outcome Cluster
receive_announcement c cluster_name source_ip bytes = do
  found ← decode_multicast_announce_bytes bytes
  take_announcement c cluster_name source_ip found
