-- ===== src/System.antt =====
-- The whole program as a state machine: what Begin sets up (membership.go), and the steps that the
-- network, the clock, the goroutines and the exported functions may take from there, in any order.
pub mod Steps
pub mod Runs
pub mod Hosts
use smudge.Prelude.{
  ℕ, ◌+◌, ◌%◌, ◌^◌, ◌<◌, ◌≡◌, ◌≢◌, Option, none, some, Bool, false, if◌then◌else◌, List, [], ◌∷◌,
  ◌++◌, length,
}
use smudge.Prelude.Outcome.{Outcome, ok}
use smudge.Prelude.Text.{ℤ}
use smudge.Net.{Ip, Address, ipv4_len, ipv6_len}
use smudge.Registry.Addresses.{is_v4}
use smudge.Wire.{Slice}
use smudge.Cluster.{
  Cluster, Env, Ref, NodeStatus, PingData, Task, status_unknown, status_alive, status_forward_to,
  no_data, alloc, touch,
}
use smudge.Events.{add_status_listener, add_broadcast_listener}
use smudge.Registry.{update_node_status, update_status, add_node, remove_node, create_node_by_ip}
use smudge.Broadcast.{broadcast_bytes}
use smudge.Membership.Transmit
use smudge.Membership.Transmit.{ping_node}
use smudge.Membership.Receive.{receive_message_udp}
use smudge.Membership.Timeouts.{timeout_check, run_task}
use smudge.Membership.Backoff.{heartbeat_round}
use smudge.Membership.Multicast.Listen.{receive_announcement}
use smudge.Membership.Multicast.Announce.{Next, announce_round}

-- `ipLen = …`.
abbrev pub with_ip_len : Env → ℕ → Env
with_ip_len env ip_len = record env { ip_len = ip_len }

-- The package variables before Begin; `thisHost` is nil until then.
abbrev pub initial : Env → PingData → ℕ → Cluster
initial env pingdata now = record {
  env = with_ip_len env ipv4_len;
  heap = [];
  known_nodes = [];
  updated_nodes = [];
  dead_node_retries = [];
  pending_acks = [];
  broadcasts = [];
  index_counter = 1;
  this_host = 0;
  current_heartbeat = 0;
  known_nodes_modified = false;
  pingdata = pingdata;
  now = now;
  status_listeners = [];
  broadcast_listeners = [];
  events = [];
  sent = [];
  tasks = [];
}

-- `listen_ip` is GetListenIP().
unfoldable pub init_global_host_environment : Cluster → Ip → Cluster
init_global_host_environment c listen_ip =
    let (c1, host) = alloc c (record {
      ip = listen_ip;
      port = c.listen_port % 2 ^ 16;
      timestamp = c.now;
      ping_millis = no_data;
      status = status_unknown;
      emit_counter = 0;
      heartbeat = 0;
      status_source = none;
    }) in
    record c1 { this_host = host }

-- Begin takes the long addresses if the listen IP is not IPv4.
unfoldable pub choose_ip_len : Cluster → Ip → Cluster
choose_ip_len c listen_ip = record c {
  env = with_ip_len c.env (if is_v4 listen_ip then c.ip_len else ipv6_len);
}

-- Begin, up to the goroutines that it starts.
unfoldable pub begin : Cluster → Ip → Outcome Cluster
begin c listen_ip =
    let c1 = init_global_host_environment (choose_ip_len c listen_ip) listen_ip in
    add_node (update_node_status c1 c1.this_host status_alive 0 (some c1.this_host)) c1.this_host

-- What may happen next.
pub data Step : Cluster → Cluster → Type 0 where
  receives :
      {c c' : Cluster} (draw : ℕ → ℕ) (source : Ip) (bytes : Slice) (e : Option Transmit.Error)
      → receive_message_udp c draw source bytes ≡ ok (c', e)
      → Step c c'
  hears :
      {c c' : Cluster} (name : List ℕ) (source : Ip) (bytes : Slice)
      → receive_announcement c name source bytes ≡ ok c'
      → Step c c'
  announces :
      {c c' : Cluster} (name : List ℕ) (to : Address) (interval : ℤ) (next : Next)
      → announce_round c name to interval ≡ ok (c', next)
      → Step c c'
  beats :
      {c c' : Cluster} (draw : ℕ → ℕ) (pinged : ℕ)
      → heartbeat_round c draw ≡ ok (c', pinged)
      → Step c c'
  checks : {c c' : Cluster} → timeout_check c ≡ ok c' → Step c c'
  runs :
      {c c' : Cluster} (draw : ℕ → ℕ) (before : List Task) (task : Task) (after : List Task)
      → c.tasks ≡ before ++ (task ∷ after)
      → run_task (record c { tasks = before ++ after }) draw task ≡ ok c'
      → Step c c'
  ticks : {c : Cluster} (now : ℕ) → Step c (record c { now = now })
  asks :
      {c c' : Cluster} (draw : ℕ → ℕ) (node : Ref) (e : Option Transmit.Error)
      → node < length c.heap
      → ping_node c draw node ≡ ok (c', e)
      → Step c c'
  creates : {c : Cluster} (ip : Ip) (port : ℕ) → Step c (create_node_by_ip c ip port).0
  adds : {c c' : Cluster} (node : Ref) → node < length c.heap → add_node c node ≡ ok c' → Step c c'
  removes : {c : Cluster} (node : Ref) → Step c (remove_node c node)
  sets :
      {c : Cluster} (node : Ref) (status : NodeStatus) (source : Option Ref)
      → node < length c.heap
      → status ≢ status_forward_to
      → Step c (update_status c node status source)
  broadcasts : {c : Cluster} (bytes : List ℕ) → Step c (broadcast_bytes c bytes).0
  listens_to_statuses : {c : Cluster} (listener : ℕ) → Step c (add_status_listener c listener)
  listens_to_broadcasts : {c : Cluster} (listener : ℕ) → Step c (add_broadcast_listener c listener)
  -- Node.Touch.
  touches : {c : Cluster} (node : Ref) → node < length c.heap → Step c (touch c node)
  -- The setters of what the protocol reads while it runs.
  sets_listen_port :
      {c : Cluster} (val : ℕ) → Step c (record c { env = record c.env { listen_port = val } })
  sets_max_broadcast_bytes :
      {c : Cluster} (val : ℕ)
      → Step c (record c { env = record c.env { max_broadcast_bytes = val } })
  sets_min_ping_time :
      {c : Cluster} (val : ℕ) → Step c (record c { env = record c.env { min_ping_time = val } })
  -- Other addresses can be dialled and written to.
  reaches :
      {c : Cluster} (can_dial can_write : Address → Bool)
      → Step c (record c { env = record c.env { can_dial = can_dial; can_write = can_write } })

-- The states that a run comes to.
pub data Run (env : Env) (pingdata : PingData) (now : ℕ) (listen_ip : Ip) : Cluster → Type 0 where
  begun :
      {c : Cluster}
      → begin (initial env pingdata now) listen_ip ≡ ok c
      → Run env pingdata now listen_ip c
  then_step :
      {c d : Cluster}
      → Run env pingdata now listen_ip c
      → Step c d
      → Run env pingdata now listen_ip d
