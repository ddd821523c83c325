-- ===== src/Tests.antt =====
-- Concrete states and messages, at which the theorems are applied and the definitions run.
mod Codecs
mod States
mod Settings
mod Starting
mod Runs
use smudge.Prelude.{
  ℕ, zero, suc, ◌<◌, ◌≡◌, ◌≢◌, refl, Bool, true, false, Option, none, some, List, [], ◌∷◌, length,
  arith, All, ℕ_discrete,
}
use smudge.Prelude.Text.{pos}
use smudge.Prelude.Maps.{Distinct, lookup}
use smudge.Net.{Ip, ipv4, Address, node_address_string, shortest, to4, Address-discrete}
use smudge.Cluster.{
  Cluster, Env, Node, Ref, Broadcast, NodeStatus, no_data, status_alive, status_unknown,
  status_dead, status_suspected, status_forward_to, verb_ping, deref, address, address_of,
}
use smudge.Registry.WellFormed.{IsWellFormed, Keyed, StatusesOk}
use smudge.Message.{Message, MessageMember}

abbrev pub an_env : Env
an_env = record {
  ip_len = 4;
  listen_port = 9999;
  max_broadcast_bytes = 256;
  min_ping_time = 150;
  log_count = pos;
  timeout_millis = λ _. 150;
  can_dial = λ _. true;
  can_write = λ _. true;
}

abbrev pub a_node : ℕ → NodeStatus → Node
a_node k status = record {
  ip = ipv4 10 0 0 k;
  port = 9999;
  timestamp = 5;
  ping_millis = no_data;
  status = status;
  emit_counter = 2;
  heartbeat = 3;
  status_source = none;
}

abbrev pub an_address : ℕ → Address
an_address k = record { host = 10 ∷ 0 ∷ 0 ∷ k ∷ []; port = 9999 }

abbrev pub a_broadcast : Broadcast
a_broadcast = record { bytes = 7 ∷ 8 ∷ 9 ∷ []; origin = 0; index = 1; emit_counter = 2 }

-- This host, a known node, and a node that is not known yet.
abbrev pub a_cluster : Cluster
a_cluster = record {
  env = an_env;
  heap = a_node 1 status_alive ∷ a_node 2 status_alive ∷ a_node 3 status_unknown ∷ [];
  known_nodes = (an_address 1, 0) ∷ (an_address 2, 1) ∷ [];
  updated_nodes = (an_address 2, 1) ∷ [];
  dead_node_retries = [];
  pending_acks = [];
  broadcasts = [];
  index_counter = 1;
  this_host = 0;
  current_heartbeat = 6;
  known_nodes_modified = false;
  pingdata = record { pings = 150 ∷ 150 ∷ []; pointer = 0; updated = true };
  now = 100;
  status_listeners = 1 ∷ [];
  broadcast_listeners = 2 ∷ [];
  events = [];
  sent = [];
  tasks = [];
}

-- It says that node 1 is dead, which has told node 0.
abbrev pub a_member : MessageMember
a_member = record { source = some 0; heartbeat = 4; node = 1; status = status_dead }

abbrev pub a_message : Message
a_message = record {
  sender = some 2;
  sender_heartbeat = 8;
  verb = verb_ping;
  members = a_member ∷ [];
  broadcast = some a_broadcast;
}

pub a_cluster-statuses : StatusesOk a_cluster
unfolding deref
a_cluster-statuses zero h = omega arith
a_cluster-statuses (suc zero) h = omega arith
a_cluster-statuses (suc (suc zero)) h = omega arith
a_cluster-statuses (suc (suc (suc r))) h = absurd (omega arith)

pub a_cluster-IsWellFormed : IsWellFormed a_cluster
unfolding deref address address_of node_address_string shortest to4 lookup Address-discrete
    ℕ_discrete
a_cluster-IsWellFormed = record {
  known = ((omega arith, refl), ((omega arith, refl), tt));
  updated = ((omega arith, refl), tt);
  known_distinct = (refl, (refl, tt));
  updated_distinct = (refl, tt);
  host_lt = omega arith;
  statuses = a_cluster-statuses;
  acks = tt;
  duties = tt;
}
