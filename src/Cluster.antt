-- ===== src/Cluster.antt =====
-- The package's state: the nodes that pointers reach, and the package variables of broadcast.go,
-- events.go, membership.go, nodeStatus.go, node.go and registry.go.
pub mod Heap
use smudge.Prelude.{
  ℕ, ◌+◌, ◌-◌, ◌*◌, ◌%◌, ◌^◌, ◌<◌, ◌≡◌, refl, Bool, true, false, Option, none, some, List, [], ◌∷◌,
  ◌++◌, length, get_or, set, ltb, leb, arith, ℕ_discrete,
}
use smudge.Prelude.Outcome.{Outcome, ok, panic}
use smudge.Prelude.Text.{ℤ, pos, negsuc}
use smudge.Net.{Ip, Address, Address-discrete, node_address_string}

-- nodeStatus.go: a byte, of which the program names five values.
abbrev pub NodeStatus : Type 0
NodeStatus = ℕ

abbrev pub status_unknown : NodeStatus
status_unknown = 0

abbrev pub status_alive : NodeStatus
status_alive = 1

abbrev pub status_suspected : NodeStatus
status_suspected = 2

abbrev pub status_dead : NodeStatus
status_dead = 3

abbrev pub status_forward_to : NodeStatus
status_forward_to = 4

-- messageVerb.go.
abbrev pub MessageVerb : Type 0
MessageVerb = ℕ

abbrev pub verb_ping : MessageVerb
verb_ping = 0

abbrev pub verb_ack : MessageVerb
verb_ack = 1

abbrev pub verb_ping_request : MessageVerb
verb_ping_request = 2

abbrev pub verb_non_forwarding_ping : MessageVerb
verb_non_forwarding_ping = 3

-- An int8 as its bit pattern: `rank8` orders the patterns as the numbers are ordered, -128 at 0.
abbrev pub Int8 : Type 0
Int8 = ℕ

unfoldable pub rank8 : Int8 → ℕ
rank8 w = (w + 128) % 256

-- `c--`, which wraps from -128 to 127.
unfoldable pub dec8 : Int8 → Int8
dec8 w = (w + 255) % 256

-- The pattern of -n, for n up to 128.
abbrev pub neg8 : ℕ → Int8
neg8 n = (256 - n) % 256

-- A *Node: a place in the heap.
abbrev pub Ref : Type 0
Ref = ℕ

-- node.go: pingMillis is PingNoData (-1), PingTimedOut (-2) or a time.
pub data PingMillis : Type 0 where
  no_data timed_out : PingMillis
  measured : ℕ → PingMillis

-- `address` is a cache of `Address()` and is left out: no code changes `ip` or `port`.
pub record Node : Type 0 where
  pub ip : Ip
  pub port : ℕ
  pub timestamp : ℕ
  pub ping_millis : PingMillis
  pub status : NodeStatus
  pub emit_counter : Int8
  pub heartbeat : ℕ
  pub status_source : Option Ref

unfoldable pub address : Node → Address
address n = node_address_string n.ip n.port

-- registry.go: deadNodeCounter.
pub record DeadNodeCounter : Type 0 where
  pub retry : ℕ
  pub retry_countdown : ℕ

-- membership.go: pendingAckType and pendingAck.
pub data PendingAckType : Type 0 where
  pack_ping pack_ping_req pack_nfp : PendingAckType

pub record PendingAck : Type 0 where
  pub start_time : ℕ
  pub node : Ref
  pub callback : Option Ref
  pub callback_code : ℕ
  pub pack_type : PendingAckType

-- The key "address:code" of a pending ack, and the label "ip:port:index" of a broadcast.
pub record Tag : Type 0 where
  pub address : Address
  pub code : ℕ

unfoldable pub Tag-discrete : Discrete Tag
Tag-discrete = hlevel ℕ_discrete

-- broadcast.go: Broadcast. `label` is a cache of `Label()`.
pub record Broadcast : Type 0 where
  pub bytes : List ℕ
  pub origin : Ref
  pub index : ℕ
  pub emit_counter : Int8

-- pingData.go: the ring of response times.
pub record PingData : Type 0 where
  pub pings : List ℕ
  pub pointer : ℕ
  pub updated : Bool

-- A call of a listener (events.go).
pub data Event : Type 0 where
  on_change : ℕ → Ref → NodeStatus → Event
  on_broadcast : ℕ → Broadcast → Event

-- A UDP datagram that was written.
pub record Datagram : Type 0 where
  pub to : Address
  pub payload : List ℕ

-- A goroutine that was started and has not run yet: transmitVerbAckUDP, or doForwardOnTimeout.
pub data Task : Type 0 where
  transmit_ack : Ref → ℕ → Task
  forward_on_timeout : PendingAck → Task

-- The settings, and what floating point and the network answer.
pub record Env : Type 0 where
  pub ip_len : ℕ
  pub listen_port : ℕ
  pub max_broadcast_bytes : ℕ
  pub min_ping_time : ℕ
  -- `int(lambda * log(n) + 0.5)` for n known nodes: emitCount and pingRequestCount. For none known,
  -- the logarithm is -Inf and the int a negative number of the platform.
  pub log_count : ℕ → ℤ
  -- `uint32(pingdata.nSigma(timeoutToleranceSigmas))`.
  pub timeout_millis : List ℕ → ℕ
  -- Whether DialUDP and Write succeed.
  pub can_dial : Address → Bool
  pub can_write : Address → Bool

pub record Cluster : Type 0 where
  pub env : Env
  pub open env use *
  pub heap : List Node
  pub known_nodes : List (Address × Ref)
  pub updated_nodes : List (Address × Ref)
  pub dead_node_retries : List (Address × DeadNodeCounter)
  pub pending_acks : List (Tag × PendingAck)
  pub broadcasts : List (Tag × Broadcast)
  pub index_counter : ℕ
  pub this_host : Ref
  pub current_heartbeat : ℕ
  pub known_nodes_modified : Bool
  pub pingdata : PingData
  -- `GetNowInMillis()`: the clock, a uint32.
  pub now : ℕ
  pub status_listeners : List ℕ
  pub broadcast_listeners : List ℕ
  pub events : List Event
  pub sent : List Datagram
  pub tasks : List Task

-- What a dangling pointer would read; no pointer of the program is one.
abbrev pub no_node : Node
no_node = record {
  ip = [];
  port = 0;
  timestamp = 0;
  ping_millis = no_data;
  status = status_unknown;
  emit_counter = 0;
  heartbeat = 0;
  status_source = none;
}

-- `*r` and `*r = n`.
unfoldable pub deref : Cluster → Ref → Node
deref c r = get_or c.heap r no_node

unfoldable pub assign : Cluster → Ref → Node → Cluster
assign c r n = record c { heap = set c.heap r n }

-- `&Node{…}`.
unfoldable pub alloc : Cluster → Node → Cluster × Ref
alloc c n = (record c { heap = c.heap ++ (n ∷ []) }, length c.heap)

-- node.go: Address(), Age() and Touch().
unfoldable pub address_of : Cluster → Ref → Address
address_of c r = address (deref c r)

unfoldable pub age : Cluster → Ref → ℕ
age c r = (c.now + 2 ^ 32 - (deref c r).timestamp) % 2 ^ 32

unfoldable pub touch : Cluster → Ref → Cluster
touch c r = assign c r (record (deref c r) { timestamp = c.now })

-- membership.go: emitCount and pingRequestCount; `int8(emitCount())`.
unfoldable pub emit_count : Cluster → ℤ
emit_count c = c.log_count (length c.known_nodes)

unfoldable pub ping_request_count : Cluster → ℤ
ping_request_count c = c.log_count (length c.known_nodes)

abbrev pub int8 : ℤ → Int8
int8 (pos n) = n % 256
int8 (negsuc n) = 255 - n % 256

-- A count as a capacity (`make`) or the end of a slice, which panics if it is negative.
unfoldable pub as_size : ℤ → Outcome ℕ
as_size (pos n) = ok n
as_size (negsuc n) = panic
