-- ===== src/Lib.antt =====
-- smudge: the membership protocol of smudge (a SWIM-style group membership library in Go).
--
-- The program. A host keeps a map of known nodes (nodeMap.go, registry.go). It pings them one after
-- another (membership.go, Begin), each ping a UDP datagram (message.go) that carries news of other
-- nodes and may carry a broadcast (broadcast.go). Who receives a datagram updates the statuses of
-- the nodes that it names, hands the broadcast to its listeners (events.go) and answers. Pings
-- that are not answered in time are tried through other nodes, and then the node is downgraded.
-- The time that is allowed follows from the response times so far (pingData.go).
--
-- The model. Package variables and the nodes that pointers reach are one record, `Cluster`; a *Node
-- is a place in its heap (`Ref`), so two pointers to a node share its changes. A call takes the state and
-- returns the next one. `Outcome` is what a call does: it returns (`ok`), it panics, or (of a loop on
-- fuel) it is cut off. A goroutine is a task that the state notes and that is a step of its own; a
-- listener's call is an entry of an event log, and a datagram that was written is one of `sent`. Random
-- numbers are an argument `draw`; the clock is `Cluster.now`.
--
-- The files:
--   Prelude          shared names, lists, maps, outcomes, sorting, counting
--   Bytes            bytes.go: little-endian integers at an index
--   Checksum         the Adler-32 sum of message.go's datagrams (Go's hash/adler32)
--   Net              IP addresses of Go's package net, node.go: nodeAddressString
--   Cluster          node.go, nodeStatus.go, messageVerb.go and all package variables
--   NodeMap          nodeMap.go
--   Events           events.go
--   Registry         registry.go; Registry/WellFormed: its invariant;
--                    Registry/Invariant, Registry/Known, Registry/Edits: the operations against
--                    it; Registry/Statuses: statuses; Registry/Updated: the choice of news;
--                    Registry/Duties: the nodes that pending acks and goroutines name;
--                    Registry/View: what is seen of the known nodes; Registry/Changed: an update;
--                    Registry/Addresses: the functions on address texts and interfaces
--   Wire             slices with the spare capacity behind them, and the reads and writes that
--                    message.go and broadcast.go share; Wire/Write, Wire/Read, Wire/Rest: their laws
--   Broadcast        broadcast.go; Broadcast/Codec: its format; Broadcast/Accept: its reception;
--                    Broadcast/Emit: its emission;
--                    Broadcast/Labels: the keys of its map
--   Message          message.go; Message/Layout, Message/Encode: the format; Message/Decode,
--                    Message/Body, Message/RoundTrip,
--                    Message/Corrupted, Message/Rounds, Message/Sound: what is
--                    read of it; Message/Written: the calls that write it
--   PingData         pingData.go
--   Membership       membership.go: updateStatusesFromMessage; Membership/Transmit: transmitVerb*UDP;
--                    Membership/Receive: receiveMessageUDP and its handlers; Membership/Timeouts:
--                    startTimeoutCheckLoop and doForwardOnTimeout; Membership/Backoff: Begin's loop;
--                    Membership/Multicast: announcements, their codec, Membership/Multicast/Listen,
--                    Membership/Multicast/Announce: who hears and who sends them,
--                    Membership/Multicast/Interface: getListenInterface; Membership/Merge: the abstract merge
--                    of news that a round of updateStatusesFromMessage carries out
--   Log              log.go
--   Properties       properties.go: the settings; Properties/Split: splitDelimmitedString
--   System           Begin (membership.go) and all steps of the program, as one state machine;
--                    System/Steps, System/Runs: what they keep; System/Hosts: the initial hosts
--   CommandLine      smudge/smudge.go: main, up to its call of Begin
--   Tests            concrete states, at which the theorems are applied
--
-- Bounds. Bytes are numbers below 256 where it matters and say so; uint8, uint16 and uint32 keep their
-- wrap-around; int8 counters are bit patterns. decodeMembers runs on fuel: one round more than the
-- part of the datagram has bytes, which is enough since a round reads at least one byte.
-- The ports, heartbeats and lengths of a message that is read back must fit their fields.
--
-- Not modelled: sockets and the operating system's interfaces, whose answers are parameters
-- (membership.go: what ResolveUDPAddr and net.Interfaces give; in registry.go what net.ParseIP,
-- LookupIP and InterfaceAddrs give), and the parsing of the command line (package flag). The
-- settings that the protocol reads are numbers of the record `Env`, which steps of a run may
-- change, apart from Properties; they are not negative there. Log calls are left out of the
-- protocol. hash/adler32, which seals a datagram, is the standard library's, written out.
-- Floating-point results (the logarithm of the node count, the mean and deviation of response
-- times) are functions of `Env`. Locks are left out: a call, or one round of a loop, is one step.
-- A run starts with Begin: calls of exported functions before it are left out, and so are callers
-- that set FORWARD_TO on a node. Texts are lists of code points; strings.ToLower is written out
-- for ASCII letters. `Node.address` and `Broadcast.label` are caches of values that do not change,
-- and are left out. The order in which Go walks a map is the order of the association list.
pub mod Prelude
pub mod Bytes
pub mod Checksum
pub mod Net
pub mod Cluster
pub mod NodeMap
pub mod Events
pub mod Registry
pub mod Wire
pub mod Broadcast
pub mod Message
pub mod PingData
pub mod Membership
pub mod Log
pub mod Properties
pub mod System
pub mod CommandLine
mod Tests
