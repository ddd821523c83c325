-- ===== src/Message/Layout.antt =====
-- message.go: the layout of a message that the comments of encode describe.
use smudge.Prelude.{
  ℕ, ◌+◌, ◌*◌, ◌%◌, ◌≡◌, Option, none, some, List, [], ◌∷◌, ◌++◌, length, length-append, arith, All,
}
use smudge.Bytes.Little.{little, length-little}
use smudge.Net.{Ip, shortest}
use smudge.Wire.Write.{zeros}
use smudge.Broadcast.Codec
use smudge.Broadcast.Codec.{CanEncode, encode-layout, length-layout}
use smudge.Cluster.{Cluster, Broadcast, NodeStatus, Ref, deref}
use smudge.Message.{MessageMember, wire_ip}

-- A member as it is sent. Of a missing source, zeros are sent.
pub record WireMember : Type 0 where
  pub status : NodeStatus
  pub ip : Ip
  pub port : ℕ
  pub heartbeat : ℕ
  pub source_ip : Ip
  pub source_port : ℕ

unfoldable pub source_ip_of : Cluster → Option Ref → Ip
source_ip_of c none = zeros c.ip_len
source_ip_of c (some r) = wire_ip c.ip_len (deref c r).ip

unfoldable pub source_port_of : Cluster → Option Ref → ℕ
source_port_of c none = 0
source_port_of c (some r) = (deref c r).port

unfoldable pub wire_member : Cluster → MessageMember → WireMember
wire_member c m = record {
  status = m.status % 256;
  ip = wire_ip c.ip_len (deref c m.node).ip;
  port = (deref c m.node).port;
  heartbeat = m.heartbeat;
  source_ip = source_ip_of c m.source;
  source_port = source_port_of c m.source;
}

-- Status, IP, port, heartbeat, IP and port of the source.
unfoldable pub member_layout : WireMember → List ℕ
member_layout w =
    w.status
    ∷ (w.ip
        ++ (little 2 w.port ++ (little 4 w.heartbeat ++ (w.source_ip ++ little 2 w.source_port))))

unfoldable pub members_layout : List WireMember → List ℕ
members_layout [] = []
members_layout (w ∷ ws) = member_layout w ++ members_layout ws

unfoldable pub broadcast_layout : Cluster → Option Broadcast → List ℕ
broadcast_layout c none = []
broadcast_layout c (some b) =
    Codec.layout (shortest (deref c b.origin).ip) (deref c b.origin).port b.index b.bytes

-- What follows the checksum.
unfoldable pub body_layout : ℕ → ℕ → ℕ → List WireMember → List ℕ → List ℕ
body_layout verb port heartbeat members broadcast =
    verb ∷ (little 2 port ++ (little 4 heartbeat ++ (members_layout members ++ broadcast)))

-- Both IPs of a member take `ipLen` bytes.
abbrev pub IsFit : ℕ → WireMember → Type 0
IsFit ip_len w = (length w.ip ≡ ip_len) × (length w.source_ip ≡ ip_len)

pub length-member_layout :
    (ip_len : ℕ) (w : WireMember) → IsFit ip_len w → length (member_layout w) ≡ 9 + ip_len + ip_len
unfolding member_layout
length-member_layout ip_len w h =
    rw
      (
        length-append w.ip,
        length-append (little 2 w.port),
        length-append (little 4 w.heartbeat),
        length-append w.source_ip,
      )
      (omega
        (arith, length-little 2 w.port, length-little 4 w.heartbeat, length-little 2 w.source_port))

pub length-members_layout :
    (ip_len : ℕ) (ws : List WireMember)
    → All (IsFit ip_len) ws
    → length (members_layout ws) ≡ length ws * (9 + ip_len + ip_len)
unfolding members_layout
length-members_layout ip_len [] h = omega arith
length-members_layout ip_len (w ∷ ws) h =
    rw
      (
        length-append (member_layout w),
        length-member_layout ip_len w h.0,
        length-members_layout ip_len ws h.1,
      )
      (omega arith)
