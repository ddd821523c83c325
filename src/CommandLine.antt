-- ===== src/CommandLine.antt =====
-- smudge/smudge.go: main, up to its call of Begin, which does not return. A nil IP is none in the
-- settings, and has no bytes elsewhere. CreateNodeByAddress reads the settings; that GetListenIP may
-- keep what it reads there is left out, since a later call reads the same.
pub mod Begins
use smudge.Prelude.{ℕ, ◌-◌, ◌%◌, ◌^◌, ite, if◌then◌else◌, Option, none, some, List, [], ◌∷◌, ◌++◌}
use smudge.Prelude.Text.{Text, ℤ, pos, negsuc}
use smudge.Net.{Ip}
use smudge.Log.{Logging, set_log_threshold, log_info_level}
use smudge.Properties.{
  Environ, Properties, present_or, get_listen_port, set_listen_port, get_heartbeat_millis,
  set_heartbeat_millis, get_listen_ip, set_listen_ip, set_max_broadcast_bytes,
}
use smudge.Registry.Addresses.{Resolver, Error, is_v4, get_local_ip, parse_node_address}

-- The values of the flags that are given.
pub record Flags : Type 0 where
  pub node : Text
  pub port : Option ℤ
  pub heartbeat : Option ℤ

-- The environment, and what package net answers.
pub record World : Type 0 where
  pub environ : Environ
  pub parse_ip : Text → Ip
  pub lookup_ip : Text → Option (List Ip)
  pub interface_addrs : Option (List (Option Ip))

-- What main does besides setting things: log.Fatal, AddNode of the node that was made for an
-- address, fmt.Println of an error, and Begin.
pub data Call : Type 0 where
  exits begins : Call
  adds : Ip → ℕ → Call
  prints : Error → Call

pub record Outcome : Type 0 where
  pub properties : Properties
  pub logging : Logging
  pub calls : List Call

abbrev pub non_nil : Ip → Option Ip
non_nil [] = none
non_nil (b ∷ bs) = some (b ∷ bs)

abbrev pub or_nil : Option Ip → Ip
or_nil none = []
or_nil (some ip) = ip

abbrev pub nullable_parse_ip : World → Text → Option Ip
nullable_parse_ip w text = non_nil (w.parse_ip text)

-- `uint16(v)` takes the low bits of an int.
abbrev pub bits : ℤ → ℕ
bits (pos n) = n
bits (negsuc n) = 2 ^ 64 - 1 - n

abbrev pub resolver_of : World → Properties → ℤ → Resolver
resolver_of w p listen_port = record {
  parse_ip = w.parse_ip;
  lookup_ip = w.lookup_ip;
  listen_ip = or_nil (get_listen_ip (nullable_parse_ip w) w.environ p).1;
  listen_port = bits listen_port;
}

-- The node of the flag, if its address can be read.
abbrev pub calls_for : Ip × ℕ × Option Error → List Call
calls_for (ip, port, none) = adds ip port ∷ []
calls_for (ip, port, some e) = prints e ∷ []

unfoldable pub first_node : World → Properties → Text → Properties × List Call
first_node w p [] = (p, [])
first_node w p (c ∷ node) =
    let (p1, listen_port) = get_listen_port w.environ p in
    (p1, calls_for (parse_node_address (resolver_of w p1 listen_port) (c ∷ node)))

-- An IPv6 host takes longer broadcasts.
unfoldable pub limit_broadcasts : Properties → Ip → Properties
limit_broadcasts p ip = if is_v4 ip then p else set_max_broadcast_bytes p (pos 512)

unfoldable pub settings : World → Properties → ℤ → ℤ → Ip → Properties
settings w p listen_port heartbeat_millis ip =
    let p1 = set_listen_port p listen_port in
    let p2 = set_heartbeat_millis p1 heartbeat_millis in
    let p3 = set_listen_ip (nullable_parse_ip w) p2 (non_nil ip) in limit_broadcasts p3 ip

-- What follows GetLocalIP. The `err` that is tested before Begin is that of GetLocalIP: the block
-- that makes the node declares another.
abbrev pub run : World → Properties → Logging → Text → ℤ → ℤ → Option Ip → Outcome
run w p l node listen_port heartbeat_millis none = record {
  properties = p;
  logging = l;
  calls = exits ∷ [];
}
run w p l node listen_port heartbeat_millis (some ip) =
    let (p1, calls) = first_node w (settings w p listen_port heartbeat_millis ip) node in
    record {
      properties = p1;
      logging = set_log_threshold l log_info_level;
      calls = calls ++ (begins ∷ []);
    }

unfoldable pub main : World → Flags → Properties → Logging → Outcome
main w flags p l =
    let (p1, default_port) = get_listen_port w.environ p in
    let (p2, default_heartbeat) = get_heartbeat_millis w.environ p1 in
    run w p2 l flags.node (present_or flags.port default_port)
      (present_or flags.heartbeat default_heartbeat) (get_local_ip w.interface_addrs)
