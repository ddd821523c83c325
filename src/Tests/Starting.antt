-- ===== src/Tests/Starting.antt =====
-- The command line and the announcements, at those of the tests.
use smudge.Prelude.{ℕ, ◌≡◌, ◌≤◌, refl, none, some, inl, List, [], ◌∷◌, ◌++◌, length, arith}
use smudge.Prelude.Outcome.{ok}
use smudge.Prelude.Text.{runes, pos}
use smudge.Net.{Address, ipv4, node_address_string, to4}
use smudge.Cluster.{Cluster, deref}
use smudge.Registry.WellFormed.{Sound}
use smudge.Registry.Addresses.{lookup_failure, get_local_ip, local_loop, is_loopback, last_index}
use smudge.Log.{Logging, default_logger}
use smudge.Properties.{initial_properties, get_max_broadcast_bytes}
use smudge.CommandLine.{Flags, World, Call, prints, begins, main}
use smudge.CommandLine.Begins.{IsConfigured, port_of, heartbeat_of, main-begins, main-unknown}
use smudge.Membership.Multicast.Listen.{receive_announcement}
use smudge.Membership.Multicast.Interface.{
  Interface, IsFirst, get_listen_interface, get_listen_interface-IsFirst,
}
use smudge.Membership.Multicast.Announce.{announce_round, sleeps}
use smudge.Membership.Multicast.Announce.Heard.{IsKnown, announce_round-heard}
use smudge.Tests.{a_cluster, a_cluster-IsWellFormed}

abbrev some_interfaces : List Interface
some_interfaces =
    (record { name = runes "lo"; addrs = some (some (ipv4 127 0 0 1) ∷ []) })
    ∷ (record { name = runes "eth0"; addrs = none })
    ∷ (record { name = runes "eth1"; addrs = some (none ∷ some (ipv4 10 0 0 1) ∷ []) })
    ∷ []

get_listen_interface-IsFirst_example :
    IsFirst
      (10 ∷ 0 ∷ 0 ∷ 1 ∷ [])
      some_interfaces
      (get_listen_interface (some some_interfaces) (10 ∷ 0 ∷ 0 ∷ 1 ∷ []))
get_listen_interface-IsFirst_example =
    get_listen_interface-IsFirst some_interfaces (10 ∷ 0 ∷ 0 ∷ 1 ∷ [])

abbrev a_name : List ℕ
a_name = runes "smudge"

abbrev a_group : Address
a_group = node_address_string (ipv4 224 0 0 0) 9998

announce_round-heard_example :
    (payload : List ℕ) × (announce_round a_cluster a_name a_group (pos 10)
      ≡ ok (
        record a_cluster { sent = record { to = a_group; payload = payload } ∷ [] },
        sleeps (pos 10),
      ))
    × (c2 : Cluster) × (receive_announcement a_cluster a_name
          (ipv4 10 0 0 8)
          (record { elems = payload; spare = 0 ∷ [] })
        ≡ ok c2)
    × Sound a_cluster c2
    × IsKnown c2 (node_address_string (ipv4 10 0 0 8) 9999)
unfolding deref
announce_round-heard_example =
    announce_round-heard a_cluster a_cluster a_name a_group (pos 10) (ipv4 10 0 0 8) (0 ∷ [])
      (omega arith) (omega arith) (omega arith) (omega arith) refl refl (inl refl) refl
      a_cluster-IsWellFormed

abbrev a_world : World
a_world = record {
  environ = λ _. [];
  parse_ip = λ _. [];
  lookup_ip = λ _. none;
  interface_addrs = some (some (ipv4 10 0 0 7) ∷ []);
}

abbrev some_flags : Flags
some_flags = record { node = runes "nowhere"; port = some (pos 8000); heartbeat = none }

abbrev a_log : Logging
a_log = record { log_threshhold = 1; logger = default_logger; outputs = [] }

a_local_ip : get_local_ip a_world.interface_addrs ≡ some (10 ∷ 0 ∷ 0 ∷ 7 ∷ [])
unfolding get_local_ip local_loop is_loopback to4
a_local_ip = refl

main-begins_example :
    (calls : List Call) × ((main a_world some_flags initial_properties a_log).calls
      ≡ calls ++ (begins ∷ []))
    × (length calls ≤ 1)
    × IsConfigured a_world
        (port_of a_world some_flags initial_properties)
        (heartbeat_of a_world some_flags initial_properties)
        (10 ∷ 0 ∷ 0 ∷ 7 ∷ [])
        (get_max_broadcast_bytes a_world.environ initial_properties).1
        (main a_world some_flags initial_properties a_log)
main-begins_example =
    main-begins a_world some_flags initial_properties a_log (10 ∷ 0 ∷ 0 ∷ 7 ∷ []) a_local_ip

main-unknown_example :
    (main a_world some_flags initial_properties a_log).calls ≡ prints lookup_failure ∷ begins ∷ []
unfolding last_index
main-unknown_example =
    main-unknown a_world some_flags initial_properties a_log (10 ∷ 0 ∷ 0 ∷ 7 ∷ []) b'n'
      (runes "owhere") a_local_ip refl refl refl refl
