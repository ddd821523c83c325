-- ===== src/Tests/Settings.antt =====
-- The settings, the addresses and the log, at those of the tests.
use smudge.Prelude.{
  ◌≡◌, refl, false, Option, none, some, List, [], ◌∷◌, ◌++◌, map, arith, leb, ◌==◌, if◌then◌else◌,
}
use smudge.Prelude.Count.{keep}
use smudge.Prelude.Text.{Text, runes, pos, is_space}
use smudge.Prelude.Numerals.{value_of, numeral}
use smudge.Net.{Ip, ipv4, to4}
use smudge.Cluster.{deref}
use smudge.Properties.{Environ, initial_properties}
use smudge.Properties.Split.{split_delimmited_string, is_blank}
use smudge.Properties.Split.Words.{Separator, gap, comma, join, second}
use smudge.Properties.Split.RoundTrip.{split_delimmited_string-join}
use smudge.Properties.Settings.{SetThenGet, set_then_get}
use smudge.Log.{Entry, operands, default_logger, Logging}
use smudge.Log.Filter.{log_each, output_of, log_each-keep}
use smudge.Registry.Addresses.{
  Resolver, get_local_ip, is_loopback, last_index, parse_node_address, create_node_by_address,
}
use smudge.Registry.Addresses.Local.{first_or, last_or, outward_v4, outward_v6, get_local_ip-lem}
use smudge.Registry.Addresses.Parse.{bracketed, written, parse_node_address-written}
use smudge.Registry.Addresses.Lost.{create_node_by_address-lost}
use smudge.Tests.{a_cluster}

abbrev rest_of_hosts : List (Separator × Text)
rest_of_hosts = (comma (runes " ") (runes "  "), runes "d") ∷ (gap b' ' [], runes "c") ∷ []

split_delimmited_string-join_example :
    split_delimmited_string (runes " " ++ (join (runes "ab") rest_of_hosts ++ runes "  "))
    ≡ some (runes "ab" ∷ map second rest_of_hosts)
unfolding is_space is_blank
split_delimmited_string-join_example =
    split_delimmited_string-join (runes " ") (runes "ab") rest_of_hosts (runes "  ") (refl, tt)
      (
        ((refl, omega arith), ((refl, omega arith), tt)),
        (
          (((refl, tt), (refl, (refl, tt))), ((refl, omega arith), tt)),
          (((refl, tt), ((refl, omega arith), tt)), tt),
        ),
      )
      (refl, (refl, tt))

abbrev an_environ : Environ
an_environ key = runes "-750"

abbrev no_ips : Text → Option Ip
no_ips text = none

set_then_get_example :
    SetThenGet an_environ initial_properties (pos 0) [] (runes "[ff02::1]") false no_ips none
set_then_get_example =
    set_then_get an_environ initial_properties (pos 0) [] (runes "[ff02::1]") false no_ips none

abbrev some_entries : List Entry
some_entries =
    record { level = 2; content = operands (runes "quiet") }
    ∷ record { level = 5; content = operands (runes "loud") }
    ∷ []

abbrev a_log : Logging
a_log = record { log_threshhold = 3; logger = default_logger; outputs = [] }

log_each-keep_example : log_each (runes "now") a_log some_entries ≡ record a_log {
  outputs = map (output_of (runes "now") default_logger) (keep (λ e. leb 3 e.level) some_entries);
}
log_each-keep_example = log_each-keep (runes "now") some_entries a_log

abbrev interfaces : List (Option Ip)
interfaces = some (ipv4 127 0 0 1) ∷ none ∷ some (ipv4 10 0 0 7) ∷ []

get_local_ip-lem_example :
    get_local_ip (some interfaces)
    ≡ some (first_or (last_or [] (outward_v4 interfaces)) (outward_v6 interfaces))
get_local_ip-lem_example = get_local_ip-lem interfaces

-- ParseIP, of a text that begins with a colon and of any other.
abbrev resolves : Text → Ip
resolves [] = []
resolves (c ∷ s) = if c == b':' then ipv4 10 0 0 9 else []

abbrev a_resolver : Resolver
a_resolver = record {
  parse_ip = resolves;
  lookup_ip = λ _. some (ipv4 127 0 0 1 ∷ []);
  listen_ip = ipv4 10 0 0 1;
  listen_port = 9999;
}

parse_node_address-written_example :
    parse_node_address a_resolver (written bracketed (runes "::9") (numeral (8 ∷ 0 ∷ [])))
    ≡ (ipv4 10 0 0 9, 80, none)
unfolding value_of
parse_node_address-written_example =
    parse_node_address-written a_resolver bracketed (runes "::9") (8 ∷ 0 ∷ []) 0 _
      (omega arith, (omega arith, (omega arith, tt)))
      (omega arith, (omega arith, (omega arith, tt))) tt (omega arith, (omega arith, tt))
      (omega arith) refl

create_node_by_address-lost_example :
    ((create_node_by_address a_resolver a_cluster (runes "me")).1 ≡ (some 3, none))
    × ((deref (create_node_by_address a_resolver a_cluster (runes "me")).0 3).ip ≡ [])
unfolding last_index is_loopback to4
create_node_by_address-lost_example =
    create_node_by_address-lost a_resolver a_cluster (runes "me") (ipv4 127 0 0 1 ∷ []) refl refl
      refl (refl, tt)
