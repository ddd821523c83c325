-- ===== src/Registry/Addresses.antt =====
-- registry.go: node addresses as texts, and the addresses of this host's interfaces. A nil IP has no
-- bytes.
pub mod Parse
pub mod Lost
pub mod Local
pub mod Places
use smudge.Prelude.{
  ℕ, zero, suc, ◌+◌, ◌-◌, ◌*◌, ◌%◌, ◌^◌, Bool, true, false, Option, none, some, List, [], ◌∷◌, take,
  drop, length, get_or, ltb, leb, ◌==◌, if◌then◌else◌, ◌&&◌, ℕ_discrete, replicate, ◌++◌, ite,
}
use smudge.Prelude.Text.{Text}
use smudge.Net.{Ip, to4, list_eq}
use smudge.Cluster.{Cluster, Ref}
use smudge.Registry.{create_node_by_ip}

abbrev pub is_some {ℓ} : {A : Type ℓ} → Option A → Bool
is_some none = false
is_some (some a) = true

abbrev pub ipv6_loopback : Ip
ipv6_loopback = replicate 15 0 ++ (1 ∷ [])

-- net.IP.IsLoopback: 127.x.x.x, or ::1.
abbrev pub loopback_as : Ip → Option Ip → Bool
loopback_as ip (some v4) = get_or v4 0 0 == 127
loopback_as ip none = list_eq ip ipv6_loopback

unfoldable pub is_loopback : Ip → Bool
is_loopback ip = loopback_as ip (to4 ip)

-- The loop of GetLocalIP; an address of an interface that is no *net.IPNet is none.
abbrev pub local_step : (Ip → Ip) → Ip → Ip → Option Ip → Ip
local_step rest ip a (some v4) = rest v4
local_step rest ip a none = a

unfoldable pub local_loop : Ip → List (Option Ip) → Ip
local_loop ip [] = ip
local_loop ip (none ∷ addrs) = local_loop ip addrs
local_loop ip (some a ∷ addrs) =
    let skipped = local_loop ip addrs in
    let taken = local_step (λ v. local_loop v addrs) ip a (to4 a) in
    if is_loopback a then skipped else taken

-- GetLocalIP; `addrs` is what net.InterfaceAddrs gives, none if it fails.
unfoldable pub get_local_ip : Option (List (Option Ip)) → Option Ip
get_local_ip none = none
get_local_ip (some addrs) = some (local_loop [] addrs)

-- The place of the first and of the last such character.
unfoldable pub index_byte : ℕ → Text → Option ℕ
index_byte c [] = none
index_byte c (d ∷ s) =
    let rest = index_byte c s in
    if d == c then some 0 else elim rest [ none ↦ none | some i ↦ some (suc i) ]

unfoldable pub last_index : ℕ → Text → Option ℕ
last_index c [] = none
last_index c (d ∷ s) = elim (last_index c s) [
  | some i ↦ some (suc i)
  | none ↦ if d == c then some 0 else none
]

abbrev pub has : ℕ → Text → Bool
has c s = is_some (index_byte c s)

-- net.SplitHostPort. Its errors: the port is missing, there are too many colons, or a bracket is
-- out of place.
pub data AddrError : Type 0 where
  missing_port too_many_colons missing_bracket unexpected_bracket : AddrError

pub data Parsed (A : Type 0) : Type 0 where
  parsed : A → Parsed A
  failed : AddrError → Parsed A

-- The checks behind those of the host, with the places `j` and `k` from which brackets are sought,
-- and the place `i` of the last colon.
abbrev pub split_port : Text → ℕ → ℕ → ℕ → Text → Parsed (Text × Text)
split_port hostport i j k host =
    if has b'[' (drop j hostport)
    then failed unexpected_bracket
    else (if has b']' (drop k hostport)
        then failed unexpected_bracket
        else parsed (host, drop (i + 1) hostport))

abbrev pub split_bracketed : Text → ℕ → Option ℕ → Parsed (Text × Text)
split_bracketed hostport i none = failed missing_bracket
split_bracketed hostport i (some end) =
    if end + 1 == length hostport
    then failed missing_port
    else (if end + 1 == i
        then split_port hostport i 1 (end + 1) (take (end - 1) (drop 1 hostport))
        else (if get_or hostport (end + 1) 0 == b':'
            then failed too_many_colons
            else failed missing_port))

abbrev pub split_at : Text → Option ℕ → Parsed (Text × Text)
split_at hostport none = failed missing_port
split_at hostport (some i) =
    if get_or hostport 0 0 == b'['
    then split_bracketed hostport i (index_byte b']' hostport)
    else (if has b':' (take i hostport)
        then failed too_many_colons
        else split_port hostport i 0 0 (take i hostport))

unfoldable pub split_host_port : Text → Parsed (Text × Text)
split_host_port hostport = split_at hostport (last_index b':' hostport)

-- The errors that parseNodeAddress returns.
pub data Error : Type 0 where
  bad_syntax out_of_range lookup_failure : Error

-- strconv.ParseUint(s, 10, 16), with `value` read so far.
unfoldable pub parse_uint16_loop : ℕ → Text → ℕ × Option Error
parse_uint16_loop value [] = (value, none)
parse_uint16_loop value (c ∷ s) =
    let value' = value * 10 + (c - 48) in
    let rest = parse_uint16_loop value' s in
    if leb 48 c && leb c 57
    then (if ltb 65535 value' then (65535, some out_of_range) else rest)
    else (0, some bad_syntax)

abbrev pub parse_uint16 : Text → ℕ × Option Error
parse_uint16 [] = (0, some bad_syntax)
parse_uint16 (c ∷ s) = parse_uint16_loop 0 (c ∷ s)

-- Package net's ParseIP and LookupIP, the settings GetListenIP and GetListenPort, which
-- parseNodeAddress reads.
pub record Resolver : Type 0 where
  pub parse_ip : Text → Ip
  pub lookup_ip : Text → Option (List Ip)
  pub listen_ip : Ip
  pub listen_port : ℕ

unfoldable pub is_v4 : Ip → Bool
is_v4 ip = is_some (to4 ip)

-- The loop over the addresses of a name: the first that is no loopback and of this host's family.
unfoldable pub choose_ip : Ip → List Ip → Ip
choose_ip listen_ip [] = []
choose_ip listen_ip (i ∷ ips) =
    let rest = choose_ip listen_ip ips in
    if is_loopback i
    then rest
    else (if is_v4 listen_ip && is_v4 i
        then i
        else (if is_v4 listen_ip then rest else (if is_v4 i then rest else i)))

-- `port` and `err` as they were; the error for a name none of whose addresses will do is assigned to
-- another `err`, which no one reads.
abbrev pub looked_up : Resolver → ℕ → Option Error → Option (List Ip) → Ip × ℕ × Option Error
looked_up r port err none = ([], port, some lookup_failure)
looked_up r port err (some ips) = (choose_ip r.listen_ip ips, port, err)

abbrev pub resolve : Resolver → Text → Ip → ℕ × Option Error → Ip × ℕ × Option Error
resolve r host [] (port, err) = looked_up r port err (r.lookup_ip host)
resolve r host (b ∷ ip) (port, err) = (b ∷ ip, port, err)

abbrev pub port_or : ℕ → Text → ℕ × Option Error
port_or port [] = (port, none)
port_or port (c ∷ s) = parse_uint16 (c ∷ s)

abbrev pub parse_split : Resolver → Text → Parsed (Text × Text) → Ip × ℕ × Option Error
parse_split r text (parsed (host, sport)) =
    resolve r host (r.parse_ip host) (port_or (r.listen_port % 2 ^ 16) sport)
parse_split r text (failed e) = resolve r text (r.parse_ip text) (r.listen_port % 2 ^ 16, none)

unfoldable pub parse_node_address : Resolver → Text → Ip × ℕ × Option Error
parse_node_address r text = parse_split r text (split_host_port text)

-- The node, or the error.
abbrev pub create_unless : Cluster → Ip × ℕ × Option Error → Cluster × (Option Ref × Option Error)
create_unless c (ip, port, some e) = (c, (none, some e))
create_unless c (ip, port, none) = let (c1, r) = create_node_by_ip c ip port in (c1, (some r, none))

unfoldable pub create_node_by_address :
    Resolver → Cluster → Text → Cluster × (Option Ref × Option Error)
create_node_by_address resolver c text = create_unless c (parse_node_address resolver text)
