-- ===== src/Net.antt =====
-- The parts of Go's package net that the program uses: IP addresses as byte slices, 4 or 16 long,
-- an IPv4 address also in its 16-byte form (::ffff:a.b.c.d).
use smudge.Prelude.{
  ℕ, Bool, true, false, ◌&&◌, Option, none, some, List, [], ◌∷◌, ◌++◌, length, take, drop,
  replicate, ◌==◌, if◌then◌else◌, ℕ_discrete,
}

abbrev pub Ip : Type 0
Ip = List ℕ

-- net.IPv4len and net.IPv6len.
abbrev pub ipv4_len : ℕ
ipv4_len = 4

abbrev pub ipv6_len : ℕ
ipv6_len = 16

abbrev pub list_eq : List ℕ → List ℕ → Bool
list_eq [] [] = true
list_eq [] (y ∷ ys) = false
list_eq (x ∷ xs) [] = false
list_eq (x ∷ xs) (y ∷ ys) = (x == y) && list_eq xs ys

abbrev pub v4_in_v6_prefix : List ℕ
v4_in_v6_prefix = replicate 10 0 ++ (255 ∷ 255 ∷ [])

-- `ip.To4()`, nil as none.
unfoldable pub to4 : Ip → Option Ip
to4 ip =
    if length ip == ipv4_len
    then some ip
    else (if (length ip == ipv6_len) && list_eq (take 12 ip) v4_in_v6_prefix
        then some (drop 12 ip)
        else none)

-- `ip.To16()`.
unfoldable pub to16 : Ip → Option Ip
to16 ip =
    if length ip == ipv4_len
    then some (v4_in_v6_prefix ++ ip)
    else (if length ip == ipv6_len then some ip else none)

-- `net.IPv4(a, b, c, d)`.
abbrev pub ipv4 : ℕ → ℕ → ℕ → ℕ → Ip
ipv4 a b c d = v4_in_v6_prefix ++ (a ∷ b ∷ c ∷ d ∷ [])

-- The 4-byte form where there is one, and the address itself where not.
abbrev pub or_self : Option Ip → Ip → Ip
or_self none ip = ip
or_self (some ip4) ip = ip4

unfoldable pub shortest : Ip → Ip
unfolding to4
shortest ip = or_self (to4 ip) ip

-- The address string "ip:port" of a node, as what it prints: `ip.String()` prints the two forms of
-- an IPv4 address alike, and other addresses differently.
pub record Address : Type 0 where
  pub host : Ip
  pub port : ℕ

unfoldable pub Address-discrete : Discrete Address
Address-discrete = hlevel ℕ_discrete

-- node.go: nodeAddressString.
unfoldable pub node_address_string : Ip → ℕ → Address
unfolding shortest
node_address_string ip port = record { host = shortest ip; port = port }
