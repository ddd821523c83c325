-- ===== src/Registry/Addresses/Local.antt =====
-- registry.go: which address GetLocalIP gives.
use smudge.Prelude.{
  ◌≡◌, refl, ap, not, true, false, Bool-cases, Option, Option-cases, none, some, inl, inr, List, [],
  ◌∷◌, map,
}
use smudge.Prelude.Count.{keep}
use smudge.Net.{Ip, to4}
use smudge.Registry.Addresses.{is_some, is_loopback, is_v4, local_loop, get_local_ip}

abbrev somes {ℓ} : {A : Type ℓ} → List (Option A) → List A
somes [] = []
somes (none ∷ xs) = somes xs
somes (some x ∷ xs) = x ∷ somes xs

abbrev pub first_or {ℓ} : {A : Type ℓ} → A → List A → A
first_or other [] = other
first_or other (x ∷ xs) = x

abbrev pub last_or {ℓ} : {A : Type ℓ} → A → List A → A
last_or other [] = other
last_or other (x ∷ xs) = last_or x xs

-- The addresses that are no loopback; those of them that are IPv4, as 4 bytes; and those that are not.
abbrev pub outward : List (Option Ip) → List Ip
outward addrs = keep (λ a. not (is_loopback a)) (somes addrs)

abbrev pub outward_v4 : List (Option Ip) → List Ip
outward_v4 addrs = somes (map to4 (outward addrs))

abbrev pub outward_v6 : List (Option Ip) → List Ip
outward_v6 addrs = keep (λ a. not (is_v4 a)) (outward addrs)

is_v4-none : (a : Ip) → to4 a ≡ none → is_v4 a ≡ false
unfolding is_v4
is_v4-none a e = ap is_some e

is_v4-some : (a v : Ip) → to4 a ≡ some v → is_v4 a ≡ true
unfolding is_v4
is_v4-some a v e = ap is_some e

local_loop-lem :
    (addrs : List (Option Ip)) (ip : Ip)
    → local_loop ip addrs ≡ first_or (last_or ip (outward_v4 addrs)) (outward_v6 addrs)
unfolding local_loop keep
local_loop-lem [] ip = refl
local_loop-lem (none ∷ addrs) ip = local_loop-lem addrs ip
local_loop-lem (some a ∷ addrs) ip = elim (Bool-cases (is_loopback a)) [
  | inl loopback ↦ rw loopback (local_loop-lem addrs ip)
  | inr out ↦ elim (Option-cases (to4 a)) [
    | inl v6 ↦ rw (out, v6, is_v4-none a v6) refl
    | inr (v, v4) ↦ rw (out, v4, is_v4-some a v v4) (local_loop-lem addrs v)
  ]
]

-- GetLocalIP gives the first address of an interface that is neither a loopback nor IPv4; if there is
-- none, the last IPv4 address that is no loopback, in its 4-byte form; and if there is none either,
-- the nil IP.
pub get_local_ip-lem :
    (addrs : List (Option Ip))
    → get_local_ip (some addrs) ≡ some (first_or (last_or [] (outward_v4 addrs)) (outward_v6 addrs))
unfolding get_local_ip
get_local_ip-lem addrs = ap some (local_loop-lem addrs [])
