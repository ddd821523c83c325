-- ===== src/Membership/Multicast/Interface.antt =====
-- membership.go: the interface that getListenInterface finds for the listen IP, and the multicast
-- address of guessMulticastAddress.
use smudge.Prelude.{
  ℕ, ◌≡◌, ◌≢◌, ◌⊎◌, refl, ap, subst, ◌∙◌, ==_iff, Bool, true, false, Bool-cases, Option, none, some,
  inl, inr, List, [], ◌∷◌, ◌++◌, All, ◌==◌, if◌then◌else◌, arith,
}
use smudge.Prelude.Text.{Text}
use smudge.Net.{Ip, list_eq, shortest}

-- net.Interface. `addrs` is what `Addrs()` answers, none if it fails; an address that ParseCIDR
-- refuses is none.
pub record Interface : Type 0 where
  pub name : Text
  pub addrs : Option (List (Option Ip))

-- `ip.String() == other.String()`.
unfoldable pub prints_alike : Ip → Ip → Bool
prints_alike ip other = list_eq (shortest ip) (shortest other)

-- The loop over the addresses of an interface.
unfoldable pub has_listen_ip : Ip → List (Option Ip) → Bool
has_listen_ip listen_ip [] = false
has_listen_ip listen_ip (none ∷ addrs) = has_listen_ip listen_ip addrs
has_listen_ip listen_ip (some ip ∷ addrs) =
    let rest = has_listen_ip listen_ip addrs in if prints_alike ip listen_ip then true else rest

abbrev pub check_interface :
    Ip → Interface → Option (List (Option Ip)) → Option Interface → Option Interface
check_interface listen_ip iface none rest = rest
check_interface listen_ip iface (some addrs) rest =
    if has_listen_ip listen_ip addrs then some iface else rest

unfoldable pub interface_loop : Ip → List Interface → Option Interface
interface_loop listen_ip [] = none
interface_loop listen_ip (iface ∷ ifaces) =
    let rest = interface_loop listen_ip ifaces in check_interface listen_ip iface iface.addrs rest

-- `ifaces` is what net.Interfaces answers, none if it fails; the result is none with the error.
unfoldable pub get_listen_interface : Option (List Interface) → Ip → Option Interface
get_listen_interface none listen_ip = none
get_listen_interface (some ifaces) listen_ip = interface_loop listen_ip ifaces

list_eq-eq : (xs ys : List ℕ) → list_eq xs ys ≡ true → xs ≡ ys
list_eq-eq [] [] h = refl
list_eq-eq [] (y ∷ ys) h = absurd (ground arith)
list_eq-eq (x ∷ xs) [] h = absurd (ground arith)
list_eq-eq (x ∷ xs) (y ∷ ys) h = elim (Bool-cases (x == y)) [
  | inl same ↦
      ap (λ z. z ∷ xs) ((==_iff x y).0 same) ∙ ap (λ zs. y ∷ zs) (list_eq-eq xs ys (rw same at h))
  | inr other ↦ absurd (ground arith)
]

list_eq_refl : (xs : List ℕ) → list_eq xs xs ≡ true
list_eq_refl [] = refl
list_eq_refl (x ∷ xs) = ground (arith, list_eq_refl xs)

prints_alike-eq : (ip other : Ip) → prints_alike ip other ≡ true → shortest ip ≡ shortest other
unfolding prints_alike
prints_alike-eq ip other h = list_eq-eq (shortest ip) (shortest other) h

prints_alike-ne : (ip other : Ip) → prints_alike ip other ≡ false → shortest ip ≢ shortest other
unfolding prints_alike
prints_alike-ne ip other h e =
    let same = subst (λ s. list_eq (shortest ip) s ≡ true) e (list_eq_refl (shortest ip)) in
    absurd (ground arith)

-- Whether one of the addresses prints as the listen IP.
abbrev pub HasAddr : Ip → List (Option Ip) → Type 0
HasAddr listen_ip [] = ⊥
HasAddr listen_ip (none ∷ addrs) = HasAddr listen_ip addrs
HasAddr listen_ip (some ip ∷ addrs) = (shortest ip ≡ shortest listen_ip) ⊎ HasAddr listen_ip addrs

abbrev pub AmongThem : Ip → Option (List (Option Ip)) → Type 0
AmongThem listen_ip none = ⊥
AmongThem listen_ip (some addrs) = HasAddr listen_ip addrs

abbrev pub Bears : Ip → Interface → Type 0
Bears listen_ip iface = AmongThem listen_ip iface.addrs

-- The first interface that bears the listen IP, or none where no one does.
abbrev pub IsFirst : Ip → List Interface → Option Interface → Type 0
IsFirst listen_ip ifaces none = All (λ i. ¬ Bears listen_ip i) ifaces
IsFirst listen_ip ifaces (some iface) =
    (before after : List Interface) × (ifaces ≡ before ++ (iface ∷ after))
    × All (λ i. ¬ Bears listen_ip i) before
    × Bears listen_ip iface

has_listen_ip-HasAddr :
    (listen_ip : Ip) (addrs : List (Option Ip))
    → has_listen_ip listen_ip addrs ≡ true
    → HasAddr listen_ip addrs
unfolding has_listen_ip
has_listen_ip-HasAddr listen_ip [] h = absurd (ground arith)
has_listen_ip-HasAddr listen_ip (none ∷ addrs) h = has_listen_ip-HasAddr listen_ip addrs h
has_listen_ip-HasAddr listen_ip (some ip ∷ addrs) h =
    elim (Bool-cases (prints_alike ip listen_ip)) [
      | inl alike ↦ inl (prints_alike-eq ip listen_ip alike)
      | inr other ↦ inr (has_listen_ip-HasAddr listen_ip addrs (rw other at h))
    ]

has_listen_ip-HasNone :
    (listen_ip : Ip) (addrs : List (Option Ip))
    → has_listen_ip listen_ip addrs ≡ false
    → ¬ HasAddr listen_ip addrs
unfolding has_listen_ip
has_listen_ip-HasNone listen_ip [] h m = m
has_listen_ip-HasNone listen_ip (none ∷ addrs) h m = has_listen_ip-HasNone listen_ip addrs h m
has_listen_ip-HasNone listen_ip (some ip ∷ addrs) h m =
    elim (Bool-cases (prints_alike ip listen_ip)) [
      | inl alike ↦ absurd (ground arith)
      | inr other ↦ elim m [
        | inl same ↦ prints_alike-ne ip listen_ip other same
        | inr rest ↦ has_listen_ip-HasNone listen_ip addrs (rw other at h) rest
      ]
    ]

check_interface-cases :
    (listen_ip : Ip) (iface : Interface) (addrs : Option (List (Option Ip)))
    (rest : Option Interface)
    → ((check_interface listen_ip iface addrs rest ≡ some iface) × AmongThem listen_ip addrs)
      ⊎ ((check_interface listen_ip iface addrs rest ≡ rest) × ¬ AmongThem listen_ip addrs)
check_interface-cases listen_ip iface none rest = inr (refl, λ m. m)
check_interface-cases listen_ip iface (some addrs) rest =
    elim (Bool-cases (has_listen_ip listen_ip addrs)) [
      | inl has ↦ inl (rw has refl, has_listen_ip-HasAddr listen_ip addrs has)
      | inr not_here ↦ inr (rw not_here refl, has_listen_ip-HasNone listen_ip addrs not_here)
    ]

IsFirst-behind :
    (listen_ip : Ip) (iface : Interface) (ifaces : List Interface) (found : Option Interface)
    → ¬ Bears listen_ip iface
    → IsFirst listen_ip ifaces found
    → IsFirst listen_ip (iface ∷ ifaces) found
IsFirst-behind listen_ip iface ifaces none bare first = (bare, first)
IsFirst-behind listen_ip iface ifaces (some i) bare (before, after, parts, none_before, bears) =
    (iface ∷ before, after, ap (λ t. iface ∷ t) parts, (bare, none_before), bears)

interface_loop-IsFirst :
    (listen_ip : Ip) (ifaces : List Interface)
    → IsFirst listen_ip ifaces (interface_loop listen_ip ifaces)
unfolding interface_loop
interface_loop-IsFirst listen_ip [] = tt
interface_loop-IsFirst listen_ip (iface ∷ ifaces) =
    let rest = interface_loop listen_ip ifaces in
    elim (check_interface-cases listen_ip iface iface.addrs rest) [
      | inl (here, bears) ↦ rw here ([], ifaces, refl, tt, bears)
      | inr (behind, bare) ↦ rw behind (
          IsFirst-behind listen_ip iface ifaces rest bare (interface_loop-IsFirst listen_ip ifaces))
    ]

-- Where the interfaces can be read, getListenInterface gives the first one that has an address printed
-- as the listen IP is, and none, with the error, if no interface has one.
pub get_listen_interface-IsFirst :
    (ifaces : List Interface) (listen_ip : Ip)
    → IsFirst listen_ip ifaces (get_listen_interface (some ifaces) listen_ip)
unfolding get_listen_interface
get_listen_interface-IsFirst ifaces listen_ip = interface_loop-IsFirst listen_ip ifaces
