-- ===== src/NodeMap.antt =====
-- nodeMap.go: a map from addresses to nodes. The locks are left out: each call is one step.
pub mod Random
pub mod Range
use smudge.Prelude.{
  ℕ, zero, suc, ◌+◌, ◌%◌, Bool, true, false, ◌||◌, not, Option, none, some, List, [], ◌∷◌, get_or,
  set, ltb, leb, ◌==◌, if◌then◌else◌,
}
use smudge.Prelude.Maps.{lookup, insert, remove, has_key}
use smudge.Prelude.Maps
use smudge.Prelude
use smudge.Net.{Ip, Address, Address-discrete, node_address_string}
use smudge.Cluster.{Cluster, Node, NodeStatus, Ref, deref, address_of}

abbrev pub NodeMap : Type 0
NodeMap = List (Address × Ref)

abbrev pub init : NodeMap
init = []

unfoldable pub add : Cluster → NodeMap → Ref → NodeMap
add c m node = insert Address-discrete (address_of c node) node m

unfoldable pub delete : Cluster → NodeMap → Ref → NodeMap
delete c m node = remove Address-discrete (address_of c node) m

unfoldable pub contains_by_address : NodeMap → Address → Bool
contains_by_address m address = has_key Address-discrete address m

unfoldable pub contains : Cluster → NodeMap → Ref → Bool
contains c m node = contains_by_address m (address_of c node)

unfoldable pub get_by_address : NodeMap → Address → Option Ref
get_by_address m address = lookup Address-discrete address m

unfoldable pub get_by_ip : Cluster → NodeMap → Ip → ℕ → Option Ref
get_by_ip c m ip port =
    let port' = if port == 0 then c.listen_port % 65536 else port in
    get_by_address m (node_address_string ip port')

abbrev pub length : NodeMap → ℕ
length m = Prelude.length m

unfoldable pub length_with_status_loop : Cluster → NodeStatus → ℕ → List Ref → ℕ
length_with_status_loop c status i [] = i
length_with_status_loop c status i (v ∷ vs) =
    length_with_status_loop c status (if (deref c v).status == status then i + 1 else i) vs

abbrev pub keys : NodeMap → List Address
keys = Maps.keys

abbrev pub values : NodeMap → List Ref
values = Maps.values

unfoldable pub length_with_status : Cluster → NodeMap → NodeStatus → ℕ
length_with_status c m status = length_with_status_loop c status 0 (values m)

-- `a[i], a[j] = a[j], a[i]`.
unfoldable pub swap : ℕ → ℕ → List Ref → List Ref
swap i j xs = set (set xs i (get_or xs j 0)) j (get_or xs i 0)

-- The shuffle, with `rounds` rounds left from `i` on. `draw i % (i + 1)` is what `rand.Intn(i + 1)`
-- returns in round `i`; each outcome is that of some `draw`.
unfoldable pub shuffle : (ℕ → ℕ) → ℕ → ℕ → List Ref → List Ref
shuffle draw zero i nodes = nodes
shuffle draw (suc rounds) i nodes = shuffle draw rounds (i + 1) (swap i (draw i % (i + 1)) nodes)

unfoldable pub same_address : Address → Address → Bool
same_address a b = elim (Address-discrete a b) [ yes _ ↦ true | no _ ↦ false ]

unfoldable pub excluded : Cluster → List Ref → Ref → Bool
excluded c [] n = false
excluded c (e ∷ exclude) n = same_address (address_of c n) (address_of c e) || excluded c exclude n

-- The loop that appends the nodes which are not excluded, `count` of them so far.
unfoldable pub pick : (Ref → Bool) → ℕ → ℕ → List Ref → List Ref
pick allowed size count [] = []
pick allowed size count (n ∷ nodes) =
    let skipped = pick allowed size count nodes in
    let more = pick allowed size (count + 1) nodes in
    if allowed n then (if leb size (count + 1) then n ∷ [] else n ∷ more) else skipped

unfoldable pub get_random_nodes : Cluster → NodeMap → (ℕ → ℕ) → ℕ → List Ref → List Ref
get_random_nodes c m draw size exclude =
    let all_nodes = values m in
    let size' = if size == 0 then Prelude.length all_nodes else size in
    pick (λ n. not (excluded c exclude n)) size' 0
      (shuffle draw (Prelude.length all_nodes) 0 all_nodes)
