-- ===== src/Registry/Addresses/Lost.antt =====
-- registry.go: the error of parseNodeAddress that is lost.
use smudge.Prelude.{ℕ, ◌%◌, ◌^◌, ◌≡◌, refl, ap, ◌∙◌, true, none, some, List, [], ◌∷◌, length, All}
use smudge.Prelude.Text.{Text}
use smudge.Net.{Ip}
use smudge.Cluster.{Cluster, Node, deref, alloc}
use smudge.Cluster.Heap.{deref-alloc_new}
use smudge.Registry.{create_node_by_ip}
use smudge.Registry.Addresses.{
  is_loopback, last_index, split_at, split_host_port, Resolver, choose_ip, resolve, looked_up,
  parse_split, parse_node_address, create_node_by_address,
}

choose_ip-loopbacks :
    (listen_ip : Ip) (ips : List Ip)
    → All (λ i. is_loopback i ≡ true) ips
    → choose_ip listen_ip ips ≡ []
unfolding choose_ip
choose_ip-loopbacks listen_ip [] h = refl
choose_ip-loopbacks listen_ip (i ∷ ips) h = rw h.0 (choose_ip-loopbacks listen_ip ips h.1)

parse_node_address-lost :
    (r : Resolver) (name : Text) (ips : List Ip)
    → last_index b':' name ≡ none
    → r.parse_ip name ≡ []
    → r.lookup_ip name ≡ some ips
    → All (λ i. is_loopback i ≡ true) ips
    → parse_node_address r name ≡ ([], r.listen_port % 2 ^ 16, none)
unfolding parse_node_address split_host_port
parse_node_address-lost r name ips no_port no_ip found loopbacks =
    ap (λ i. parse_split r name (split_at name i)) no_port
    ∙ ap (λ ip. resolve r name ip (r.listen_port % 2 ^ 16, none)) no_ip
    ∙ ap (looked_up r (r.listen_port % 2 ^ 16) none) found
    ∙ ap (λ ip. (ip, r.listen_port % 2 ^ 16, none)) (choose_ip-loopbacks r.listen_ip ips loopbacks)

create_node_by_ip-ip :
    (c : Cluster) (ip : Ip) (port : ℕ)
    → ((create_node_by_ip c ip port).1 ≡ length c.heap)
      × ((deref (create_node_by_ip c ip port).0 (length c.heap)).ip ≡ ip)
unfolding create_node_by_ip
create_node_by_ip-ip c ip port =
    (unfold alloc in refl, unfold alloc in ap (λ (n : Node). n.ip) (deref-alloc_new c _))

-- CreateNodeByAddress makes a node without an IP, and returns no error, for a name without a port of
-- which the lookup finds loopback addresses only: the error that parseNodeAddress makes then is
-- assigned to a variable that shadows the one it returns.
pub create_node_by_address-lost :
    (r : Resolver) (c : Cluster) (name : Text) (ips : List Ip)
    → last_index b':' name ≡ none
    → r.parse_ip name ≡ []
    → r.lookup_ip name ≡ some ips
    → All (λ i. is_loopback i ≡ true) ips
    → ((create_node_by_address r c name).1 ≡ (some (length c.heap), none))
      × ((deref (create_node_by_address r c name).0 (length c.heap)).ip ≡ [])
unfolding create_node_by_address
create_node_by_address-lost r c name ips no_port no_ip found loopbacks =
    let e = parse_node_address-lost r name ips no_port no_ip found loopbacks in
    let made = create_node_by_ip-ip c [] (r.listen_port % 2 ^ 16) in
    rw e (ap (λ n. (some n, none)) made.0, made.1)
