-- ===== src/System/Hosts.antt =====
-- membership.go: Begin's loop over the initial hosts.
use smudge.Prelude.{◌≡◌, refl, ℕ, Option, none, some, List, [], ◌∷◌}
use smudge.Prelude.Outcome.{Outcome, ok, panic, ◌>>=◌}
use smudge.Prelude.Text.{Text}
use smudge.Net.{Ip}
use smudge.Cluster.{Cluster, Env, PingData, Ref}
use smudge.Registry.{add_node, create_node_by_ip}
use smudge.Registry.Known.{add_node-returns}
use smudge.Registry.Addresses.{
  Resolver, Error, parse_node_address, create_unless, create_node_by_address,
}
use smudge.Wire.Found.{create_node_by_ip-IsFound}
use smudge.System.{Run, then_step, creates, adds}
use smudge.System.Runs.{Run-Lasts}

-- An error is only logged. AddNode of a nil node would panic.
abbrev pub add_created : Cluster × (Option Ref × Option Error) → Outcome Cluster
add_created (c, (_, some e)) = ok c
add_created (c, (some node, none)) = add_node c node
add_created (c, (none, none)) = panic

unfoldable pub add_initial_hosts : Resolver → Cluster → List Text → Outcome Cluster
add_initial_hosts r c [] = ok c
add_initial_hosts r c (address ∷ addresses) = do
  c1 ← add_created (create_node_by_address r c address)
  add_initial_hosts r c1 addresses

module _ (env : Env) (pingdata : PingData) (now : ℕ) (listen_ip : Ip) where
  -- A call returns, and the run has come to what it returns.
  abbrev pub RunsOn : Outcome Cluster → Type 0
  RunsOn o = (c : Cluster) × (o ≡ ok c) × Run env pingdata now listen_ip c

  add_created-RunsOn :
      (c : Cluster) (t : Ip × ℕ × Option Error)
      → Run env pingdata now listen_ip c
      → RunsOn (add_created (create_unless c t))
  add_created-RunsOn c (ip, port, some e) run = (c, refl, run)
  add_created-RunsOn c (ip, port, none) run =
      let w = (Run-Lasts env pingdata now listen_ip run).well_formed in
      let (c1, node) = create_node_by_ip c ip port in
      let (s, inside) = create_node_by_ip-IsFound c ip port w in
      let (c2, e, added) = add_node-returns c1 node inside s.well_formed in
      (c2, e, then_step (then_step run (creates ip port)) (adds node inside e))

  -- In every state of a run the loop over the initial hosts returns without a panic, whatever the
  -- texts of their addresses and whatever the lookups answer, and the run goes on with what it
  -- returns.
  pub add_initial_hosts-RunsOn :
      (r : Resolver) (addresses : List Text) (c : Cluster)
      → Run env pingdata now listen_ip c
      → RunsOn (add_initial_hosts r c addresses)
  unfolding add_initial_hosts create_node_by_address
  add_initial_hosts-RunsOn r [] c run = (c, refl, run)
  add_initial_hosts-RunsOn r (address ∷ addresses) c run =
      let (c1, e1, run1) = add_created-RunsOn c (parse_node_address r address) run in
      let (c2, e2, run2) = add_initial_hosts-RunsOn r addresses c1 run1 in (c2, rw e1 e2, run2)
