-- ===== src/Tests/Runs.antt =====
-- The runs of the program, at those of the tests.
use smudge.Prelude.{
  ◌≡◌, ◌≢◌, ◌∙◌, false, ◌==◌, if◌then◌else◌, refl, ap, true, some, none, inl, [], ◌∷◌, map, get_or,
  arith, ℕ_discrete,
}
use smudge.Prelude.Maps.{lookup}
use smudge.Prelude.Outcome.{ok}
use smudge.PingData.{new_ping_data}
use smudge.NodeMap.{contains}
use smudge.Net.{Address, ipv4, node_address_string, shortest, to4, Address-discrete}
use smudge.Cluster.{
  status_suspected, status_alive, status_dead, verb_ping, Cluster, deref, address, address_of,
  PingData,
}
use smudge.Registry.{create_node_by_ip}
use smudge.Registry.View.{view}
use smudge.Membership.{update_statuses_from_message}
use smudge.Membership.Merge.{news_of}
use smudge.Membership.Merge.Sender.{merge_message, update_statuses_from_message-merge}
use smudge.Membership.Backoff.{visit}
use smudge.Membership.Backoff.Visits.{
  is_known, Visited, Visited-known, Visited-forgotten, Visited-undialled, status-heap,
}
use smudge.Message.{Message, MessageMember}
use smudge.Membership.Timeouts.{timeout_check}
use smudge.System.{initial, begin, ticks, creates, Run, begun, then_step}
use smudge.System.Runs.{Lasts, begin-returns, Run-Lasts, Run-timeout_check}
use smudge.System.Hosts.{RunsOn, add_initial_hosts, add_initial_hosts-RunsOn}
use smudge.Prelude.Text.{runes}
use smudge.Registry.Addresses.{Resolver}
use smudge.Tests.{a_node, an_env, a_cluster, a_cluster-IsWellFormed}

abbrev a_ring : PingData
a_ring = new_ping_data 150 3

begin-returns_example :
    (c : Cluster) × (begin (initial an_env a_ring 50) (ipv4 10 0 0 1) ≡ ok c)
    × Lasts an_env (ipv4 10 0 0 1) c
    × (contains c c.known_nodes c.this_host ≡ true)
begin-returns_example = begin-returns an_env a_ring 50 (ipv4 10 0 0 1)

abbrev started : Cluster
started = (begin-returns an_env a_ring 50 (ipv4 10 0 0 1)).0

-- Begin, the clock goes on, and a node is made.
abbrev later : Cluster
later = (create_node_by_ip (record started { now = 80 }) (ipv4 10 0 0 9) 9999).0

a_history : Run an_env a_ring 50 (ipv4 10 0 0 1) later
a_history =
    then_step
      (then_step (begun (begin-returns an_env a_ring 50 (ipv4 10 0 0 1)).1)
        (ticks {c = started} 80))
      (creates (ipv4 10 0 0 9) 9999)

Run-Lasts_example : Lasts an_env (ipv4 10 0 0 1) later
Run-Lasts_example = Run-Lasts an_env a_ring 50 (ipv4 10 0 0 1) a_history

Run-timeout_check_example :
    (c' : Cluster) × (timeout_check later ≡ ok c') × Run an_env a_ring 50 (ipv4 10 0 0 1) c'
Run-timeout_check_example = Run-timeout_check an_env a_ring 50 (ipv4 10 0 0 1) later a_history

-- Node 1 says that this host is suspected.
abbrev a_suspicion : MessageMember
a_suspicion = record { source = none; heartbeat = 4; node = 0; status = status_suspected }

abbrev a_rumour : Message
a_rumour = record {
  sender = some 1;
  sender_heartbeat = 8;
  verb = verb_ping;
  members = a_suspicion ∷ [];
  broadcast = none;
}

sender-known : lookup Address-discrete (address_of a_cluster 1) a_cluster.known_nodes ≡ some 1
unfolding lookup deref address_of address node_address_string shortest to4 Address-discrete
    ℕ_discrete
sender-known = refl

host-known : lookup Address-discrete (address_of a_cluster 0) a_cluster.known_nodes ≡ some 0
unfolding lookup deref address_of address node_address_string shortest to4 Address-discrete
    ℕ_discrete
host-known = refl

two_addresses : address_of a_cluster 1 ≢ address_of a_cluster 0
unfolding deref address_of address node_address_string shortest to4
two_addresses e = omega (arith, ap (λ (a : Address). get_or a.host 3 0) e)

update_statuses_from_message-merge_example :
    (c' : Cluster) × (update_statuses_from_message a_cluster a_rumour ≡ ok c')
    × (view c'
        ≡ merge_message
            (address_of a_cluster 0)
            (view a_cluster)
            (map (news_of a_cluster) (a_suspicion ∷ []))
            (address_of a_cluster 1)
            8)
update_statuses_from_message-merge_example =
    update_statuses_from_message-merge a_cluster a_rumour 1 refl (omega arith) (inl sender-known)
      (two_addresses, tt) (omega arith, tt) (inl host-known, tt) (tt, tt) a_cluster-IsWellFormed

-- Node 1 is dead, and nothing can be dialled.
abbrev dead_end : Cluster
dead_end = record a_cluster {
  env = record an_env { can_dial = λ _. false };
  heap = a_node 1 status_alive ∷ a_node 2 status_dead ∷ [];
}

dead_end-dead : (deref dead_end 1).status ≡ status_dead
unfolding deref
dead_end-dead = refl

dead_end-unseen : lookup Address-discrete (address_of dead_end 1) dead_end.dead_node_retries ≡ none
unfolding lookup
dead_end-unseen = refl

-- After 2045 visits.
abbrev long_dead : Cluster
long_dead =
    (Visited-undialled 2045 dead_end 1 dead_end-unseen dead_end-dead (λ _. refl) (omega arith)).0

long_run : Visited 1 2045 dead_end long_dead
long_run =
    (Visited-undialled 2045 dead_end 1 dead_end-unseen dead_end-dead (λ _. refl) (omega arith)).1

long_dead-dead : (deref long_dead 1).status ≡ status_dead
long_dead-dead =
    status-heap dead_end long_dead 1
      (Visited-undialled 2045 dead_end 1 dead_end-unseen dead_end-dead (λ _. refl) (omega arith)).2
    ∙ dead_end-dead

Visited-known_example : is_known long_dead 1 ≡ is_known dead_end 1
Visited-known_example =
    Visited-known 2045 dead_end long_dead 1 dead_end-unseen (omega arith) long_run

Visited-forgotten_example :
    (e : Cluster) × (visit long_dead (λ k. k) 1 ≡ ok (e, false)) × (is_known e 1 ≡ false)
Visited-forgotten_example =
    Visited-forgotten dead_end long_dead 1 (λ k. k) dead_end-unseen long_run long_dead-dead

-- Of two initial hosts the first can be found.
abbrev a_lookup : Resolver
a_lookup = record {
  parse_ip = λ _. [];
  lookup_ip = λ name. elim name [
    | [] ↦ none
    | c ∷ s ↦ if c == b'a' then some (ipv4 10 0 0 6 ∷ []) else none
  ];
  listen_ip = ipv4 10 0 0 1;
  listen_port = 9999;
}

add_initial_hosts-RunsOn_example :
    RunsOn an_env a_ring 50
      (ipv4 10 0 0 1)
      (add_initial_hosts a_lookup later (runes "alpha" ∷ runes "beta" ∷ []))
add_initial_hosts-RunsOn_example =
    add_initial_hosts-RunsOn an_env a_ring 50 (ipv4 10 0 0 1) a_lookup
      (runes "alpha" ∷ runes "beta" ∷ []) later a_history
