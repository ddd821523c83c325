-- ===== src/System/Runs.antt =====
-- What lasts in every run of the program (membership.go: Begin).
use smudge.Prelude.{
  ℕ, zero, suc, ◌%◌, ◌^◌, ◌≤◌, ◌<◌, ◌≡◌, ◌≢◌, refl, sym, ◌∙◌, subst, true, some, length, arith,
  if◌then◌else◌,
}
use smudge.Prelude.Outcome.{ok}
use smudge.Registry.Addresses.{is_v4}
use smudge.Net.{Ip, ipv4_len, ipv6_len, Address, node_address_string}
use smudge.NodeMap
use smudge.Cluster.{
  Cluster, Env, PingData, status_alive, status_forward_to, deref, alloc, address, address_of,
}
use smudge.Registry.{update_node_status}
use smudge.Registry.Invariant.{update_node_status-Sound}
use smudge.Registry.Known.{add_node-returns}
use smudge.Registry.WellFormed.{IsWellFormed, Sound-Held}
use smudge.Membership.Timeouts.{timeout_check}
use smudge.Membership.Timeouts.Held.{timeout_check-returns}
use smudge.System.{
  initial, choose_ip_len, init_global_host_environment, begin, checks, Run, begun, then_step,
}
use smudge.System.Steps.{Stays, Held-Stays, Step-Stays, ok-inj}

-- The IP length that Begin chooses for a listen IP.
abbrev pub ip_len_for : Ip → ℕ
ip_len_for listen_ip = if is_v4 listen_ip then ipv4_len else ipv6_len

-- The address at which this host listens.
abbrev pub home : Env → Ip → Address
home env listen_ip = node_address_string listen_ip (env.listen_port % 2 ^ 16)

-- What is so in every state of a run.
pub record Lasts (env : Env) (listen_ip : Ip) (c : Cluster) : Type 0 where
  pub well_formed : IsWellFormed c
  pub at_ip_len : c.ip_len ≡ ip_len_for listen_ip
  pub at_home : address_of c c.this_host ≡ home env listen_ip

Lasts-Stays : (env : Env) (ip : Ip) (c c' : Cluster) → Lasts env ip c → Stays c c' → Lasts env ip c'
Lasts-Stays env ip c c' l h = record {
  well_formed = h.well_formed;
  at_ip_len = h.same_ip_len ∙ l.at_ip_len;
  at_home =
      subst (λ r. address_of c' r ≡ home env ip) (sym h.same_host)
        (h.keeps c.this_host l.well_formed.host_lt ∙ l.at_home);
}

module _ (env : Env) (pingdata : PingData) (now : ℕ) (ip : Ip) where
  abbrev c0 : Cluster
  c0 = initial env pingdata now

  abbrev c1 : Cluster
  c1 = init_global_host_environment (choose_ip_len c0 ip) ip

  host_status : (r : ℕ) → r < length c1.heap → (deref c1 r).status ≢ status_forward_to
  unfolding init_global_host_environment choose_ip_len alloc deref
  host_status zero h = omega arith
  host_status (suc r) h = absurd (omega arith)

  host_fresh : (deref c1 c1.this_host).heartbeat ≤ 0
  unfolding init_global_host_environment choose_ip_len alloc deref
  host_fresh = omega arith

  c1-Lasts : Lasts env ip c1
  unfolding init_global_host_environment choose_ip_len alloc address_of deref address
  c1-Lasts = record {
    well_formed = record {
      known = tt;
      updated = tt;
      known_distinct = tt;
      updated_distinct = tt;
      host_lt = omega arith;
      statuses = host_status;
      acks = tt;
      duties = tt;
    };
    at_ip_len = refl;
    at_home = refl;
  }

  -- Begin's first steps return: they leave a well-formed state in which this host is known, at the
  -- address at which it listens, with 4 bytes for an IP, or 16 if the listen IP is not IPv4.
  pub begin-returns :
      (c : Cluster) × (begin c0 ip ≡ ok c)
      × Lasts env ip c
      × (NodeMap.contains c c.known_nodes c.this_host ≡ true)
  unfolding begin
  begin-returns =
      let w = c1-Lasts.well_formed in
      let s =
        update_node_status-Sound c1 c1.this_host status_alive 0 (some c1.this_host) w.host_lt
          (omega arith) host_fresh w in
      let c2 = update_node_status c1 c1.this_host status_alive 0 (some c1.this_host) in
      let (c, e, a) =
        add_node-returns c2 c1.this_host (omega (arith, w.host_lt, s.grows.longer)) s.well_formed in
      (
        c,
        e,
        Lasts-Stays env ip c2 c
            (Lasts-Stays env ip c1 c2 c1-Lasts (Held-Stays c1 c2 (Sound-Held c1 c2 s)))
            (Held-Stays c2 c (Sound-Held c2 c a.sound)),
        subst (λ r. NodeMap.contains c c.known_nodes r ≡ true)
            (sym (a.sound.grows.same_host ∙ s.grows.same_host)) a.present,
      )

  -- Every state of a run, whose calls of the exported functions name nodes that exist and statuses other
  -- than FORWARD_TO, is well-formed, with the IP length that fits the listen IP, and with this host
  -- at the address at which it listened when the run began. On the way, the settings that the protocol
  -- reads, and the addresses that can be reached, may change.
  pub Run-Lasts : {c : Cluster} → Run env pingdata now ip c → Lasts env ip c
  Run-Lasts (begun {c} e) =
      let (d, f, l, known) = begin-returns in subst (Lasts env ip) (ok-inj d c (sym f ∙ e)) l
  Run-Lasts (then_step {c} {d} run step) =
      let l = Run-Lasts run in Lasts-Stays env ip c d l (Step-Stays step l.well_formed)

  -- In no state of a run does the timeout check panic: its round returns, and the run goes on.
  pub Run-timeout_check :
      (c : Cluster)
      → Run env pingdata now ip c
      → (c' : Cluster) × (timeout_check c ≡ ok c') × Run env pingdata now ip c'
  Run-timeout_check c run =
      let (c', e, h) = timeout_check-returns c (Run-Lasts run).well_formed in
      (c', e, then_step run (checks e))
