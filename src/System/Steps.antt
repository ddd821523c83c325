-- ===== src/System/Steps.antt =====
-- What each step of the program keeps (membership.go, registry.go, broadcast.go, events.go).
use smudge.Prelude.{
  ℕ, ◌<◌, ◌≡◌, refl, sym, ap, ◌∙◌, subst, Bool-cases, inl, inr, none, List, [], ◌∷◌, ◌++◌, length,
  ltb,
}
use smudge.Prelude.Outcome.{Outcome, ok, Ends}
use smudge.Cluster.{Cluster, Env, Ref, Task, deref, address_of, verb_ping}
use smudge.Events.{add_status_listener, add_broadcast_listener}
use smudge.NodeMap.{NodeMap}
use smudge.Registry.{update_status}
use smudge.Registry.Duties.{TaskOk, TasksOk}
use smudge.Registry.Invariant.{update_node_status-Held, touch-Sound}
use smudge.Registry.Known.{add_node-returns, remove_node-Sound, create_node_by_ip-Sound}
use smudge.Registry.WellFormed.{
  IsWellFormed, Keyed, Sound, Sound-refl, Held, Held-then, Sound-Held, maps-Sound,
}
use smudge.Broadcast.{broadcast_bytes}
use smudge.Membership.{ack_key}
use smudge.Membership.Transmit.{ping_node, transmit_verb_ping_udp}
use smudge.Membership.Transmit.Sound.{Sends, await-Sends, other-Sound}
use smudge.Membership.Receive.Sound.{receive_message_udp-Sends}
use smudge.Membership.Timeouts.{run_task}
use smudge.Membership.Timeouts.Held.{timeout_check-returns}
use smudge.Membership.Timeouts.Tasks.{run_task-Held}
use smudge.Membership.Backoff.Sound.{heartbeat_round-Sound}
use smudge.Membership.Multicast.Sound.{receive_announcement-Sound}
use smudge.Membership.Multicast.Announce.{announce_round-Sound}
use smudge.System.{
  Step, receives, hears, announces, beats, checks, runs, ticks, asks, creates, adds, removes, sets,
  broadcasts, listens_to_statuses, listens_to_broadcasts, touches, sets_listen_port,
  sets_max_broadcast_bytes, sets_min_ping_time, reaches,
}

-- What holds of a call's result holds of the result that it gives.
Ends-ok : {A : Type 0} (P : A → Type 0) (o : Outcome A) (a : A) → o ≡ ok a → Ends P o → P a
Ends-ok P o a e h = subst (Ends P) e h

pub ok-inj : (c d : Cluster) → ok c ≡ ok d → c ≡ d
ok-inj c d e = cc

Sound-result : (c c' : Cluster) (o : Outcome Cluster) → o ≡ ok c' → Ends (Sound c) o → Held c c'
Sound-result c c' o e h = Sound-Held c c' (Ends-ok (Sound c) o c' e h)

Sends-result :
    {A : Type 0} (c c' : Cluster) (a : A) (o : Outcome (Cluster × A))
    → o ≡ ok (c', a)
    → Ends (λ (t : Cluster × A). Sound c t.0) o
    → Held c c'
Sends-result c c' a o e h = Sound-Held c c' (Ends-ok (λ t. Sound c t.0) o (c', a) e h)

Succeeds-result :
    (c c' : Cluster) (o : Outcome Cluster)
    → o ≡ ok c'
    → (d : Cluster) × (o ≡ ok d) × Held c d
    → Held c c'
Succeeds-result c c' o e (d, f, h) = subst (Held c) (ok-inj d c' (sym f ∙ e)) h

TasksOk-split :
    (n : ℕ) (before : List Task) (task : Task) (after : List Task)
    → TasksOk n (before ++ (task ∷ after))
    → TaskOk n task × TasksOk n (before ++ after)
TasksOk-split n [] task after h = (h.0, h.1)
TasksOk-split n (t ∷ before) task after h =
    let rest = TasksOk-split n before task after h.1 in (rest.0, (h.0, rest.1))

-- A goroutine that waited runs.
runs-Held :
    (c c' : Cluster) (draw : ℕ → ℕ) (before : List Task) (task : Task) (after : List Task)
    → c.tasks ≡ before ++ (task ∷ after)
    → run_task (record c { tasks = before ++ after }) draw task ≡ ok c'
    → IsWellFormed c
    → Held c c'
runs-Held c c' draw before task after e returned w =
    let waiting =
      TasksOk-split (length c.heap) before task after
        (subst (TasksOk (length c.heap)) e w.duties) in
    let taken : Cluster = record c { tasks = before ++ after } in
    let s =
      maps-Sound c taken refl refl refl w.known w.updated w.known_distinct w.updated_distinct w.acks
        waiting.1 w in
    Held-then c taken c' (Sound-Held c taken s) (λ w1.
      Ends-ok (Held taken) (run_task taken draw task) c' returned
        (run_task-Held taken draw task waiting.0 w1))

ping_node-Sends :
    (c : Cluster) (draw : ℕ → ℕ) (node : Ref)
    → node < length c.heap
    → IsWellFormed c
    → Sends c (ping_node c draw node)
unfolding ping_node transmit_verb_ping_udp
ping_node-Sends c draw node h w =
    await-Sends c (ack_key c node c.current_heartbeat) _ draw node none verb_ping
      c.current_heartbeat (h, refl) w

broadcast_bytes-Sound :
    (c : Cluster) (bytes : List ℕ) → IsWellFormed c → Sound c (broadcast_bytes c bytes).0
unfolding broadcast_bytes
broadcast_bytes-Sound c bytes w = elim (Bool-cases (ltb c.max_broadcast_bytes (length bytes))) [
  | inl long ↦ rw long (Sound-refl c w)
  | inr fits ↦ rw fits (other-Sound c _ refl refl refl refl refl refl refl w)
]

-- What every step keeps: the state is well-formed, the IP length and this host's node are the same,
-- and no node has moved.
pub record Stays (c c' : Cluster) : Type 0 where
  pub well_formed : IsWellFormed c'
  pub same_ip_len : c'.ip_len ≡ c.ip_len
  pub same_host : c'.this_host ≡ c.this_host
  pub keeps : (r : Ref) → r < length c.heap → address_of c' r ≡ address_of c r

pub Held-Stays : (c c' : Cluster) → Held c c' → Stays c c'
Held-Stays c c' h = record {
  well_formed = h.well_formed;
  same_ip_len = ap (λ (e : Env). e.ip_len) h.moves_none.same_env;
  same_host = h.moves_none.same_host;
  keeps = h.moves_none.keeps;
}

Keyed-set : (c : Cluster) (env : Env) (m : NodeMap) → Keyed c m → Keyed (record c { env = env }) m
unfolding address_of deref
Keyed-set c env [] k = tt
Keyed-set c env (e ∷ m) k = (k.0, Keyed-set c env m k.1)

-- A change of the settings changes none of the nodes.
set-Stays :
    (c : Cluster) (env : Env)
    → env.ip_len ≡ c.ip_len
    → IsWellFormed c
    → Stays c (record c { env = env })
unfolding address_of deref
set-Stays c env same w = record {
  well_formed = record {
    known = Keyed-set c env c.known_nodes w.known;
    updated = Keyed-set c env c.updated_nodes w.updated;
    known_distinct = w.known_distinct;
    updated_distinct = w.updated_distinct;
    host_lt = w.host_lt;
    statuses = w.statuses;
    acks = w.acks;
    duties = w.duties;
  };
  same_ip_len = same;
  same_host = refl;
  keeps = λ r h. refl;
}

-- Any step from a well-formed state leads to one that is well-formed, with the IP length, this host's
-- node and the addresses of all nodes unchanged.
pub Step-Stays : {c c' : Cluster} → Step c c' → IsWellFormed c → Stays c c'
unfolding update_status add_status_listener add_broadcast_listener
Step-Stays (receives {c} {c'} draw source bytes e returned) w =
    Held-Stays _ _
      (Sends-result c c' e _ returned (receive_message_udp-Sends c draw source bytes w))
Step-Stays (hears {c} {c'} name source bytes returned) w =
    Held-Stays _ _ (Sound-result c c' _ returned (receive_announcement-Sound c name source bytes w))
Step-Stays (announces {c} {c'} name to interval next returned) w =
    Held-Stays _ _ (Sends-result c c' next _ returned (announce_round-Sound c name to interval w))
Step-Stays (beats {c} {c'} draw pinged returned) w =
    Held-Stays _ _ (Sends-result c c' pinged _ returned (heartbeat_round-Sound c draw w))
Step-Stays (checks {c} {c'} returned) w =
    Held-Stays _ _ (Succeeds-result c c' _ returned (timeout_check-returns c w))
Step-Stays (runs {c} {c'} draw before task after e returned) w =
    Held-Stays _ _ (runs-Held c c' draw before task after e returned w)
Step-Stays (ticks {c} now) w =
    Held-Stays _ _ (Sound-Held c _ (other-Sound c _ refl refl refl refl refl refl refl w))
Step-Stays (asks {c} {c'} draw node e h returned) w =
    Held-Stays _ _ (Sends-result c c' e _ returned (ping_node-Sends c draw node h w))
Step-Stays (creates {c} ip port) w =
    Held-Stays _ _ (Sound-Held c _ (create_node_by_ip-Sound c ip port w))
Step-Stays (adds {c} {c'} node h returned) w = Held-Stays _ _ (
    let (d, e, a) = add_node-returns c node h w in
    Succeeds-result c c' _ returned (d, e, Sound-Held c d a.sound))
Step-Stays (removes {c} node) w = Held-Stays _ _ (Sound-Held c _ (remove_node-Sound c node w))
Step-Stays (sets {c} node status source h st) w =
    Held-Stays _ _ (update_node_status-Held c node status (deref c node).heartbeat source h st w)
Step-Stays (broadcasts {c} bytes) w =
    Held-Stays _ _ (Sound-Held c _ (broadcast_bytes-Sound c bytes w))
Step-Stays (listens_to_statuses {c} listener) w =
    Held-Stays _ _ (Sound-Held c _ (other-Sound c _ refl refl refl refl refl refl refl w))
Step-Stays (listens_to_broadcasts {c} listener) w =
    Held-Stays _ _ (Sound-Held c _ (other-Sound c _ refl refl refl refl refl refl refl w))
Step-Stays (touches {c} node h) w = Held-Stays _ _ (Sound-Held c _ (touch-Sound c node h w))
Step-Stays (sets_listen_port {c} val) w = set-Stays c _ refl w
Step-Stays (sets_max_broadcast_bytes {c} val) w = set-Stays c _ refl w
Step-Stays (sets_min_ping_time {c} val) w = set-Stays c _ refl w
Step-Stays (reaches {c} can_dial can_write) w = set-Stays c _ refl w
