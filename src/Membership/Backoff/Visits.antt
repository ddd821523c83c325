-- ===== src/Membership/Backoff/Visits.antt =====
-- membership.go: the visits of a node that stays dead in the loop of Begin, the pings that some of them
-- make included, with other steps of the program between them.
use smudge.Prelude.{
  ℕ, zero, suc, ◌+◌, ◌%◌, ◌^◌, ◌≤◌, ◌<◌, ◌≡◌, ◌≢◌, refl, sym, ap, ◌∙◌, subst, Bool, true, false,
  Option, none, some, get_or, arith, ==_iff,
}
use smudge.Prelude.Maps.{lookup}
use smudge.Prelude.Outcome.{Outcome, ok, ◌>>=◌, Ends, Ends-bind}
use smudge.Net.{Address, Address-discrete}
use smudge.NodeMap
use smudge.Cluster.{
  Cluster, DeadNodeCounter, Env, MessageVerb, Ref, no_node, status_dead, deref, address_of,
}
use smudge.Membership.Transmit.{
  Error, dial_failure, await, ping_node, transmit_verb_ping_udp, transmit_verb_generic_udp,
}
use smudge.Membership.Transmit.Frame.{Frame, Frame-then, Frame-same, ping_node-Frames}
use smudge.Membership.Backoff.{
  Visit, skips, pings, forgets, visit_dead, counter_or_fresh, back_off, beat, visit,
}
use smudge.Membership.Backoff.Schedule.{visits, waiting}
use smudge.Membership.Backoff.Patience.{
  before_last, visits-before, visits-Kept, Kept-at, visits_next,
}
use smudge.Membership.Backoff.Removal.{
  counter, noted, back_off-noted, noted-counter, back_off-forgets, due, counter-unseen, all_but_one,
}

abbrev pub is_known : Cluster → Ref → Bool
is_known c node = NodeMap.contains c c.known_nodes node

-- What happens between two visits leaves the node's address and retries alone, and does not remove it.
pub record Leaves (node : Ref) (c c' : Cluster) : Type 0 where
  pub address : address_of c' node ≡ address_of c node
  pub retries :
      lookup Address-discrete (address_of c node) c'.dead_node_retries
      ≡ lookup Address-discrete (address_of c node) c.dead_node_retries
  pub known : is_known c' node ≡ is_known c node

-- The node is visited so many times, each time while it is dead.
pub data Visited (node : Ref) : ℕ → Cluster → Cluster → Type 0 where
  unvisited : {c : Cluster} → Visited node 0 c c
  again :
      {n : ℕ} {c d e f : Cluster} (draw : ℕ → ℕ) (pinged : Bool)
      → Visited node n c d
      → (deref d node).status ≡ status_dead
      → visit d draw node ≡ ok (e, pinged)
      → Leaves node e f
      → Visited node (suc n) c f

-- What a visit does behind the backoff.
abbrev act : (ℕ → ℕ) → Ref → Cluster × Visit → Outcome (Cluster × Bool)
act draw node t = elim t.1 [
  | skips ↦ ok (t.0, false)
  | pings ↦ beat t.0 draw node >>= λ c. ok (c, true)
  | forgets ↦ ok (t.0, false)
]

visit-act :
    (c : Cluster) (draw : ℕ → ℕ) (node : Ref)
    → (deref c node).status ≡ status_dead
    → visit c draw node ≡ act draw node (back_off c node)
unfolding visit
visit-act c draw node dead =
    let found = (==_iff (deref c node).status status_dead).1 dead in rw found refl

beat-Frames : (c : Cluster) (draw : ℕ → ℕ) (node : Ref) → Ends (Frame c) (beat c draw node)
unfolding beat
beat-Frames c draw node =
    let c1 = record c { current_heartbeat = (c.current_heartbeat + 1) % 2 ^ 32 } in
    Ends-bind (λ t. Frame c1 t.0) _ (ping_node c1 draw node) _ (ping_node-Frames c1 draw node)
      (λ t f. Frame-then c c1 t.0 (Frame-same c c1 refl refl refl) f)

-- The counter has gone on, and the node is still known.
abbrev WentOn : Cluster → Ref → Cluster → Type 0
WentOn c node e =
    (counter e node ≡ (visit_dead (counter c node)).0)
    × (address_of e node ≡ address_of c node)
    × (is_known e node ≡ is_known c node)

noted-WentOn :
    (c : Cluster) (node : Ref) → WentOn c node (noted c node (visit_dead (counter c node)).0)
noted-WentOn c node = (
  noted-counter c node (visit_dead (counter c node)).0,
  unfold noted address_of deref in refl,
  unfold noted NodeMap.contains address_of deref in refl,
)

is_known-same :
    (c d : Cluster) (node : Ref)
    → d.known_nodes ≡ c.known_nodes
    → address_of d node ≡ address_of c node
    → is_known d node ≡ is_known c node
unfolding NodeMap.contains
is_known-same c d node k a =
    ap (λ m. NodeMap.contains_by_address m (address_of d node)) k
    ∙ ap (λ at. NodeMap.contains_by_address c.known_nodes at) a

WentOn-Frame : (c d e : Cluster) (node : Ref) → WentOn c node d → Frame d e → WentOn c node e
WentOn-Frame c d e node (count, a, known) f = (
  unfold counter in (rw (f.addresses node, f.retries) refl ∙ count),
  f.addresses node ∙ a,
  is_known-same d e node f.known (f.addresses node) ∙ known,
)

act-WentOn :
    (c : Cluster) (draw : ℕ → ℕ) (node : Ref) (v : Visit)
    → v ≢ forgets
    → Ends
        (λ t. WentOn c node t.0)
        (act draw node (noted c node (visit_dead (counter c node)).0, v))
act-WentOn c draw node skips h = noted-WentOn c node
act-WentOn c draw node pings h =
    let d = noted c node (visit_dead (counter c node)).0 in
    Ends-bind (Frame d) _ (beat d draw node) _ (beat-Frames d draw node)
      (λ e f. WentOn-Frame c d e node (noted-WentOn c node) f)
act-WentOn c draw node forgets h = absurd (h refl)

visit-WentOn :
    (c e : Cluster) (draw : ℕ → ℕ) (node : Ref) (pinged : Bool)
    → (deref c node).status ≡ status_dead
    → (visit_dead (counter c node)).1 ≢ forgets
    → visit c draw node ≡ ok (e, pinged)
    → WentOn c node e
visit-WentOn c e draw node pinged dead kept returned =
    let v = (visit_dead (counter c node)).1 in
    let shape =
      sym returned
      ∙ visit-act c draw node dead
      ∙ ap (act draw node) (back_off-noted c node v refl kept) in
    subst (Ends (λ (t : Cluster × Bool). WentOn c node t.0)) (sym shape)
      (act-WentOn c draw node v kept)

Leaves-counter : (c c' : Cluster) (node : Ref) → Leaves node c c' → counter c' node ≡ counter c node
unfolding counter
Leaves-counter c c' node l = rw l.address (ap counter_or_fresh l.retries)

abbrev Unseen : Cluster → Ref → Type 0
Unseen c node = lookup Address-discrete (address_of c node) c.dead_node_retries ≡ none

Visited-counter :
    (node : Ref) {n : ℕ} {c d : Cluster}
    → Visited node n c d
    → Unseen c node
    → n ≤ before_last
    → (counter d node ≡ (visits n (waiting 1)).0) × (is_known d node ≡ is_known c node)
Visited-counter node (unvisited {c}) unseen h =
    (unfold visits in counter-unseen c node unseen, refl)
Visited-counter node (again {n} {c} {d} {e} {f} draw pinged run dead returned leaves) unseen h =
    let (count, known) = Visited-counter node run unseen (omega (arith, h)) in
    let kept =
      subst (λ k. (visit_dead k).1 ≢ forgets) (sym count)
        (Kept-at before_last n (waiting 1) (omega (arith, h)) visits-Kept) in
    let went = visit-WentOn d e draw node pinged dead kept returned in
    (
      Leaves-counter e f node leaves
          ∙ went.0
          ∙ ap (λ k. (visit_dead k).0) count
          ∙ sym (visits_next n (waiting 1)),
      leaves.known ∙ went.2 ∙ known,
    )

-- A node for which no retries have been counted is known, after up to 2045 visits of the heartbeat loop
-- that each found it dead, if it was known before: with the pings of the visits, and any steps between
-- them that leave its address and retries alone and do not remove it.
pub Visited-known :
    (n : ℕ) (c d : Cluster) (node : Ref)
    → lookup Address-discrete (address_of c node) c.dead_node_retries ≡ none
    → n ≤ 2045
    → Visited node n c d
    → is_known d node ≡ is_known c node
Visited-known n c d node unseen h run =
    (Visited-counter node run unseen (omega (arith, h, all_but_one))).1

-- After 2045 such visits the next one that finds it dead returns without a ping, and the node is known
-- no more.
pub Visited-forgotten :
    (c d : Cluster) (node : Ref) (draw : ℕ → ℕ)
    → lookup Address-discrete (address_of c node) c.dead_node_retries ≡ none
    → Visited node 2045 c d
    → (deref d node).status ≡ status_dead
    → (e : Cluster) × (visit d draw node ≡ ok (e, false)) × (is_known e node ≡ false)
Visited-forgotten c d node draw unseen run dead =
    let run' = subst (λ n. Visited node n c d) (sym all_but_one) run in
    let (count, known) = Visited-counter node run' unseen (omega arith) in
    let last : (visit_dead (counter d node)).1 ≡ forgets =
      ap (λ k. (visit_dead k).1) (count ∙ visits-before) ∙ due in
    let (v, gone) = back_off-forgets d node last in
    (
      (back_off d node).0,
      visit-act d draw node dead ∙ ap (λ v. act draw node ((back_off d node).0, v)) v,
      gone,
    )

-- Where nothing can be dialled, such visits there are.
transmit-undialled :
    (c : Cluster) (draw : ℕ → ℕ) (node : Ref) (forward_to : Option Ref) (verb : MessageVerb)
    (code : ℕ)
    → c.can_dial (address_of c node) ≡ false
    → transmit_verb_generic_udp c draw node forward_to verb code ≡ ok (c, some dial_failure)
unfolding transmit_verb_generic_udp
transmit-undialled c draw node forward_to verb code h = rw h refl

pub status-heap :
    (c d : Cluster) (node : Ref) → d.heap ≡ c.heap → (deref d node).status ≡ (deref c node).status
unfolding deref
status-heap c d node h = ap (λ nodes. (get_or nodes node no_node).status) h

beat-undialled :
    (c : Cluster) (draw : ℕ → ℕ) (node : Ref)
    → c.can_dial (address_of c node) ≡ false
    → (e : Cluster) × (beat c draw node ≡ ok e) × (e.heap ≡ c.heap) × (e.env ≡ c.env)
unfolding beat ping_node transmit_verb_ping_udp await address_of deref
beat-undialled c draw node h = (
  _,
  ap (λ o. o >>= λ (t : Cluster × Option Error). ok t.0)
      (transmit-undialled _ draw node none _ _ h),
  refl,
  refl,
)

act-undialled :
    (c : Cluster) (draw : ℕ → ℕ) (node : Ref) (d : DeadNodeCounter) (v : Visit)
    → c.can_dial (address_of c node) ≡ false
    → (e : Cluster) × (pinged : Bool) × (act draw node (noted c node d, v) ≡ ok (e, pinged))
      × (e.heap ≡ c.heap)
      × (e.env ≡ c.env)
unfolding noted address_of deref
act-undialled c draw node d skips h = (noted c node d, false, refl, refl, refl)
act-undialled c draw node d forgets h = (noted c node d, false, refl, refl, refl)
act-undialled c draw node d pings h =
    let (e, returned, heap, env) = beat-undialled (noted c node d) draw node h in
    (e, true, rw returned refl, heap, env)

pub Visited-undialled :
    (n : ℕ) (c : Cluster) (node : Ref)
    → lookup Address-discrete (address_of c node) c.dead_node_retries ≡ none
    → (deref c node).status ≡ status_dead
    → ((a : Address) → c.can_dial a ≡ false)
    → n ≤ 2045
    → (d : Cluster) × Visited node n c d × (d.heap ≡ c.heap) × (d.env ≡ c.env)
Visited-undialled zero c node unseen dead h le = (c, unvisited, refl, refl)
Visited-undialled (suc n) c node unseen dead h le =
    let (d, run, heap, env) = Visited-undialled n c node unseen dead h (omega arith) in
    let at : n < before_last = omega (arith, all_but_one) in
    let (count, known) = Visited-counter node run unseen (omega arith) in
    let kept =
      subst (λ k. (visit_dead k).1 ≢ forgets) (sym count)
        (Kept-at before_last n (waiting 1) at visits-Kept) in
    let v = (visit_dead (counter d node)).1 in
    let still : (deref d node).status ≡ status_dead = status-heap c d node heap ∙ dead in
    let refused =
      ap (λ (env : Env). env.can_dial (address_of d node)) env ∙ h (address_of d node) in
    let (e, pinged, acted, heap', env') =
      act-undialled d (λ k. k) node (visit_dead (counter d node)).0 v refused in
    let returned =
      visit-act d (λ k. k) node still
      ∙ ap (act (λ k. k) node) (back_off-noted d node v refl kept)
      ∙ acted in
    (
      e,
      again (λ k. k) pinged run still returned
          (record { address = refl; retries = refl; known = refl }),
      heap' ∙ heap,
      env' ∙ env,
    )
