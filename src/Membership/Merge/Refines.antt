-- ===== src/Membership/Merge/Refines.antt =====
-- membership.go: the round of updateStatusesFromMessage over the view of the known nodes.
use smudge.Prelude.{
  ◌<◌, ◌≡◌, ◌≢◌, refl, sym, ap, ◌∙◌, subst, Bool, true, ◌&&◌, ◌||◌, Bool-cases, inl, inr, Option,
  none, some, length, arith, ltb, ◌==◌, if◌then◌else◌, ite, ℕ_discrete,
}
use smudge.Prelude.Outcome.{Outcome, ok}
use smudge.Prelude.Maps.{lookup}
use smudge.Net.{Address, Address-discrete}
use smudge.NodeMap.{same_address}
use smudge.Cluster.{
  Cluster, Ref, status_unknown, status_alive, status_dead, status_forward_to, deref, address_of,
}
use smudge.Registry.{update_node_status, update_status, add_node, enter}
use smudge.Registry.Invariant.{update_node_status-same}
use smudge.Registry.WellFormed.{IsWellFormed}
use smudge.Registry.View.{Facts, facts, View, seen, view, facts-update_same, facts-update_new}
use smudge.Membership.{apply_status, update_from_member}
use smudge.Message.{MessageMember}
use smudge.Membership.Merge.{news_of, heartbeat_of, ignored, merged, merge, IsCanonical}
use smudge.Membership.Merge.Steps.{
  Local, Local-refl, update-Local, enter-Local, update-elsewhere, add_node-old, view-old,
  add_node-new, view-new, contains-none,
}

-- A call that returns a state in which only what is seen at one address has changed.
abbrev pub Shows : Cluster → Ref → Facts → Outcome Cluster → Type 0
Shows c r new o =
    (c' : Cluster) × (o ≡ ok c')
    × Local c c' r
    × ((a : Address) → view c' a ≡ ite (Address-discrete (address_of c r) a) (some new) (view c a))

module _ (c : Cluster) (m : MessageMember) (inside : m.node < length c.heap) (w : IsWellFormed c)
    (named : m.status ≢ status_forward_to) where
  abbrev here : Address
  here = address_of c m.node

  abbrev d : Cluster
  d = update_node_status c m.node m.status m.heartbeat m.source

  view-known :
      (o : Option Ref) → lookup Address-discrete here c.known_nodes ≡ o → view c here ≡ seen c o
  unfolding view
  view-known o e = ap (seen c) e

  facts-known : some (facts d m.node) ≡ some (merged (some (facts c m.node)) (news_of c m))
  unfolding merged facts
  facts-known = elim (Bool-cases ((deref c m.node).status == m.status)) [
    | inl same ↦
        rw same (ap some (facts-update_same c m.node m.status m.heartbeat m.source same m.node))
    | inr new ↦ rw new (
        ap some
          (facts-update_new c m.node m.status m.heartbeat m.source inside (ground (arith, new))))
  ]

  old-Shows :
      lookup Address-discrete here c.known_nodes ≡ some m.node
      → Shows c m.node (merged (view c here) (news_of c m)) (apply_status c m)
  unfolding apply_status
  old-Shows e = (
    d,
    add_node-old c m.node inside w m.status m.heartbeat m.source named e,
    update-Local c m.node inside w m.status m.heartbeat m.source named,
    λ a. by_address a (Address-discrete here a),
  )
    where
      by_address :
          (a : Address) (q : Dec (here ≡ a))
          → view d a ≡ ite q (some (merged (view c here) (news_of c m))) (view c a)
      by_address a (no ne) =
          update-elsewhere c m.node inside w m.status m.heartbeat m.source named a ne
      by_address a (yes q) =
          subst (λ k. view d k ≡ some (merged (view c here) (news_of c m))) q
            (view-old c m.node inside w m.status m.heartbeat m.source named e
              ∙ facts-known
              ∙ ap (λ old. some (merged old (news_of c m))) (sym (view-known (some m.node) e)))

  -- The node is new, and so are its facts.
  module _ (absent : lookup Address-discrete here c.known_nodes ≡ none)
      (fresh : facts c m.node ≡ (status_unknown, 0)) where
    fresh_status : (deref c m.node).status ≡ status_unknown
    fresh_status = unfold facts in ap (λ (f : Facts). f.0) fresh

    fresh_heartbeat : (deref c m.node).heartbeat ≡ 0
    fresh_heartbeat = unfold facts in ap (λ (f : Facts). f.1) fresh

    merged-absent : merged (view c here) (news_of c m) ≡ merged none (news_of c m)
    merged-absent = ap (λ old. merged old (news_of c m)) (view-known none absent)

    spoken : m.status ≢ status_unknown → merged none (news_of c m) ≡ (m.status, m.heartbeat)
    unfolding merged
    spoken known = ground (arith, known)

    unspoken : m.status ≡ status_unknown → merged none (news_of c m) ≡ (status_alive, 0)
    unfolding merged
    unspoken unknown = ground (arith, unknown)

    new-Shows :
        m.status ≢ status_unknown
        → Shows c m.node (merged (view c here) (news_of c m)) (apply_status c m)
    unfolding apply_status
    new-Shows known =
        let told : facts d m.node ≡ (m.status, m.heartbeat) =
          facts-update_new c m.node m.status m.heartbeat m.source inside
            (λ e. known (sym e ∙ fresh_status)) in
        let alive : (deref d m.node).status ≡ m.status =
          unfold facts in ap (λ (f : Facts). f.0) told in
        (
          enter d m.node,
          add_node-new c m.node inside w m.status m.heartbeat m.source named absent
              (λ e. known (sym alive ∙ e)),
          enter-Local c m.node inside w m.status m.heartbeat m.source named,
          λ a.
              view-new c m.node inside w m.status m.heartbeat m.source named a
              ∙ ap (λ f. ite (Address-discrete here a) (some f) (view c a))
                  (told ∙ sym (merged-absent ∙ spoken known)),
        )

    -- The state in which the node is alive.
    abbrev risen : Cluster
    risen = update_node_status c m.node status_alive (deref c m.node).heartbeat (some c.this_host)

    add_node-unknown : add_node c m.node ≡ ok (enter risen m.node)
    unfolding add_node update_status
    add_node-unknown =
        let first : ((deref c m.node).status == status_unknown) ≡ true =
          ground (arith, fresh_status) in
        rw (contains-none c c.known_nodes m.node absent, first) refl

    unchanged : m.status ≡ status_unknown → d ≡ c
    unchanged unknown =
        update_node_status-same c m.node m.status m.heartbeat m.source
          (ground (arith, fresh_status, unknown))

    risen-facts : facts risen m.node ≡ (status_alive, 0)
    risen-facts =
        facts-update_new c m.node status_alive (deref c m.node).heartbeat (some c.this_host) inside
          (λ e. omega (arith, e, fresh_status))
        ∙ ap (λ h. (status_alive, h)) fresh_heartbeat

    unknown-Shows :
        m.status ≡ status_unknown
        → Shows c m.node (merged (view c here) (news_of c m)) (apply_status c m)
    unfolding apply_status
    unknown-Shows unknown = (
      enter risen m.node,
      ap (λ k. add_node k m.node) (unchanged unknown) ∙ add_node-unknown,
      enter-Local c m.node inside w status_alive (deref c m.node).heartbeat (some c.this_host)
          (omega arith),
      λ a.
          view-new c m.node inside w status_alive (deref c m.node).heartbeat (some c.this_host)
            (omega arith) a
          ∙ ap (λ f. ite (Address-discrete here a) (some f) (view c a))
              (risen-facts ∙ sym (merged-absent ∙ unspoken unknown)),
    )

  pub apply_status-Shows :
      IsCanonical c m.node → Shows c m.node (merged (view c here) (news_of c m)) (apply_status c m)
  apply_status-Shows (inl known) = old-Shows known
  apply_status-Shows (inr (absent, fresh)) = elim (ℕ_discrete m.status status_unknown) [
    | yes unknown ↦ unknown-Shows absent fresh unknown
    | no known ↦ new-Shows absent fresh known
  ]

-- The tests of the round, in one.
abbrev guard : Cluster → MessageMember → Bool
guard c m =
    ltb m.heartbeat (deref c m.node).heartbeat
    || ((m.status == status_forward_to)
        || ((m.status == status_dead)
            && same_address (address_of c m.node) (address_of c c.this_host)))

update_from_member-guard :
    (c : Cluster) (m : MessageMember)
    → update_from_member c m ≡ (if guard c m then ok c else apply_status c m)
unfolding update_from_member
update_from_member-guard c m = elim (Bool-cases (ltb m.heartbeat (deref c m.node).heartbeat)) [
  | inl stale ↦ rw stale refl
  | inr fresh ↦ elim (Bool-cases (m.status == status_forward_to)) [
    | inl forward ↦ rw (fresh, forward) refl
    | inr named ↦ elim (Bool-cases (m.status == status_dead)) [
      | inl dead ↦ rw (fresh, named, dead) refl
      | inr live ↦ rw (fresh, named, live) refl
    ]
  ]
]

-- What is known of the node has the node's heartbeat.
pub heartbeat_seen :
    (c : Cluster) (r : Ref)
    → IsCanonical c r
    → heartbeat_of (view c (address_of c r)) ≡ (deref c r).heartbeat
unfolding view facts
heartbeat_seen c r (inl known) = ap (λ o. heartbeat_of (seen c o)) known
heartbeat_seen c r (inr (absent, fresh)) =
    ap (λ o. heartbeat_of (seen c o)) absent ∙ sym (ap (λ (f : Facts). f.1) fresh)

ignored-guard :
    (c : Cluster) (m : MessageMember)
    → IsCanonical c m.node
    → ignored
        (view c (address_of c m.node))
        (same_address (address_of c m.node) (address_of c c.this_host))
        (news_of c m)
      ≡ guard c m
unfolding ignored
ignored-guard c m canonical = rw (heartbeat_seen c m.node canonical) refl

unchanged-ite : (v : View) (k a : Address) (q : Dec (k ≡ a)) → v a ≡ ite q (v k) (v a)
unchanged-ite v k a (yes e) = ap v (sym e)
unchanged-ite v k a (no ne) = refl

-- On a well-formed state, a round of updateStatusesFromMessage for a member, whose node is the known one
-- at its address, or is new where none is known, returns a state in which the known nodes, their
-- statuses and their heartbeats are those that the merge of the news into what was known gives, at
-- every address.
pub update_from_member-merge :
    (c : Cluster) (m : MessageMember)
    → m.node < length c.heap
    → IsCanonical c m.node
    → IsWellFormed c
    → (c' : Cluster) × (update_from_member c m ≡ ok c')
      × Local c c' m.node
      × ((a : Address) → view c' a ≡ merge (address_of c c.this_host) (view c) (news_of c m) a)
unfolding merge
update_from_member-merge c m inside canonical w =
    let same = ignored-guard c m canonical in
    elim (Bool-cases (guard c m)) [
      | inl stop ↦ (
        c,
        update_from_member-guard c m ∙ rw stop refl,
        Local-refl c m.node,
        λ a. rw (same ∙ stop) (unchanged-ite (view c) (address_of c m.node) a _),
      )
      | inr go ↦
          let (c', e, local, shown) =
            apply_status-Shows c m inside w (ground (arith, go)) canonical in
          (c', update_from_member-guard c m ∙ rw go e, local, λ a. rw (same ∙ go) (shown a))
    ]
