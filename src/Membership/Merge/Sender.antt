-- ===== src/Membership/Merge/Sender.antt =====
-- membership.go: the sender of a message, and the whole of updateStatusesFromMessage, over the view of the
-- known nodes.
use mathlib.Core.Path.{fun_ext}
use smudge.Prelude.{
  ℕ, ◌<◌, ◌≡◌, ◌≢◌, refl, sym, ap, ◌∙◌, subst, true, false, Bool-cases, inl, inr, Option, none,
  some, List, map, length, All, arith, ltb, ◌==◌, if◌then◌else◌, ite,
}
use smudge.Prelude.Outcome.{Outcome, ok, or_panic}
use smudge.Prelude.Maps.{lookup}
use smudge.Net.{Address, Address-discrete}
use smudge.NodeMap
use smudge.Cluster.{Cluster, Ref, status_alive, status_unknown, deref, address_of}
use smudge.Registry.{add_node}
use smudge.Registry.Invariant.{update_node_status-same}
use smudge.Registry.WellFormed.{IsWellFormed}
use smudge.Registry.View.{Facts, View, view, facts, seen}
use smudge.Membership.{apply_status, update_sender, enroll_sender, update_statuses_from_message}
use smudge.Message.{Message, MessageMember}
use smudge.Message.Sound.{MembersLt}
use smudge.Membership.Merge.{News, news_of, merged, IsCanonical}
use smudge.Membership.Merge.Steps.{Local-refl, contains-some}
use smudge.Membership.Merge.Refines.{Shows, apply_status-Shows}
use smudge.Membership.Merge.Whole.{merge_all, AreCanonical, AreApart, update_from_members-merge}

-- What is known of the sender then: it is alive, with the heartbeat of the message, if that is news.
unfoldable pub greeted : Option Facts → ℕ → Facts
greeted none heartbeat = (status_alive, heartbeat)
greeted (some (status, known)) heartbeat =
    if ltb known heartbeat
    then (if status == status_alive then (status, known) else (status_alive, heartbeat))
    else (status, known)

-- What a message means: its news, and then its sender.
unfoldable pub merge_message : Address → View → List News → Address → ℕ → View
merge_message host v news sender heartbeat a =
    let told = merge_all host v news in
    ite (Address-discrete sender a) (some (greeted (told sender) heartbeat)) (told a)

enroll_sender-add_node : (c : Cluster) (r : Ref) → enroll_sender c r ≡ add_node c r
unfolding enroll_sender add_node
enroll_sender-add_node c r = elim (Bool-cases (NodeMap.contains c c.known_nodes r)) [
  | inl old ↦ rw old refl
  | inr new ↦ rw new refl
]

module _ (c : Cluster) (r : Ref) (heartbeat : ℕ) (inside : r < length c.heap)
    (canonical : IsCanonical c r) (w : IsWellFormed c) where
  -- The sender as a member of its own message.
  abbrev itself : MessageMember
  itself = record {
    node = r;
    status = status_alive;
    heartbeat = heartbeat;
    source = some c.this_host;
  }

  -- A node of which nothing is said.
  abbrev unsaid : MessageMember
  unsaid = record { node = r; status = status_unknown; heartbeat = 0; source = none }

  seen_at :
      (o : Option Ref)
      → lookup Address-discrete (address_of c r) c.known_nodes ≡ o
      → view c (address_of c r) ≡ seen c o
  unfolding view
  seen_at o e = ap (seen c) e

  abbrev greeting : Outcome Cluster
  greeting = enroll_sender (update_sender c r heartbeat) r

  greeting-news : ltb (deref c r).heartbeat heartbeat ≡ true → greeting ≡ apply_status c itself
  unfolding update_sender apply_status
  greeting-news news = rw news (enroll_sender-add_node _ r)

  greeting-old : ltb (deref c r).heartbeat heartbeat ≡ false → greeting ≡ add_node c r
  unfolding update_sender
  greeting-old old = rw old (enroll_sender-add_node c r)

  Shows-as :
      (f g : Facts) (o : Outcome Cluster)
      → f ≡ g
      → o ≡ greeting
      → Shows c r f o
      → Shows c r g greeting
  Shows-as f g o e same s = subst (λ k. Shows c r g k) same (subst (λ k. Shows c r k o) e s)

  -- Of a known sender.
  module _ (known : lookup Address-discrete (address_of c r) c.known_nodes ≡ some r) where
    merged-news :
        ltb (deref c r).heartbeat heartbeat ≡ true
        → merged (view c (address_of c r)) (news_of c itself)
          ≡ greeted (view c (address_of c r)) heartbeat
    unfolding merged greeted facts
    merged-news news = rw (seen_at (some r) known, news) refl

    greeted-old :
        ltb (deref c r).heartbeat heartbeat ≡ false
        → facts c r ≡ greeted (view c (address_of c r)) heartbeat
    unfolding greeted facts
    greeted-old old = rw (seen_at (some r) known, old) refl

    add_node-idle : add_node c r ≡ ok c
    unfolding add_node
    add_node-idle = rw (contains-some c c.known_nodes r r known) refl

    idle-Shows : Shows c r (facts c r) (ok c)
    idle-Shows = (c, refl, Local-refl c r, λ a. as_seen a (Address-discrete (address_of c r) a))
      where
        as_seen :
            (a : Address) (q : Dec (address_of c r ≡ a))
            → view c a ≡ ite q (some (facts c r)) (view c a)
        as_seen a (no ne) = refl
        as_seen a (yes e) = subst (λ k. view c k ≡ some (facts c r)) e (seen_at (some r) known)

    known-Shows : Shows c r (greeted (view c (address_of c r)) heartbeat) greeting
    known-Shows = elim (Bool-cases (ltb (deref c r).heartbeat heartbeat)) [
      | inl news ↦
          Shows-as _ _ (apply_status c itself) (merged-news news) (sym (greeting-news news))
            (apply_status-Shows c itself inside w (omega arith) canonical)
      | inr old ↦
          Shows-as _ _ (ok c) (greeted-old old) (sym (greeting-old old ∙ add_node-idle)) idle-Shows
    ]

  -- Of a new one.
  module _ (absent : lookup Address-discrete (address_of c r) c.known_nodes ≡ none)
      (fresh : facts c r ≡ (status_unknown, 0)) where
    fresh_status : (deref c r).status ≡ status_unknown
    fresh_status = unfold facts in ap (λ (f : Facts). f.0) fresh

    fresh_heartbeat : (deref c r).heartbeat ≡ 0
    fresh_heartbeat = unfold facts in ap (λ (f : Facts). f.1) fresh

    merged-new :
        merged (view c (address_of c r)) (news_of c itself)
        ≡ greeted (view c (address_of c r)) heartbeat
    unfolding merged greeted
    merged-new = rw (seen_at none absent) refl

    merged-unsaid :
        heartbeat ≡ 0
        → merged (view c (address_of c r)) (news_of c unsaid)
          ≡ greeted (view c (address_of c r)) heartbeat
    unfolding merged greeted
    merged-unsaid e = rw (seen_at none absent) (ap (λ h. (status_alive, h)) (sym e))

    unsaid-add_node : apply_status c unsaid ≡ add_node c r
    unfolding apply_status
    unsaid-add_node =
        ap (λ k. add_node k r)
          (update_node_status-same c r status_unknown 0 none (ground (arith, fresh_status)))

    new-Shows : Shows c r (greeted (view c (address_of c r)) heartbeat) greeting
    new-Shows = elim (Bool-cases (ltb (deref c r).heartbeat heartbeat)) [
      | inl news ↦
          Shows-as _ _ (apply_status c itself) merged-new (sym (greeting-news news))
            (apply_status-Shows c itself inside w (omega arith) canonical)
      | inr old ↦
          Shows-as _ _ (apply_status c unsaid)
            (merged-unsaid (ground (arith, old, fresh_heartbeat)))
            (unsaid-add_node ∙ sym (greeting-old old))
            (apply_status-Shows c unsaid inside w (omega arith) canonical)
    ]

greeting-Shows :
    (c : Cluster) (r : Ref) (heartbeat : ℕ)
    → r < length c.heap
    → IsCanonical c r
    → IsWellFormed c
    → Shows c r
        (greeted (view c (address_of c r)) heartbeat)
        (enroll_sender (update_sender c r heartbeat) r)
greeting-Shows c r heartbeat inside (inl known) w =
    known-Shows c r heartbeat inside (inl known) w known
greeting-Shows c r heartbeat inside (inr (absent, fresh)) w =
    new-Shows c r heartbeat inside (inr (absent, fresh)) w absent fresh

-- On a well-formed state, for a message whose sender and members are each the known node at its address, or
-- new where none is known, and no two of them of one address, updateStatusesFromMessage returns a
-- state in which the known nodes, their statuses and their heartbeats are those that the merge of
-- the message into what was known gives.
pub update_statuses_from_message-merge :
    (c : Cluster) (msg : Message) (sender : Ref)
    → msg.sender ≡ some sender
    → sender < length c.heap
    → IsCanonical c sender
    → All (λ k. address_of c sender ≢ address_of c k.node) msg.members
    → MembersLt c msg.members
    → AreCanonical c msg.members
    → AreApart c msg.members
    → IsWellFormed c
    → (c' : Cluster) × (update_statuses_from_message c msg ≡ ok c')
      × (view c'
          ≡ merge_message
              (address_of c c.this_host)
              (view c)
              (map (news_of c) msg.members)
              (address_of c sender)
              msg.sender_heartbeat)
unfolding update_statuses_from_message merge_message
update_statuses_from_message-merge c msg sender from lt canonical away inside all apart w =
    let (c1, e1, s, others, told) = update_from_members-merge msg.members c inside all apart w in
    let keeps = s.grows.moves_none in
    let (c2, e2, local, shown) =
      greeting-Shows c1 sender msg.sender_heartbeat (omega (arith, lt, keeps.longer))
        (others sender lt away canonical) s.well_formed in
    (
      c2,
      rw (e1, ap or_panic from) e2,
      fun_ext λ a.
          shown a
          ∙ ap
              (λ k.
                ite (Address-discrete k a) (some (greeted (view c1 k) msg.sender_heartbeat))
                  (view c1 a))
              (keeps.keeps sender lt)
          ∙ ap
              (λ (v : View).
                ite (Address-discrete (address_of c sender) a)
                  (some (greeted (v (address_of c sender)) msg.sender_heartbeat)) (v a))
              told,
    )
