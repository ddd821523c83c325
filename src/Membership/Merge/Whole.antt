-- ===== src/Membership/Merge/Whole.antt =====
-- membership.go: the loop of updateStatusesFromMessage over the view of the known nodes.
use mathlib.Core.Path.{fun_ext}
use smudge.Prelude.{
  ◌<◌, ◌≡◌, ◌≢◌, refl, sym, ap, ◌∙◌, subst, inl, inr, List, [], ◌∷◌, map, length, All, arith,
}
use smudge.Prelude.Outcome.{ok}
use smudge.Prelude.Maps.{lookup}
use smudge.Net.{Address, Address-discrete}
use smudge.Cluster.{Cluster, Ref, address_of}
use smudge.Cluster.Heap.{Keeps}
use smudge.Registry.WellFormed.{IsWellFormed, Sound, Sound-refl, Sound-then}
use smudge.Registry.Statuses.{ok-inj}
use smudge.Registry.View.{View, view}
use smudge.Membership.{update_from_member, update_from_members}
use smudge.Membership.Statuses.{update_from_member-Returns}
use smudge.Message.{MessageMember}
use smudge.Message.Sound.{MembersLt, MembersLt-Grows}
use smudge.Membership.Merge.{News, news_of, merge, IsCanonical}
use smudge.Membership.Merge.Steps.{Local}
use smudge.Membership.Merge.Refines.{update_from_member-merge}

-- All news of a message, one after another.
unfoldable pub merge_all : Address → View → List News → View
merge_all host v [] = v
merge_all host v (n ∷ news) = merge_all host (merge host v n) news

abbrev pub AreCanonical : Cluster → List MessageMember → Type 0
AreCanonical c ms = All (λ m. IsCanonical c m.node) ms

-- No two members are of one address.
abbrev pub AreApart : Cluster → List MessageMember → Type 0
AreApart c [] = Unit {0}
AreApart c (m ∷ ms) = All (λ k. address_of c m.node ≢ address_of c k.node) ms × AreApart c ms

-- A change of one node leaves the others canonical.
IsCanonical-later :
    (c c' : Cluster) (r k : Ref)
    → Local c c' r
    → address_of c' k ≡ address_of c k
    → address_of c r ≢ address_of c k
    → IsCanonical c k
    → IsCanonical c' k
IsCanonical-later c c' r k local same apart (inl known) = inl (
    ap (λ a. lookup Address-discrete a c'.known_nodes) same
    ∙ local.elsewhere (address_of c k) apart
    ∙ known)
IsCanonical-later c c' r k local same apart (inr (absent, fresh)) = inr (
  ap (λ a. lookup Address-discrete a c'.known_nodes) same
      ∙ local.elsewhere (address_of c k) apart
      ∙ absent,
  local.others k (λ e. apart (ap (address_of c) e)) ∙ fresh,
)

AreCanonical-later :
    (c c' : Cluster) (r : Ref) (ms : List MessageMember)
    → Local c c' r
    → Keeps c c'
    → MembersLt c ms
    → All (λ k. address_of c r ≢ address_of c k.node) ms
    → AreCanonical c ms
    → AreCanonical c' ms
AreCanonical-later c c' r [] local keeps inside apart canonical = tt
AreCanonical-later c c' r (m ∷ ms) local keeps inside apart canonical = (
  IsCanonical-later c c' r m.node local (keeps.keeps m.node inside.0) apart.0 canonical.0,
  AreCanonical-later c c' r ms local keeps inside.1 apart.1 canonical.1,
)

All-apart-later :
    (c c' : Cluster) (r : Ref) (ms : List MessageMember)
    → address_of c' r ≡ address_of c r
    → Keeps c c'
    → MembersLt c ms
    → All (λ k. address_of c r ≢ address_of c k.node) ms
    → All (λ k. address_of c' r ≢ address_of c' k.node) ms
All-apart-later c c' r [] same keeps inside apart = tt
All-apart-later c c' r (m ∷ ms) same keeps inside apart = (
  λ e. apart.0 (sym same ∙ e ∙ keeps.keeps m.node inside.0),
  All-apart-later c c' r ms same keeps inside.1 apart.1,
)

AreApart-later :
    (c c' : Cluster) (ms : List MessageMember)
    → Keeps c c'
    → MembersLt c ms
    → AreApart c ms
    → AreApart c' ms
AreApart-later c c' [] keeps inside apart = tt
AreApart-later c c' (m ∷ ms) keeps inside apart = (
  All-apart-later c c' m.node ms (keeps.keeps m.node inside.0) keeps inside.1 apart.0,
  AreApart-later c c' ms keeps inside.1 apart.1,
)

news-later :
    (c c' : Cluster) (ms : List MessageMember)
    → Keeps c c'
    → MembersLt c ms
    → map (news_of c') ms ≡ map (news_of c) ms
news-later c c' [] keeps inside = refl
news-later c c' (m ∷ ms) keeps inside =
    ap
      (λ a.
        record { address = a; status = m.status; heartbeat = m.heartbeat } ∷ map (news_of c') ms)
      (keeps.keeps m.node inside.0)
    ∙ ap (λ ns. news_of c m ∷ ns) (news-later c c' ms keeps inside.1)

pub host-later :
    (c c' : Cluster)
    → IsWellFormed c
    → Keeps c c'
    → address_of c' c'.this_host ≡ address_of c c.this_host
host-later c c' w keeps = ap (address_of c') keeps.same_host ∙ keeps.keeps c.this_host w.host_lt

-- One round, with all that is known of it.
round :
    (c : Cluster) (m : MessageMember)
    → m.node < length c.heap
    → IsCanonical c m.node
    → IsWellFormed c
    → (c' : Cluster) × (update_from_member c m ≡ ok c')
      × Sound c c'
      × Local c c' m.node
      × (view c' ≡ merge (address_of c c.this_host) (view c) (news_of c m))
round c m inside canonical w =
    let (c', e, s) = update_from_member-Returns c m inside w in
    let (d, f, local, shown) = update_from_member-merge c m inside canonical w in
    let same : d ≡ c' = ok-inj d c' (sym f ∙ e) in
    (
      c',
      e,
      s,
      subst (λ k. Local c k m.node) same local,
      subst (λ k. view k ≡ merge (address_of c c.this_host) (view c) (news_of c m)) same
          (fun_ext shown),
    )

-- The loop over the members: it carries out the merge of all news, and leaves a node of no member's
-- address canonical.
pub update_from_members-merge :
    (ms : List MessageMember) (c : Cluster)
    → MembersLt c ms
    → AreCanonical c ms
    → AreApart c ms
    → IsWellFormed c
    → (c' : Cluster) × (update_from_members c ms ≡ ok c')
      × Sound c c'
      × ((r : Ref)
          → r < length c.heap
          → All (λ k. address_of c r ≢ address_of c k.node) ms
          → IsCanonical c r
          → IsCanonical c' r)
      × (view c' ≡ merge_all (address_of c c.this_host) (view c) (map (news_of c) ms))
unfolding update_from_members merge_all
update_from_members-merge [] c inside canonical apart w =
    (c, refl, Sound-refl c w, λ r lt away k. k, refl)
update_from_members-merge (m ∷ ms) c inside canonical apart w =
    let (c1, e1, s, local, shown) = round c m inside.0 canonical.0 w in
    let keeps = s.grows.moves_none in
    let (c2, e2, s2, others, rest) =
      update_from_members-merge ms c1 (MembersLt-Grows c c1 ms s.grows inside.1)
        (AreCanonical-later c c1 m.node ms local keeps inside.1 apart.0 canonical.1)
        (AreApart-later c c1 ms keeps inside.1 apart.1) s.well_formed in
    (
      c2,
      rw e1 e2,
      Sound-then c c1 c2 s (λ _. s2),
      λ r lt away k.
          others r (omega (arith, lt, keeps.longer))
            (All-apart-later c c1 r ms (keeps.keeps r lt) keeps inside.1 away.1)
            (IsCanonical-later c c1 m.node r local (keeps.keeps r lt) (λ e. away.0 (sym e)) k),
      rest
          ∙ ap (λ host. merge_all host (view c1) (map (news_of c1) ms)) (host-later c c1 w keeps)
          ∙ ap (merge_all (address_of c c.this_host) (view c1)) (news-later c c1 ms keeps inside.1)
          ∙ ap (λ v. merge_all (address_of c c.this_host) v (map (news_of c) ms)) shown,
    )
