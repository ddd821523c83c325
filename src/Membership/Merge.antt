-- ===== src/Membership/Merge.antt =====
-- membership.go: what a member of a message is to mean, over the view of the known nodes alone, and the
-- theorem that updateStatusesFromMessage's round does just that.
pub mod Steps
pub mod Refines
pub mod Whole
pub mod Sender
use smudge.Prelude.{
  ℕ, ◌<◌, ◌≡◌, ◌≢◌, refl, sym, ap, ◌∙◌, subst, Bool, true, false, ◌&&◌, ◌||◌, Bool-cases, inl, inr,
  ◌⊎◌, Option, none, some, length, arith, ltb, ◌==◌, if◌then◌else◌, ite, if_pos, if_neg,
}
use smudge.Prelude.Outcome.{ok}
use smudge.Prelude.Maps.{lookup}
use smudge.Net.{Address, Address-discrete}
use smudge.NodeMap.{same_address}
use smudge.Cluster.{
  Cluster, Ref, NodeStatus, status_unknown, status_alive, status_dead, status_forward_to, deref,
  address_of,
}
use smudge.Registry.WellFormed.{IsWellFormed}
use smudge.Registry.View.{Facts, facts, View, view}
use smudge.Message.{MessageMember}

-- What a member says.
pub record News : Type 0 where
  pub address : Address
  pub status : NodeStatus
  pub heartbeat : ℕ

abbrev pub news_of : Cluster → MessageMember → News
news_of c m = record { address = address_of c m.node; status = m.status; heartbeat = m.heartbeat }

abbrev pub heartbeat_of : Option Facts → ℕ
heartbeat_of none = 0
heartbeat_of (some (status, heartbeat)) = heartbeat

-- News that changes nothing: older than what is known, a request to forward, or word to a host that it
-- is dead itself.
unfoldable pub ignored : Option Facts → Bool → News → Bool
ignored old host n =
    ltb n.heartbeat (heartbeat_of old)
    || ((n.status == status_forward_to) || ((n.status == status_dead) && host))

-- What is known of the node then. A known node keeps its heartbeat if its status is the same; a new one
-- of which no status is known is alive.
unfoldable pub merged : Option Facts → News → Facts
merged none n = if n.status == status_unknown then (status_alive, 0) else (n.status, n.heartbeat)
merged (some (status, heartbeat)) n =
    if status == n.status then (status, heartbeat) else (n.status, n.heartbeat)

abbrev pub revised : Option Facts → Bool → News → Option Facts
revised old host n = if ignored old host n then old else some (merged old n)

-- News changes what is known at its address, and there only.
unfoldable pub merge : Address → View → News → View
merge host v n a =
    ite (Address-discrete n.address a) (revised (v n.address) (same_address n.address host) n) (v a)

-- The node is the known one at its address, or nothing is known there and the node is new.
abbrev pub IsCanonical : Cluster → Ref → Type 0
IsCanonical c r =
    (lookup Address-discrete (address_of c r) c.known_nodes ≡ some r)
    ⊎ ((lookup Address-discrete (address_of c r) c.known_nodes ≡ none)
        × (facts c r ≡ (status_unknown, 0)))
