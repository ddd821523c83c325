-- ===== src/Membership/Receive/Unguarded.antt =====
-- membership.go: a PINGREQ that names no node.
use smudge.Prelude.{
  ℕ, ◌-◌, ◌<◌, ◌≡◌, refl, ap, sym, subst, ◌∙◌, none, some, [], length, Bool-cases, inl, inr, ◌&&◌,
  ltb, arith,
}
use smudge.Prelude.Outcome.{panic, ◌>>=◌}
use smudge.Cluster.{Cluster, verb_ping_request}
use smudge.Registry.WellFormed.{IsWellFormed, Sound, maps-Sound, Sound-refl}
use smudge.Broadcast.{receive_broadcast}
use smudge.Message.{Message}
use smudge.Membership.Statuses.{update_statuses_from_message-returns}
use smudge.Message.Sound.{MembersLt}
use smudge.Membership.Receive.{synchronize, receive_verb_forward_udp, handle_verb, handle_message}

pub synchronize-Sound :
    (c : Cluster) (heartbeat : ℕ) → IsWellFormed c → Sound c (synchronize c heartbeat)
unfolding synchronize
synchronize-Sound c heartbeat w =
    elim (Bool-cases (ltb 0 heartbeat && ltb c.current_heartbeat (heartbeat - 1))) [
      | inl news ↦ rw news (
          maps-Sound c _ refl refl refl w.known w.updated w.known_distinct w.updated_distinct w.acks
            w.duties w)
      | inr old ↦ rw old (Sound-refl c w)
    ]

handle_verb-unguarded :
    (c : Cluster) (draw : ℕ → ℕ) (msg : Message)
    → msg.verb ≡ verb_ping_request
    → msg.members ≡ []
    → (receive_broadcast c none >>= λ c2. handle_verb c2 draw msg) ≡ panic
unfolding handle_verb receive_broadcast receive_verb_forward_udp
handle_verb-unguarded c draw msg verb empty = rw (verb, empty) refl

-- A PINGREQ that names no node makes the handler panic, as long as its sender is a node: the test
-- of the number of members in receiveVerbForwardUDP does not stop it.
pub handle_message-unguarded :
    (c : Cluster) (draw : ℕ → ℕ) (msg : Message) (sender : ℕ)
    → msg.sender ≡ some sender
    → msg.verb ≡ verb_ping_request
    → msg.members ≡ []
    → msg.broadcast ≡ none
    → sender < length c.heap
    → IsWellFormed c
    → handle_message c draw msg ≡ panic
unfolding handle_message
handle_message-unguarded c draw msg sender found verb empty quiet h w =
    let s = synchronize-Sound c msg.sender_heartbeat w in
    let no_members =
      subst (λ ms. MembersLt (synchronize c msg.sender_heartbeat) ms) (sym empty) tt in
    let (c1, e, a) =
      update_statuses_from_message-returns (synchronize c msg.sender_heartbeat) msg sender found
        (omega (arith, s.grows.longer)) no_members s.well_formed in
    rw e (
      ap (λ b. receive_broadcast c1 b >>= λ c2. handle_verb c2 draw msg) quiet
      ∙ handle_verb-unguarded c1 draw msg verb empty)
