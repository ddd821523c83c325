-- ===== src/Membership/Multicast/Sound.antt =====
-- membership.go: what an announcement may do to the state.
use smudge.Prelude.{
  ℕ, zero, suc, [], ◌∷◌, ◌≡◌, ◌≢◌, refl, Bool-cases, inl, inr, length, Option, none, some, List,
  ltb, if_pos, if_neg, ◌+◌,
}
use smudge.Prelude.Outcome.{ok, Ends, Ends-bind, Ends-weaken, Any}
use smudge.Bytes.{index}
use smudge.Net.{Ip}
use smudge.Wire.{Slice, slice}
use smudge.Cluster.{Cluster}
use smudge.Message
use smudge.Message.{Message, decode_message}
use smudge.Message.Rounds.{slice-Ends}
use smudge.Message.Sound.{Decoded, decode_message-Decoded}
use smudge.Registry.WellFormed.{IsWellFormed, Sound, Sound-refl, Sound-then}
use smudge.Membership.{update_statuses_from_message}
use smudge.Membership.Receive.Sound.{update_statuses_from_message-Ends}
use smudge.Membership.Multicast.{decode_multicast_announce_bytes}
use smudge.Membership.Multicast.Listen.{
  Name-discrete, heed, take_announcement, receive_announcement,
}

heed-Sound :
    (c c' : Cluster) (msg : Message) (e : Option Message.Error)
    → Decoded c (c', msg, e)
    → Ends (Sound c) (heed c' msg e)
unfolding heed
heed-Sound c c' msg none d =
    Ends-weaken (Sound c') (Sound c) (update_statuses_from_message c' msg)
      (λ c2 s. Sound-then c c' c2 d.0 (λ _. s))
      (update_statuses_from_message-Ends c' msg (d.1 refl) d.0.well_formed)
heed-Sound c c' msg (some fault) d = d.0

take_announcement-Sound :
    (c : Cluster) (name : List ℕ) (ip : Ip) (found : Option (List ℕ × Slice))
    → IsWellFormed c
    → Ends (Sound c) (take_announcement c name ip found)
unfolding take_announcement
take_announcement-Sound c name ip none w = Sound-refl c w
take_announcement-Sound c name ip (some (other, bytes)) w = elim (Name-discrete name other) [
  | yes e ↦ rw (if_pos _ e) (
      Ends-bind (Decoded c) _ (decode_message c ip bytes) _ (decode_message-Decoded c ip bytes w)
        (λ t d. heed-Sound c t.0 t.1 t.2 d))
  | no ne ↦ rw (if_neg _ ne) (Sound-refl c w)
]

index-Ends : (xs : List ℕ) (i : ℕ) → Ends Any (index xs i)
unfolding index
index-Ends [] i = tt
index-Ends (x ∷ xs) zero = tt
index-Ends (x ∷ xs) (suc i) = index-Ends xs i

decode-Ends : (s : Slice) → Ends Any (decode_multicast_announce_bytes s)
unfolding decode_multicast_announce_bytes
decode-Ends s = Ends-bind Any Any (index s.elems 0) _ (index-Ends s.elems 0) (λ len _.
    elim (Bool-cases (ltb (length s.elems) (len + 1))) [
      | inl short ↦ rw short tt
      | inr long ↦ rw long (
          Ends-bind Any Any (slice s 1 (len + 1)) _ (slice-Ends s 1 (len + 1)) (λ name _.
            Ends-bind Any Any (slice s (len + 1) (length s.elems)) _
              (slice-Ends s (len + 1) (length s.elems)) (λ msg _. tt)))
    ])

-- Whatever bytes come from whatever address, the listener for announcements returns or panics; if it
-- returns, a state that was well-formed is still, no node has changed its address and none has
-- lost heartbeat.
pub receive_announcement-Sound :
    (c : Cluster) (name : List ℕ) (ip : Ip) (bytes : Slice)
    → IsWellFormed c
    → Ends (Sound c) (receive_announcement c name ip bytes)
unfolding receive_announcement
receive_announcement-Sound c name ip bytes w =
    Ends-bind Any _ (decode_multicast_announce_bytes bytes) _ (decode-Ends bytes)
      (λ found _. take_announcement-Sound c name ip found w)

-- An announcement of a cluster of another name changes nothing.
pub take_announcement-foreign :
    (c : Cluster) (name other : List ℕ) (ip : Ip) (bytes : Slice)
    → name ≢ other
    → take_announcement c name ip (some (other, bytes)) ≡ ok c
unfolding take_announcement
take_announcement-foreign c name other ip bytes ne = if_neg (Name-discrete name other) ne _ _
