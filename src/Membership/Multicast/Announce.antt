-- ===== src/Membership/Multicast/Announce.antt =====
-- membership.go: guessMulticastAddress, and the loop of multicastAnnounce. The address that
-- ResolveUDPAddr makes of the multicast address and port is given; a round is one pass of the loop.
pub mod Heard
use smudge.Prelude.{
  ℕ, ◌≡◌, refl, ◌==◌, ltb, length, if◌then◌else◌, Bool-cases, inl, inr, Option, none, some, List,
  [], ◌∷◌, ◌++◌,
}
use smudge.Prelude.Outcome.{Outcome, ok, ◌>>=◌, Ends, Ends-bind, Any}
use smudge.Prelude.Text.{Text, runes, ℤ, pos, negsuc}
use smudge.Net.{Address, ipv4_len, ipv6_len}
use smudge.Cluster.{Cluster, Datagram}
use smudge.Message
use smudge.Message.Written.{encode-Ends}
use smudge.Properties.{Properties, nonempty_or}
use smudge.Registry.WellFormed.{IsWellFormed, Sound, Sound-refl}
use smudge.Membership.Transmit.{Error, dial_failure, write_failure}
use smudge.Membership.Transmit.Sound.{other-Sound}
use smudge.Membership.Multicast.{encode_multicast_announce_bytes}

abbrev pub default_ipv4_multicast_address : Text
default_ipv4_multicast_address = runes "224.0.0.0"

abbrev pub default_ipv6_multicast_address : Text
default_ipv6_multicast_address = runes "[ff02::1]"

-- What the IP length makes of an empty setting; logFatal only logs.
abbrev pub default_for : ℕ → Text
default_for ip_len =
    if ip_len == ipv6_len
    then default_ipv6_multicast_address
    else (if ip_len == ipv4_len then default_ipv4_multicast_address else [])

unfoldable pub guess_multicast_address : ℕ → Properties → Properties × Text
guess_multicast_address ip_len p =
    let v = nonempty_or p.multicast_address (default_for ip_len) in
    (record p { multicast_address = v }, v)

-- How a round ends: the function returns, or sleeps for so many seconds and goes round again.
pub data Next : Type 0 where
  returned : Option Error → Next
  sleeps : ℤ → Next

-- `GetMulticastAnnounceIntervalSeconds() > 0`.
abbrev pub next_of : ℤ → Next
next_of (pos n) = if n == 0 then returned none else sleeps (pos n)
next_of (negsuc n) = returned none

unfoldable pub announce_round : Cluster → List ℕ → Address → ℤ → Outcome (Cluster × Next)
announce_round c name to interval =
    let announced = (do
      bytes ← encode_multicast_announce_bytes c name
      let datagram : Datagram = record { to = to; payload = bytes }
      ok (
          if c.can_write to
          then (record c { sent = c.sent ++ (datagram ∷ []) }, next_of interval)
          else (c, returned (some write_failure)))) in
    if c.can_dial to then announced else ok (c, returned (some dial_failure))

encode_multicast-Ends :
    (c : Cluster) (name : List ℕ) → Ends Any (encode_multicast_announce_bytes c name)
unfolding encode_multicast_announce_bytes
encode_multicast-Ends c name = elim (Bool-cases (ltb 255 (length name))) [
  | inl long ↦ rw long tt
  | inr fits ↦ rw fits (Ends-bind Any _ (Message.encode c _) _ (encode-Ends c _) (λ bytes _. tt))
]

-- A round of multicastAnnounce returns or panics; it changes none of the nodes.
pub announce_round-Sound :
    (c : Cluster) (name : List ℕ) (to : Address) (interval : ℤ)
    → IsWellFormed c
    → Ends (λ t. Sound c t.0) (announce_round c name to interval)
unfolding announce_round
announce_round-Sound c name to interval w = elim (Bool-cases (c.can_dial to)) [
  | inr failed ↦ rw failed (Sound-refl c w)
  | inl dialled ↦ rw dialled (
      Ends-bind Any _ (encode_multicast_announce_bytes c name) _ (encode_multicast-Ends c name)
        (λ bytes _. elim (Bool-cases (c.can_write to)) [
          | inl wrote ↦ rw wrote (other-Sound c _ refl refl refl refl refl refl refl w)
          | inr failed ↦ rw failed (Sound-refl c w)
        ]))
]
