-- ===== src/Broadcast/Labels.antt =====
-- broadcast.go: the map of broadcasts holds each under its label.
use smudge.Prelude.{
  ℕ, ◌≡◌, refl, sym, ◌∙◌, Option, none, some, List, [], ◌∷◌, All-map, Bool-cases, inl, inr, if_pos,
  if_neg, length, ltb,
}
use smudge.Prelude.Outcome.{Ends, Ends-bind, Any}
use smudge.Prelude.Maps.{insert, has_key}
use smudge.Events.{do_broadcast_update}
use smudge.Cluster.{Cluster, Broadcast, Tag, Tag-discrete}
use smudge.Broadcast.{
  Error, label, broadcast_bytes, accept, unless, check_origin, receive_broadcast,
}
use smudge.Broadcast.Accept.{label-same}
use smudge.Broadcast.Emit.{Labelled}
use smudge.Message.Rounds.{check_origin-Ends}

insert-Labelled :
    (c : Cluster) (b : Broadcast) (m : List (Tag × Broadcast))
    → Labelled c m
    → Labelled c (insert Tag-discrete (label c b) b m)
unfolding insert
insert-Labelled c b [] h = (refl, tt)
insert-Labelled c b ((k, d) ∷ m) h = elim (Tag-discrete k (label c b)) [
  | yes e ↦ rw (if_pos _ e) (e, h.1)
  | no n ↦ rw (if_neg _ n) (h.0, insert-Labelled c b m h.1)
]

Labelled-same :
    (c c' : Cluster) (m : List (Tag × Broadcast)) → c'.heap ≡ c.heap → Labelled c m → Labelled c' m
Labelled-same c c' m h =
    All-map (λ e. e.0 ≡ label c e.1) (λ e. e.0 ≡ label c' e.1) m
      (λ e l. l ∙ sym (label-same c c' e.1 h))

-- Every broadcast of the state stands under its label.
abbrev pub AllLabelled : Cluster → Type 0
AllLabelled c = Labelled c c.broadcasts

accept-Labelled : (c : Cluster) (b : Broadcast) → AllLabelled c → AllLabelled (accept c b)
unfolding accept do_broadcast_update
accept-Labelled c b h = elim (Bool-cases (has_key Tag-discrete (label c b) c.broadcasts)) [
  | inl old ↦ rw old h
  | inr new ↦ rw new (
      Labelled-same c _ (insert Tag-discrete (label c b) b c.broadcasts) refl
        (insert-Labelled c b c.broadcasts h))
]

unless-Labelled :
    (c : Cluster) (b : Broadcast) (fault : Option Error)
    → AllLabelled c
    → AllLabelled (unless fault c (accept c b))
unless-Labelled c b (some e) h = h
unless-Labelled c b none h = accept-Labelled c b h

broadcast_bytes-Labelled :
    (c : Cluster) (bytes : List ℕ) → AllLabelled c → AllLabelled (broadcast_bytes c bytes).0
unfolding broadcast_bytes
broadcast_bytes-Labelled c bytes h = elim (Bool-cases (ltb c.max_broadcast_bytes (length bytes))) [
  | inl long ↦ rw long h
  | inr short ↦ rw short (Labelled-same c _ _ refl (insert-Labelled c _ c.broadcasts h))
]

-- If every broadcast of the state stands under its label, that stays so, whatever bytes are given
-- to BroadcastBytes, and whatever broadcast is given to receiveBroadcast, unless it panics.
pub broadcasts-Labelled :
    (c : Cluster) (bytes : List ℕ) (received : Option Broadcast)
    → AllLabelled c
    → AllLabelled (broadcast_bytes c bytes).0 × Ends AllLabelled (receive_broadcast c received)
unfolding receive_broadcast
broadcasts-Labelled c bytes none h = (broadcast_bytes-Labelled c bytes h, h)
broadcasts-Labelled c bytes (some b) h = (
  broadcast_bytes-Labelled c bytes h,
  Ends-bind Any AllLabelled (check_origin c b.origin) _ (check_origin-Ends c b.origin)
      (λ fault _. unless-Labelled c b fault h),
)
