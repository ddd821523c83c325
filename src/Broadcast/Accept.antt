-- ===== src/Broadcast/Accept.antt =====
-- broadcast.go: receiveBroadcast on a broadcast that comes more than once.
use smudge.Prelude.{
  sym, ◌≡◌, refl, ap, subst, ◌∙◌, true, Option, none, some, List, Bool-cases, inl, inr, arith,
}
use smudge.Prelude.Outcome.{ok, >>=-eq-ok}
use smudge.Prelude.Maps.{insert, has_key, lookup-insert_self}
use smudge.Events.{do_broadcast_update}
use smudge.Cluster.{Cluster, Broadcast, Ref, Tag, Tag-discrete, deref, address_of}
use smudge.Broadcast.{Error, label, check_origin, accept, unless, receive_broadcast}

has_key-insert :
    (k : Tag) (b : Broadcast) (m : List (Tag × Broadcast))
    → has_key Tag-discrete k (insert Tag-discrete k b m) ≡ true
unfolding has_key
has_key-insert k b m = ground (arith, lookup-insert_self Tag-discrete k b m)

pub accept-heap : (c : Cluster) (b : Broadcast) → (accept c b).heap ≡ c.heap
unfolding accept do_broadcast_update
accept-heap c b = ground arith

check_origin-same :
    (c c' : Cluster) (r : Ref) → c'.heap ≡ c.heap → check_origin c' r ≡ check_origin c r
unfolding check_origin deref
check_origin-same c c' r e = rw e refl

pub label-same : (c c' : Cluster) (b : Broadcast) → c'.heap ≡ c.heap → label c' b ≡ label c b
unfolding label address_of deref
label-same c c' b e = rw e refl

accept-has_key :
    (c : Cluster) (b : Broadcast) → has_key Tag-discrete (label c b) (accept c b).broadcasts ≡ true
unfolding accept do_broadcast_update
accept-has_key c b = elim (Bool-cases (has_key Tag-discrete (label c b) c.broadcasts)) [
  | inl old ↦ rw old old
  | inr new ↦ rw new (has_key-insert (label c b) b c.broadcasts)
]

accept-known :
    (c : Cluster) (b : Broadcast)
    → has_key Tag-discrete (label c b) c.broadcasts ≡ true
    → accept c b ≡ c
unfolding accept
accept-known c b e = rw e refl

accept-twice : (c : Cluster) (b : Broadcast) → accept (accept c b) b ≡ accept c b
accept-twice c b = accept-known (accept c b) b (
    ap (λ k. has_key Tag-discrete k (accept c b).broadcasts)
      (label-same c (accept c b) b (accept-heap c b))
    ∙ accept-has_key c b)

unless-twice :
    (c : Cluster) (b : Broadcast) (fault : Option Error)
    → unless fault (unless fault c (accept c b)) (accept (unless fault c (accept c b)) b)
      ≡ unless fault c (accept c b)
unless-twice c b (some e) = refl
unless-twice c b none = accept-twice c b

unless-heap :
    (c : Cluster) (b : Broadcast) (fault : Option Error)
    → (unless fault c (accept c b)).heap ≡ c.heap
unless-heap c b (some e) = refl
unless-heap c b none = accept-heap c b

ok-inj : (c d : Cluster) → ok c ≡ ok d → c ≡ d
ok-inj c d e = cc

-- Receiving a broadcast a second time changes nothing: the listeners are not called again, and the
-- counter of the broadcast that is held stays what it is.
pub receive_broadcast-twice :
    (c c' : Cluster) (b : Option Broadcast)
    → receive_broadcast c b ≡ ok c'
    → receive_broadcast c' b ≡ ok c'
unfolding receive_broadcast
receive_broadcast-twice c c' none e = refl
receive_broadcast-twice c c' (some b) e =
    let (fault, checked, left) =
      >>=-eq-ok (check_origin c b.origin) (λ f. ok (unless f c (accept c b))) e in
    let d = unless fault c (accept c b) in
    let again = check_origin-same c d b.origin (unless-heap c b fault) ∙ sym checked in
    subst (λ s. receive_broadcast s (some b) ≡ ok s) (ok-inj d c' left)
      (unfold receive_broadcast in rw again (ap ok (unless-twice c b fault)))
