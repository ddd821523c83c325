-- ===== src/Membership/Backoff/Patience.antt =====
-- membership.go: the retries of a node that stays dead, up to its last visit.
use smudge.Prelude.{
  ℕ, zero, suc, ◌+◌, ◌-◌, ◌^◌, ◌≤◌, ◌<◌, ◌≡◌, ◌≢◌, refl, sym, ap, ◌∙◌, subst, false, List,
  replicate, All, All-append, ltb, arith,
}
use native.Mathlib.Nat.{suc-add, zero-add}
use smudge.Cluster.{DeadNodeCounter}
use smudge.Membership.Backoff.{Visit, skips, forgets, visit_dead, max_dead_node_retries}
use smudge.Membership.Backoff.Schedule.{
  visits, visits-append, visits-wait, waiting, wait, waits, visits-waits, visit_count,
  visit_dead-skips,
}

-- The retries and the countdown behind whole waits, and in the last of them.
visits-state : (m n : ℕ) (d : DeadNodeCounter) → (visits (m + n) d).0 ≡ (visits n (visits m d).0).0
unfolding visits
visits-state zero n d = rw zero-add refl
visits-state (suc m) n d = rw (suc-add, visits-state m n (visit_dead d).0) refl

visits-counter :
    (rounds r : ℕ) → (visits (visit_count rounds r) (waiting r)).0 ≡ waiting (r + rounds)
unfolding visit_count
visits-counter zero r = unfold visits in ap waiting (omega arith)
visits-counter (suc rounds) r =
    visits-state (2 ^ r) (visit_count rounds (r + 1)) (waiting r)
    ∙ ap (λ (t : DeadNodeCounter × List Visit). (visits (visit_count rounds (r + 1)) t.0).0)
        (visits-wait r)
    ∙ visits-counter rounds (r + 1)
    ∙ ap waiting (omega arith)

visits-skips :
    (k r : ℕ)
    → visits k (record { retry = r; retry_countdown = suc k })
      ≡ (record { retry = r; retry_countdown = 1 }, replicate k skips)
unfolding visits
visits-skips zero r = refl
visits-skips (suc k) r = rw (visit_dead-skips r k, visits-skips k r) refl

abbrev pub Kept : List Visit → Type 0
Kept vs = All (λ v. v ≢ forgets) vs

skips-Kept : (k : ℕ) → Kept (replicate k skips)
skips-Kept zero = tt
skips-Kept (suc k) = ((λ e. cc), skips-Kept k)

wait-Kept : (r k : ℕ) → r < 10 → Kept (wait r k)
wait-Kept r k h =
    let more : ltb max_dead_node_retries (r + 1) ≡ false = ground (arith, h) in
    All-append (λ v. v ≢ forgets) (replicate k skips) _ (skips-Kept k) (rw more ((λ e. cc), tt))

waits-Kept : (rounds r : ℕ) → r + rounds ≤ 10 → Kept (waits rounds r)
unfolding waits
waits-Kept zero r h = tt
waits-Kept (suc rounds) r h =
    All-append (λ v. v ≢ forgets) (wait r (2 ^ r - 1)) (waits rounds (r + 1))
      (wait-Kept r (2 ^ r - 1) (omega (arith, h))) (waits-Kept rounds (r + 1) (omega (arith, h)))

-- All visits but the last of the eleventh wait.
unfoldable pub before_last : ℕ
before_last = visit_count 9 1 + 1023

pub visits-before : (visits before_last (waiting 1)).0 ≡ record { retry = 10; retry_countdown = 1 }
unfolding before_last
visits-before =
    visits-state (visit_count 9 1) 1023 (waiting 1)
    ∙ ap (λ d. (visits 1023 d).0) (visits-counter 9 1)
    ∙ ap (λ (t : DeadNodeCounter × List Visit). t.0) (visits-skips 1023 10)

pub visits-Kept : Kept (visits before_last (waiting 1)).1
unfolding before_last
visits-Kept = subst Kept (sym (visits-append (visit_count 9 1) 1023 (waiting 1))) (
    All-append (λ v. v ≢ forgets) (visits (visit_count 9 1) (waiting 1)).1 _
      (subst Kept (sym (visits-waits 9 1)) (waits-Kept 9 1 (omega arith)))
      (subst (λ d. Kept (visits 1023 d).1) (sym (visits-counter 9 1))
        (subst (λ (t : DeadNodeCounter × List Visit). Kept t.1) (sym (visits-skips 1023 10))
          (skips-Kept 1023))))

-- No visit up to the last but one forgets the node.
pub Kept-at :
    (m n : ℕ) (d : DeadNodeCounter)
    → n < m
    → Kept (visits m d).1
    → (visit_dead (visits n d).0).1 ≢ forgets
unfolding visits
Kept-at zero n d lt h = absurd (omega arith)
Kept-at (suc m) zero d lt h = h.0
Kept-at (suc m) (suc n) d lt h = Kept-at m n (visit_dead d).0 (omega arith) h.1

pub visits_next :
    (n : ℕ) (d : DeadNodeCounter) → (visits (suc n) d).0 ≡ (visit_dead (visits n d).0).0
unfolding visits
visits_next zero d = refl
visits_next (suc n) d = visits_next n (visit_dead d).0
