-- ===== src/Membership/Backoff/Schedule.antt =====
-- membership.go: the visits of a dead node in the loop of Begin, one after another.
use smudge.Prelude.{
  ℕ, zero, suc, ◌+◌, ◌-◌, ◌^◌, ◌≤◌, ◌≡◌, refl, ap, ◌∙◌, List, [], ◌∷◌, ◌++◌, replicate, ltb,
  if◌then◌else◌, arith,
}
use native.Mathlib.Nat.{suc-add, zero-add}
use smudge.Cluster.{DeadNodeCounter}
use smudge.Membership.Backoff.{Visit, skips, pings, forgets, visit_dead, max_dead_node_retries}

-- `n` visits from a counter on: the counter behind them, and what each came to.
unfoldable pub visits : ℕ → DeadNodeCounter → DeadNodeCounter × List Visit
visits zero d = (d, [])
visits (suc n) d =
    let first = visit_dead d in let others = visits n first.0 in (others.0, first.1 ∷ others.1)

-- The counter when a wait begins, and the visits of that wait.
abbrev pub waiting : ℕ → DeadNodeCounter
waiting r = record { retry = r; retry_countdown = 2 ^ r }

abbrev pub wait : ℕ → ℕ → List Visit
wait r k =
    replicate k skips ++ ((if ltb max_dead_node_retries (r + 1) then forgets else pings) ∷ [])

pub visit_dead-skips :
    (r k : ℕ)
    → visit_dead (record { retry = r; retry_countdown = suc (suc k) })
      ≡ (record { retry = r; retry_countdown = suc k }, skips)
unfolding visit_dead
visit_dead-skips r k = ground arith

pub visits-step :
    (n : ℕ) (d : DeadNodeCounter)
    → visits (suc n) d
      ≡ ((visits n (visit_dead d).0).0, (visit_dead d).1 ∷ (visits n (visit_dead d).0).1)
unfolding visits
visits-step n d = refl

visits-countdown :
    (r k : ℕ)
    → visits (suc k) (record { retry = r; retry_countdown = suc k }) ≡ (waiting (r + 1), wait r k)
visits-countdown r zero = unfold visits visit_dead in refl
visits-countdown r (suc k) =
    visits-step (suc k) (record { retry = r; retry_countdown = suc (suc k) })
    ∙ ap (λ (t : DeadNodeCounter × Visit). ((visits (suc k) t.0).0, t.1 ∷ (visits (suc k) t.0).1))
        (visit_dead-skips r k)
    ∙ ap (λ (t : DeadNodeCounter × List Visit). (t.0, skips ∷ t.1)) (visits-countdown r k)

countdown-pos :
    (r n : ℕ)
    → 1 ≤ n
    → visits n (record { retry = r; retry_countdown = n }) ≡ (waiting (r + 1), wait r (n - 1))
countdown-pos r zero h = absurd (omega arith)
countdown-pos r (suc k) h =
    visits-countdown r k ∙ ap (λ (t : ℕ). (waiting (r + 1), wait r t)) (omega arith)

power-pos : (r : ℕ) → 1 ≤ 2 ^ r
power-pos zero = omega arith
power-pos (suc r) = grind (arith, power-pos r)

pub visits-append :
    (m n : ℕ) (d : DeadNodeCounter)
    → (visits (m + n) d).1 ≡ (visits m d).1 ++ (visits n (visits m d).0).1
unfolding visits
visits-append zero n d = rw zero-add refl
visits-append (suc m) n d = rw (suc-add, visits-append m n (visit_dead d).0) refl

-- The visits of `rounds` waits, and how many these are.
unfoldable pub waits : ℕ → ℕ → List Visit
waits zero r = []
waits (suc rounds) r = wait r (2 ^ r - 1) ++ waits rounds (r + 1)

unfoldable pub visit_count : ℕ → ℕ → ℕ
visit_count zero r = 0
visit_count (suc rounds) r = 2 ^ r + visit_count rounds (r + 1)

pub visits-wait : (r : ℕ) → visits (2 ^ r) (waiting r) ≡ (waiting (r + 1), wait r (2 ^ r - 1))
visits-wait r = countdown-pos r (2 ^ r) (power-pos r)

-- A dead node whose counter stands at `r` retries and a countdown of 2^r is passed over 2^r - 1
-- times and is then pinged; its wait is then twice as long. After more than 10 retries it is
-- forgotten instead of pinged.
pub visits-waits : (rounds r : ℕ) → (visits (visit_count rounds r) (waiting r)).1 ≡ waits rounds r
unfolding waits visit_count
visits-waits zero r = unfold visits in refl
visits-waits (suc rounds) r =
    visits-append (2 ^ r) (visit_count rounds (r + 1)) (waiting r)
    ∙ rw (visits-wait r, visits-waits rounds (r + 1)) refl
