-- ===== src/Cluster/Heap.antt =====
-- Nodes in the heap: what a write leaves, and how a step may change the nodes that are there.
use smudge.Prelude.{
  ℕ, zero, suc, ◌≤◌, ◌<◌, ◌≡◌, ◌≢◌, refl, ap, ◌∙◌, List, [], ◌∷◌, ◌++◌, length, length-append,
  length-set, get_or, get_or-set_self, get_or-set_ne, arith, ℕ_discrete, subst,
}
use smudge.Prelude.Outcome.{Ends, Any}
use smudge.Prelude.Text.{ℤ, pos, negsuc}
use smudge.Cluster.{as_size, Cluster, Node, Ref, no_node, deref, assign, alloc, address, address_of}

get_or-append_left :
    (xs ys : List Node) (i : ℕ) (d : Node) → i < length xs → get_or (xs ++ ys) i d ≡ get_or xs i d
get_or-append_left [] ys i d h = elim h [ ]
get_or-append_left (x ∷ xs) ys zero d h = refl
get_or-append_left (x ∷ xs) ys (suc i) d h = get_or-append_left xs ys i d (omega arith)

get_or-append_end : (xs : List Node) (n d : Node) → get_or (xs ++ (n ∷ [])) (length xs) d ≡ n
get_or-append_end [] n d = refl
get_or-append_end (x ∷ xs) n d = get_or-append_end xs n d

pub deref-assign_self :
    (c : Cluster) (r : Ref) (n : Node) → r < length c.heap → deref (assign c r n) r ≡ n
unfolding deref assign
deref-assign_self c r n h = get_or-set_self c.heap r n no_node h

pub deref-assign_ne :
    (c : Cluster) (r j : Ref) (n : Node) → r ≢ j → deref (assign c r n) j ≡ deref c j
unfolding deref assign
deref-assign_ne c r j n h = get_or-set_ne c.heap r j n no_node h

pub length-assign : (c : Cluster) (r : Ref) (n : Node) → length (assign c r n).heap ≡ length c.heap
unfolding assign
length-assign c r n = length-set c.heap r n

-- A property of nodes that holds of the one written and of the one that was there.
pub assign-at :
    (c : Cluster) (r : Ref) (n : Node) (P : Ref → Node → Type 0)
    → r < length c.heap
    → P r n
    → (j : Ref) → P j (deref c j)
    → P j (deref (assign c r n) j)
assign-at c r n P h pn j pj = elim (ℕ_discrete r j) [
  | yes e ↦ subst (λ k. P k (deref (assign c r n) k)) e (rw (deref-assign_self c r n h) pn)
  | no ne ↦ rw (deref-assign_ne c r j n ne) pj
]

pub deref-alloc_old :
    (c : Cluster) (n : Node) (j : Ref) → j < length c.heap → deref (alloc c n).0 j ≡ deref c j
unfolding deref alloc
deref-alloc_old c n j h = get_or-append_left c.heap (n ∷ []) j no_node h

pub deref-alloc_new : (c : Cluster) (n : Node) → deref (alloc c n).0 (alloc c n).1 ≡ n
unfolding deref alloc
deref-alloc_new c n = get_or-append_end c.heap n no_node

-- Steps make nodes and write to them, but never move a node to another address.
pub record Keeps (c c' : Cluster) : Type 0 where
  pub same_env : c'.env ≡ c.env
  pub same_host : c'.this_host ≡ c.this_host
  pub longer : length c.heap ≤ length c'.heap
  pub keeps : (r : Ref) → r < length c.heap → address_of c' r ≡ address_of c r

-- Nor, most of them, do they take a node's heartbeat back.
pub record Grows (c c' : Cluster) : Type 0 where
  pub moves_none : Keeps c c'
  pub open moves_none use *
  pub heartbeats : (r : Ref) → r < length c.heap → (deref c r).heartbeat ≤ (deref c' r).heartbeat

Keeps-refl : (c : Cluster) → Keeps c c
Keeps-refl c = record {
  same_env = refl;
  same_host = refl;
  longer = omega arith;
  keeps = λ r h. refl;
}

pub Keeps-trans : (c d e : Cluster) → Keeps c d → Keeps d e → Keeps c e
Keeps-trans c d e g h = record {
  same_env = h.same_env ∙ g.same_env;
  same_host = h.same_host ∙ g.same_host;
  longer = omega (arith, g.longer, h.longer);
  keeps = λ r lt. h.keeps r (omega (arith, g.longer)) ∙ g.keeps r lt;
}

pub Grows-refl : (c : Cluster) → Grows c c
Grows-refl c = record { moves_none = Keeps-refl c; heartbeats = λ r h. omega arith }

pub Grows-trans : (c d e : Cluster) → Grows c d → Grows d e → Grows c e
Grows-trans c d e g h = record {
  moves_none = Keeps-trans c d e g.moves_none h.moves_none;
  heartbeats = λ r lt. omega (arith, g.heartbeats r lt, h.heartbeats r (omega (arith, g.longer)));
}

-- A write that keeps the address.
pub assign-Keeps :
    (c : Cluster) (r : Ref) (n : Node)
    → r < length c.heap
    → address n ≡ address (deref c r)
    → Keeps c (assign c r n)
unfolding address_of
assign-Keeps c r n h same = record {
  same_env = unfold assign in refl;
  same_host = unfold assign in refl;
  longer = omega (arith, length-assign c r n);
  keeps = λ j lt. assign-at c r n (λ k m. address m ≡ address (deref c k)) h same j refl;
}

-- A write that does not lower the heartbeat either.
pub assign-Grows :
    (c : Cluster) (r : Ref) (n : Node)
    → r < length c.heap
    → address n ≡ address (deref c r)
    → (deref c r).heartbeat ≤ n.heartbeat
    → Grows c (assign c r n)
assign-Grows c r n h same more = record {
  moves_none = assign-Keeps c r n h same;
  heartbeats =
      λ j lt. assign-at c r n (λ k m. (deref c k).heartbeat ≤ m.heartbeat) h more j (omega arith);
}

alloc-Keeps : (c : Cluster) (n : Node) → Keeps c (alloc c n).0
unfolding address_of
alloc-Keeps c n = record {
  same_env = unfold alloc in refl;
  same_host = unfold alloc in refl;
  longer = unfold alloc in omega (arith, length-append c.heap (n ∷ []));
  keeps = λ j lt. ap address (deref-alloc_old c n j lt);
}

pub alloc-Grows : (c : Cluster) (n : Node) → Grows c (alloc c n).0
alloc-Grows c n = record {
  moves_none = alloc-Keeps c n;
  heartbeats = λ j lt. omega (arith, ap (λ (m : Node). m.heartbeat) (deref-alloc_old c n j lt));
}

pub as_size-Ends : (n : ℤ) → Ends Any (as_size n)
unfolding as_size
as_size-Ends (pos n) = tt
as_size-Ends (negsuc n) = tt
