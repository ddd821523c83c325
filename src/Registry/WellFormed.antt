-- ===== src/Registry/WellFormed.antt =====
-- registry.go: the maps of nodes hold each node under its own address, and no node has the pseudo
-- status FORWARD_TO.
use smudge.Prelude.{
  ◌≤◌, ◌<◌, ◌≡◌, ◌≢◌, refl, sym, ap, ◌∙◌, [], ◌∷◌, length, length-append, All, arith, dec_lt,
  if_pos, if_neg,
}
use smudge.Prelude.Maps.{Distinct, insert, remove}
use smudge.Net.{Address, Address-discrete}
use smudge.NodeMap.{NodeMap}
use smudge.Cluster.{
  Cluster, Node, Ref, status_forward_to, deref, assign, alloc, address, address_of,
}
use smudge.Registry.Duties.{AcksOk, AcksOk-mono, TasksOk, TasksOk-mono}
use smudge.Cluster.Heap.{
  Keeps, Keeps-trans, assign-Keeps, Grows, Grows-refl, Grows-trans, assign-Grows, alloc-Grows,
  assign-at, deref-alloc_old, deref-alloc_new, length-assign,
}

-- Every entry of the map is a node of the heap, under its address.
abbrev pub Entry : Cluster → Address × Ref → Type 0
Entry c e = (e.1 < length c.heap) × (address_of c e.1 ≡ e.0)

abbrev pub Keyed : Cluster → NodeMap → Type 0
Keyed c m = All (Entry c) m

abbrev pub StatusesOk : Cluster → Type 0
StatusesOk c = (r : Ref) → r < length c.heap → (deref c r).status ≢ status_forward_to

pub record IsWellFormed (c : Cluster) : Type 0 where
  pub known : Keyed c c.known_nodes
  pub updated : Keyed c c.updated_nodes
  pub known_distinct : Distinct Address-discrete c.known_nodes
  pub updated_distinct : Distinct Address-discrete c.updated_nodes
  pub host_lt : c.this_host < length c.heap
  pub statuses : StatusesOk c
  pub acks : AcksOk (length c.heap) c.pending_acks
  pub duties : TasksOk (length c.heap) c.tasks

-- Statuses after a node is made.
alloc_status :
    (c : Cluster) (n : Node) (j : Ref)
    → n.status ≢ status_forward_to
    → StatusesOk c
    → j < length (alloc c n).0.heap
    → (deref (alloc c n).0 j).status ≢ status_forward_to
alloc_status c n j st s lt = elim (dec_lt j (length c.heap)) [
  | yes old ↦ rw (deref-alloc_old c n j old) (s j old)
  | no new ↦
      let e : j ≡ length c.heap =
        unfold alloc in omega (arith, length-append c.heap (n ∷ []), lt) in
      rw (e, last) st
]
  where
    last : deref (alloc c n).0 (length c.heap) ≡ n
    last = unfold alloc in (deref-alloc_new c n)

-- A step that keeps all this, and the nodes at their addresses.
pub record Sound (c c' : Cluster) : Type 0 where
  pub grows : Grows c c'
  pub well_formed : IsWellFormed c'

pub Sound-then : (c d e : Cluster) → Sound c d → (IsWellFormed d → Sound d e) → Sound c e
Sound-then c d e s t =
    let next = t s.well_formed in
    record { grows = Grows-trans c d e s.grows next.grows; well_formed = next.well_formed }

pub Sound-refl : (c : Cluster) → IsWellFormed c → Sound c c
Sound-refl c w = record { grows = Grows-refl c; well_formed = w }

pub Keyed-Keeps : (c c' : Cluster) (m : NodeMap) → Keeps c c' → Keyed c m → Keyed c' m
Keyed-Keeps c c' [] g k = tt
Keyed-Keeps c c' ((a, r) ∷ m) g k =
    ((omega (arith, g.longer), g.keeps r k.0.0 ∙ k.0.1), Keyed-Keeps c c' m g k.1)

pub Keyed-insert :
    (c : Cluster) (r : Ref) (m : NodeMap)
    → r < length c.heap
    → Keyed c m
    → Keyed c (insert Address-discrete (address_of c r) r m)
unfolding insert
Keyed-insert c r [] h k = ((h, refl), tt)
Keyed-insert c r ((a, q) ∷ m) h k = elim (Address-discrete a (address_of c r)) [
  | yes e ↦ rw (if_pos _ e) ((h, sym e), k.1)
  | no n ↦ rw (if_neg _ n) (k.0, Keyed-insert c r m h k.1)
]

pub Keyed-remove :
    (c : Cluster) (a : Address) (m : NodeMap) → Keyed c m → Keyed c (remove Address-discrete a m)
unfolding remove
Keyed-remove c a [] k = tt
Keyed-remove c a ((b, q) ∷ m) k = elim (Address-discrete b a) [
  | yes e ↦ rw (if_pos _ e) (Keyed-remove c a m k.1)
  | no n ↦ rw (if_neg _ n) (k.0, Keyed-remove c a m k.1)
]

-- A step that changes none of the nodes.
pub Grows-same :
    (c c' : Cluster) → c'.heap ≡ c.heap → c'.env ≡ c.env → c'.this_host ≡ c.this_host → Grows c c'
unfolding deref address_of
Grows-same c c' h e t = record {
  moves_none = record {
    same_env = e;
    same_host = t;
    longer = omega (arith, ap length h);
    keeps = λ r lt. rw h;
  };
  heartbeats = λ r lt. rw h (omega arith);
}

StatusesOk-same : (c c' : Cluster) → c'.heap ≡ c.heap → StatusesOk c → StatusesOk c'
unfolding deref
StatusesOk-same c c' h s = λ r lt. rw h (s r (omega (arith, ap length h)))

-- Only the maps of nodes and other variables change.
pub maps-Sound :
    (c c' : Cluster)
    → c'.heap ≡ c.heap
    → c'.env ≡ c.env
    → c'.this_host ≡ c.this_host
    → Keyed c c'.known_nodes
    → Keyed c c'.updated_nodes
    → Distinct Address-discrete c'.known_nodes
    → Distinct Address-discrete c'.updated_nodes
    → AcksOk (length c.heap) c'.pending_acks
    → TasksOk (length c.heap) c'.tasks
    → IsWellFormed c
    → Sound c c'
maps-Sound c c' h e t k u dk du pend spawned w =
    let g = Grows-same c c' h e t in
    record {
      grows = g;
      well_formed = record {
        known = Keyed-Keeps c c' c'.known_nodes g.moves_none k;
        updated = Keyed-Keeps c c' c'.updated_nodes g.moves_none u;
        known_distinct = dk;
        updated_distinct = du;
        host_lt = rw t (omega (arith, ap length h, w.host_lt));
        statuses = StatusesOk-same c c' h w.statuses;
        acks = AcksOk-mono (length c.heap) (length c'.heap) c'.pending_acks g.longer pend;
        duties = TasksOk-mono (length c.heap) (length c'.heap) c'.tasks g.longer spawned;
      };
    }

-- A write to a node, which keeps the address.
assign-IsWellFormed :
    (c : Cluster) (r : Ref) (n : Node)
    → r < length c.heap
    → address n ≡ address (deref c r)
    → n.status ≢ status_forward_to
    → IsWellFormed c
    → IsWellFormed (assign c r n)
assign-IsWellFormed c r n h same st w =
    let g = assign-Keeps c r n h same in
    record {
      known = unfold assign in (Keyed-Keeps c _ c.known_nodes g w.known);
      updated = unfold assign in (Keyed-Keeps c _ c.updated_nodes g w.updated);
      known_distinct = unfold assign in w.known_distinct;
      updated_distinct = unfold assign in w.updated_distinct;
      host_lt = omega (arith, w.host_lt, g.same_host, g.longer);
      statuses = λ j lt.
          assign-at c r n (λ k m. m.status ≢ status_forward_to) h st j
            (w.statuses j (omega (arith, length-assign c r n)));
      acks = unfold assign in (AcksOk-mono (length c.heap) _ c.pending_acks g.longer w.acks);
      duties = unfold assign in (TasksOk-mono (length c.heap) _ c.tasks g.longer w.duties);
    }

pub assign-Sound :
    (c : Cluster) (r : Ref) (n : Node)
    → r < length c.heap
    → address n ≡ address (deref c r)
    → (deref c r).heartbeat ≤ n.heartbeat
    → n.status ≢ status_forward_to
    → IsWellFormed c
    → Sound c (assign c r n)
assign-Sound c r n h same more st w = record {
  grows = assign-Grows c r n h same more;
  well_formed = assign-IsWellFormed c r n h same st w;
}

pub alloc-Sound :
    (c : Cluster) (n : Node) → n.status ≢ status_forward_to → IsWellFormed c → Sound c (alloc c n).0
alloc-Sound c n st w =
    let g = alloc-Grows c n in
    record {
      grows = g;
      well_formed = record {
        known = unfold alloc in (Keyed-Keeps c _ c.known_nodes g.moves_none w.known);
        updated = unfold alloc in (Keyed-Keeps c _ c.updated_nodes g.moves_none w.updated);
        known_distinct = unfold alloc in w.known_distinct;
        updated_distinct = unfold alloc in w.updated_distinct;
        host_lt = omega (arith, w.host_lt, g.same_host, g.longer);
        statuses = λ j lt. alloc_status c n j st w.statuses lt;
        acks = unfold alloc in (AcksOk-mono (length c.heap) _ c.pending_acks g.longer w.acks);
        duties = unfold alloc in (TasksOk-mono (length c.heap) _ c.tasks g.longer w.duties);
      };
    }

-- A step that keeps a state well-formed, and the nodes at their addresses, but may take heartbeats
-- back.
pub record Held (c c' : Cluster) : Type 0 where
  pub moves_none : Keeps c c'
  pub well_formed : IsWellFormed c'

pub Sound-Held : (c c' : Cluster) → Sound c c' → Held c c'
Sound-Held c c' s = record { moves_none = s.grows.moves_none; well_formed = s.well_formed }

pub Held-then : (c d e : Cluster) → Held c d → (IsWellFormed d → Held d e) → Held c e
Held-then c d e s t = record {
  moves_none = Keeps-trans c d e s.moves_none (t s.well_formed).moves_none;
  well_formed = (t s.well_formed).well_formed;
}

pub assign-Held :
    (c : Cluster) (r : Ref) (n : Node)
    → r < length c.heap
    → address n ≡ address (deref c r)
    → n.status ≢ status_forward_to
    → IsWellFormed c
    → Held c (assign c r n)
assign-Held c r n h same st w = record {
  moves_none = assign-Keeps c r n h same;
  well_formed = assign-IsWellFormed c r n h same st w;
}
