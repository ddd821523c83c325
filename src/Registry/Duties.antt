-- ===== src/Registry/Duties.antt =====
-- membership.go: the pending acks and the goroutines that wait name nodes that exist.
use smudge.Prelude.{
  ℕ, ◌≤◌, ◌<◌, ◌≡◌, List, [], ◌∷◌, ◌++◌, Option, none, some, All, All-append, arith, if_pos, if_neg,
}
use smudge.Prelude.Maps.{insert, remove, lookup}
use smudge.Cluster.{
  Ref, Tag, Tag-discrete, PendingAck, PendingAckType, pack_ping, Task, transmit_ack,
  forward_on_timeout,
}

-- Only a plain ping has no callback.
abbrev pub CallbackOk : ℕ → PendingAckType → Option Ref → Type 0
CallbackOk n kind none = kind ≡ pack_ping
CallbackOk n kind (some r) = r < n

abbrev pub AckOk : ℕ → PendingAck → Type 0
AckOk n a = (a.node < n) × CallbackOk n a.pack_type a.callback

abbrev pub AcksOk : ℕ → List (Tag × PendingAck) → Type 0
AcksOk n acks = All (λ e. AckOk n e.1) acks

abbrev pub TaskOk : ℕ → Task → Type 0
TaskOk n (transmit_ack r code) = r < n
TaskOk n (forward_on_timeout a) = AckOk n a

abbrev pub TasksOk : ℕ → List Task → Type 0
TasksOk n tasks = All (TaskOk n) tasks

-- More nodes do no harm.
CallbackOk-mono :
    (n m : ℕ) (kind : PendingAckType) (r : Option Ref)
    → n ≤ m
    → CallbackOk n kind r
    → CallbackOk m kind r
CallbackOk-mono n m kind none le h = h
CallbackOk-mono n m kind (some r) le h = omega arith

pub AckOk-mono : (n m : ℕ) (a : PendingAck) → n ≤ m → AckOk n a → AckOk m a
AckOk-mono n m a le h = (omega (arith, h.0), CallbackOk-mono n m a.pack_type a.callback le h.1)

pub AcksOk-mono : (n m : ℕ) (acks : List (Tag × PendingAck)) → n ≤ m → AcksOk n acks → AcksOk m acks
AcksOk-mono n m [] le h = tt
AcksOk-mono n m ((k, a) ∷ acks) le h = (AckOk-mono n m a le h.0, AcksOk-mono n m acks le h.1)

TaskOk-mono : (n m : ℕ) (t : Task) → n ≤ m → TaskOk n t → TaskOk m t
TaskOk-mono n m (transmit_ack r code) le h = omega arith
TaskOk-mono n m (forward_on_timeout a) le h = AckOk-mono n m a le h

pub TasksOk-mono : (n m : ℕ) (tasks : List Task) → n ≤ m → TasksOk n tasks → TasksOk m tasks
TasksOk-mono n m [] le h = tt
TasksOk-mono n m (t ∷ tasks) le h = (TaskOk-mono n m t le h.0, TasksOk-mono n m tasks le h.1)

module _ (n : ℕ) (k : Tag) where
  pub AcksOk-insert :
      (a : PendingAck) (acks : List (Tag × PendingAck))
      → AckOk n a
      → AcksOk n acks
      → AcksOk n (insert Tag-discrete k a acks)
  unfolding insert
  AcksOk-insert a [] ok h = (ok, tt)
  AcksOk-insert a ((j, b) ∷ acks) ok h = elim (Tag-discrete j k) [
    | yes e ↦ rw (if_pos _ e) (ok, h.1)
    | no ne ↦ rw (if_neg _ ne) (h.0, AcksOk-insert a acks ok h.1)
  ]

  pub AcksOk-remove :
      (acks : List (Tag × PendingAck)) → AcksOk n acks → AcksOk n (remove Tag-discrete k acks)
  unfolding remove
  AcksOk-remove [] h = tt
  AcksOk-remove ((j, b) ∷ acks) h = elim (Tag-discrete j k) [
    | yes e ↦ rw (if_pos _ e) (AcksOk-remove acks h.1)
    | no ne ↦ rw (if_neg _ ne) (h.0, AcksOk-remove acks h.1)
  ]

  -- What a lookup finds is in order.
  abbrev pub FoundOk : Option PendingAck → Type 0
  FoundOk none = Unit {0}
  FoundOk (some a) = AckOk n a

  pub AcksOk-lookup :
      (acks : List (Tag × PendingAck)) → AcksOk n acks → FoundOk (lookup Tag-discrete k acks)
  unfolding lookup
  AcksOk-lookup [] h = tt
  AcksOk-lookup ((j, b) ∷ acks) h = elim (Tag-discrete j k) [
    | yes e ↦ rw (if_pos _ e) h.0
    | no ne ↦ rw (if_neg _ ne) (AcksOk-lookup acks h.1)
  ]

pub TasksOk-append :
    (n : ℕ) (tasks : List Task) (t : Task)
    → TasksOk n tasks
    → TaskOk n t
    → TasksOk n (tasks ++ (t ∷ []))
TasksOk-append n tasks t h ok = All-append (TaskOk n) tasks (t ∷ []) h (ok, tt)
