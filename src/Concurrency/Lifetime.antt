-- ===== src/Concurrency/Lifetime.antt =====
-- class Lifetime of packages/typescript/src/concurrency.ts: operations that run, and `close`, which
-- waits for them. An operation's deadline is a number; `settled`, `disposed` and `aborted` say what was
-- resolved, disposed and aborted. The continuations of `close` behind an `await` are the steps `wake`
-- and, as a test, `is_resolved`.
pub mod Running
pub mod Draining
pub mod Close
mod Tests
use ja3proxy.Base.{
  ℕ, suc, Bool, true, false, not, ◌&&◌, ◌||◌, List, [], ◌∷◌, ◌++◌, map, Option, none, some, ◌==◌,
  all, if◌then◌else◌,
}

-- Operation
pub record Operation : Type 0 where
  pub id : ℕ
  pub deadline : ℕ
  pub owns_deadline : Bool

-- A call of `close`: the operations that it waits for, and whether it still lets them drain.
pub record Closing : Type 0 where
  pub pending : List ℕ
  pub draining : Bool

pub record Lifetime : Type 0 where
  pub operations : List Operation
  pub closing : Option Closing
  pub closed : Bool
  pub next_id : ℕ
  pub settled : List ℕ
  pub disposed : List ℕ
  pub aborted : List ℕ

abbrev pub open_lifetime : Lifetime
open_lifetime = record {
  operations = [];
  closing = none;
  closed = false;
  next_id = 0;
  settled = [];
  disposed = [];
  aborted = [];
}

abbrev pub mem : ℕ → List ℕ → Bool
mem n [] = false
mem n (m ∷ ms) = n == m || mem n ms

abbrev pub operation_id : Operation → ℕ
operation_id op = op.id

abbrev pub operation_deadline : Operation → ℕ
operation_deadline op = op.deadline

pub stop_accepting : Lifetime → Lifetime
stop_accepting s = record s { closed = true }

pub register : ℕ → Bool → Lifetime → Lifetime
register deadline owns s = record s {
  operations =
      s.operations ++ record { id = s.next_id; deadline = deadline; owns_deadline = owns } ∷ [];
  next_id = suc s.next_id;
}

-- `begin` and `track` throw where `assertOpen` does, and change nothing then.
pub begin : ℕ → Lifetime → Lifetime
unfolding register
begin deadline s = if s.closed then s else register deadline true s

pub track : ℕ → Bool → Lifetime → Lifetime
unfolding register
track deadline already_accepted s =
    if not already_accepted && s.closed then s else register deadline false s

abbrev pub find_operation : ℕ → List Operation → Option Operation
find_operation i [] = none
find_operation i (op ∷ ops) = if op.id == i then some op else find_operation i ops

abbrev pub delete_operation : ℕ → List Operation → List Operation
delete_operation i [] = []
delete_operation i (op ∷ ops) =
    if op.id == i then delete_operation i ops else op ∷ delete_operation i ops

-- The closure `done` of an operation.
pub finish : Operation → Lifetime → Lifetime
finish op s = record s {
  operations = delete_operation op.id s.operations;
  settled = op.id ∷ s.settled;
  disposed = if op.owns_deadline then op.deadline ∷ s.disposed else s.disposed;
}

pub done : ℕ → Lifetime → Lifetime
unfolding finish
done i s = elim (find_operation i s.operations) [ none ↦ s | some op ↦ finish op s ]

pub abort_all : Lifetime → Lifetime
abort_all s = record s { aborted = map operation_deadline s.operations ++ s.aborted }

abbrev started : Bool → Lifetime → Lifetime
started drain s = record s {
  closed = true;
  closing = some (record { pending = map operation_id s.operations; draining = drain });
}

pub close : Bool → Lifetime → Lifetime
unfolding abort_all
close drain s = elim s.closing [
  | some c ↦ s
  | none ↦ if drain then started drain s else abort_all (started drain s)
]

abbrev pub all_settled : List ℕ → Lifetime → Bool
all_settled ids s = all (λ i. mem i s.settled) ids

-- The race between the drained operations and the timer is over.
pub wake : Bool → Lifetime → Lifetime
unfolding abort_all
wake elapsed s = elim s.closing [
  | none ↦ s
  | some c ↦
      if c.draining && (elapsed || all_settled c.pending s)
      then abort_all (record s { closing = some (record c { draining = false }) })
      else s
]

-- The promise of `close` is resolved.
pub is_resolved : Lifetime → Bool
is_resolved s = elim s.closing [ none ↦ false | some c ↦ not c.draining && all_settled c.pending s ]

pub data Event : Type 0 where
  begins : ℕ → Event
  tracks : ℕ → Bool → Event
  ends : ℕ → Event
  closes wakes : Bool → Event
  stops : Event

pub step : Event → Lifetime → Lifetime
unfolding begin track done close wake stop_accepting
step (begins deadline) s = begin deadline s
step (tracks deadline accepted) s = track deadline accepted s
step (ends i) s = done i s
step (closes drain) s = close drain s
step (wakes elapsed) s = wake elapsed s
step stops s = stop_accepting s

pub run : List Event → Lifetime → Lifetime
unfolding step
run [] s = s
run (e ∷ es) s = run es (step e s)
