-- ===== src/Concurrency/Admission.antt =====
-- class Admission of packages/typescript/src/concurrency.ts: the bounded FIFO among eligible
-- partitions. A method runs to its end before any other code, so a call is one step; `aborted` says
-- which deadlines have an aborted signal during the call. The `released` flag of a closure that
-- `occupy` or `reserve` returns is modelled by `held` and `reservations`, the closures whose flag is
-- still false. Promises settle by entries of `outcomes`, the newest first.
pub mod Calls
pub mod Ledger
pub mod Invariant
pub mod Dispatch
pub mod Stalled
pub mod Safety
pub mod Fairness
pub mod Release
mod Tests
use ja3proxy.Base.{
  ℕ, suc, ◌+◌, ◌-◌, Bool, true, false, not, ◌&&◌, ◌||◌, List, [], ◌∷◌, ◌++◌, map, String, Option,
  none, some, ◌==◌, ltb, leb, min, if◌then◌else◌, or_else, length,
}
use ja3proxy.Errors.{
  Diagnostics, queued, busy, queue_full, invalid_input, invalid_request, TransportError,
  transport_error, local_error,
}
use ja3proxy.Concurrency.Counter.{get, increment, decrement}

-- AdmissionLimits
pub record Limits : Type 0 where
  pub max_concurrent : ℕ
  pub max_concurrent_per_partition : ℕ
  pub max_queued : ℕ
  pub max_queued_per_partition : ℕ

-- An item of the set `waiting`, or a closure that releases a slot; `id` is its identity.
pub record Waiting : Type 0 where
  pub id : ℕ
  pub partition : String
  pub deadline : ℕ
  pub diag : Diagnostics
  pub used_proxy : Bool

pub record Permit : Type 0 where
  pub id : ℕ
  pub partition : String

pub data Outcome : Type 0 where
  resolved : Permit → Outcome
  rejected : TransportError → Outcome

pub record Admission : Type 0 where
  pub limits : Limits
  pub active : ℕ
  pub by_partition : List (String × ℕ)
  pub queued_by_partition : List (String × ℕ)
  pub waiting : List Waiting
  pub reserved : ℕ
  pub reserved_by_partition : List (String × ℕ)
  pub held : List Permit
  pub reservations : List Permit
  pub next_id : ℕ
  pub outcomes : List (ℕ × Outcome)

-- What the caller supplies to `acquire`.
pub record Call : Type 0 where
  pub partition : String
  pub deadline : ℕ
  pub diag : Diagnostics
  pub used_proxy : Bool

-- The initial fields.
pub empty : Limits → Admission
empty l = record {
  limits = l;
  active = 0;
  by_partition = [];
  queued_by_partition = [];
  waiting = [];
  reserved = 0;
  reserved_by_partition = [];
  held = [];
  reservations = [];
  next_id = 0;
  outcomes = [];
}

-- The constructor, for limits that are natural numbers.
pub create : Limits → Option Admission
create l =
    if ltb 0 l.max_concurrent && ltb 0 l.max_concurrent_per_partition then some (empty l) else none

pub constrain : Limits → Admission → Admission
constrain l s = record s {
  limits = record {
    max_concurrent = min s.limits.max_concurrent l.max_concurrent;
    max_concurrent_per_partition =
        min s.limits.max_concurrent_per_partition l.max_concurrent_per_partition;
    max_queued = min s.limits.max_queued l.max_queued;
    max_queued_per_partition = min s.limits.max_queued_per_partition l.max_queued_per_partition;
  };
}

pub available : Admission → String → Bool
available s p =
    ltb s.active s.limits.max_concurrent
    && ltb (or_else (get p s.by_partition) 0) s.limits.max_concurrent_per_partition

module _ {A : Type 0} (ident : A → ℕ) where
  -- The membership test and the deletion of a Set, by the identity of the object.
  pub find : ℕ → List A → Option A
  find i [] = none
  find i (x ∷ xs) = if ident x == i then some x else find i xs

  pub remove_id : ℕ → List A → List A
  remove_id i [] = []
  remove_id i (x ∷ xs) = if ident x == i then remove_id i xs else x ∷ remove_id i xs

abbrev pub waiting_id : Waiting → ℕ
waiting_id w = w.id

abbrev pub permit_id : Permit → ℕ
permit_id p = p.id

abbrev pub waiting_key : Waiting → String
waiting_key w = w.partition

abbrev pub permit_key : Permit → String
permit_key p = p.partition

-- `occupy`: the new permit is the closure that it returns.
pub occupy : String → Admission → Permit × Admission
occupy p s =
    let permit : Permit = record { id = s.next_id; partition = p } in
    (
      permit,
      record s {
        active = s.active + 1;
        by_partition = increment p s.by_partition;
        held = s.held ++ permit ∷ [];
        next_id = suc s.next_id;
      },
    )

-- The counters of a closure of `occupy` that is called for the first time.
pub vacate : Permit → Admission → Admission
vacate permit s = record s {
  active = s.active - 1;
  by_partition = decrement permit.partition s.by_partition;
  held = remove_id permit_id permit.id s.held;
}

-- `remove` of an item that is still in the set.
pub remove : Waiting → Admission → Admission
remove w s = record s {
  waiting = remove_id waiting_id w.id s.waiting;
  queued_by_partition = decrement w.partition s.queued_by_partition;
}

pub settle : ℕ → Outcome → Admission → Admission
settle i o s = record s { outcomes = (i, o) ∷ s.outcomes }

-- What Deadline.error builds, for the deadline of that number.
abbrev pub DeadlineError : Type 0
DeadlineError = ℕ → Diagnostics → Bool → TransportError

module _ (aborted : ℕ → Bool) (deadline_error : DeadlineError) where
  pub admit : Waiting → Admission → Admission
  unfolding occupy settle
  admit w s =
      if aborted w.deadline
      then settle w.id (rejected (deadline_error w.deadline w.diag w.used_proxy)) s
      else settle w.id (resolved (occupy w.partition s).0) (occupy w.partition s).1

  -- One round of the loop of `dispatch`; it only meets items that are in the set.
  pub visit : Waiting → Admission → Admission
  unfolding admit remove
  visit w s = if available s w.partition then admit w (remove w s) else s

  pub dispatch_from : List Waiting → Admission → Admission
  dispatch_from [] s = s
  dispatch_from (w ∷ ws) s = dispatch_from ws (visit w s)

  -- A Set is iterated in insertion order; nothing is added while `dispatch` runs.
  pub dispatch : Admission → Admission
  dispatch s = dispatch_from s.waiting s

  -- The closure of `occupy`. A second call finds its flag set.
  pub release : ℕ → Admission → Admission
  unfolding vacate
  release i s = elim (find permit_id i s.held) [
    | none ↦ s
    | some permit ↦ dispatch (vacate permit s)
  ]

  -- The abort listener of a waiting item.
  pub abort : ℕ → Admission → Admission
  unfolding remove settle
  abort i s = elim (find waiting_id i s.waiting) [
    | none ↦ s
    | some w ↦ dispatch (
        settle i
          (rejected (deadline_error w.deadline (record w.diag { phase = queued }) w.used_proxy))
          (remove w s))
  ]
