-- ===== src/Concurrency/Admission/Calls.antt =====
-- The methods `acquire` and `reserve` of class Admission in packages/typescript/src/concurrency.ts, and
-- sequences of calls.
use ja3proxy.Base.{
  ℕ, suc, ◌+◌, ◌-◌, Bool, true, false, not, ◌&&◌, ◌||◌, List, [], ◌∷◌, ◌++◌, String, none, some,
  leb, if◌then◌else◌, or_else, length,
}
use ja3proxy.Errors.{Diagnostics, queued, busy, queue_full, TransportError, transport_error}
use ja3proxy.Concurrency.Counter.{get, increment, decrement}
use ja3proxy.Concurrency.Admission.{
  Limits, Permit, Outcome, resolved, rejected, Admission, Call, available, find, remove_id,
  permit_id, occupy, constrain, DeadlineError, release, abort, Waiting,
}

-- `acquire` answers at once, or with a promise that a later entry of `outcomes` settles.
pub data Reply : Type 0 where
  now : Outcome → Reply
  later : ℕ → Reply

abbrev pub queue_full_error : Diagnostics → Bool → TransportError
queue_full_error diag used =
    transport_error busy (record diag { phase = queued }) used (some queue_full)

unfoldable pub enqueue : Call → Admission → Reply × Admission
enqueue c s =
    let item : Waiting = record {
      id = s.next_id;
      partition = c.partition;
      deadline = c.deadline;
      diag = c.diag;
      used_proxy = c.used_proxy;
    } in
    (
      later s.next_id,
      record s {
        waiting = s.waiting ++ item ∷ [];
        queued_by_partition = increment c.partition s.queued_by_partition;
        next_id = suc s.next_id;
      },
    )

abbrev pub has_key : String → List (String × ℕ) → Bool
has_key p m = elim (get p m) [ none ↦ false | some _ ↦ true ]

unfoldable pub queue_is_full : String → Admission → Bool
queue_is_full p s =
    leb s.limits.max_queued (length s.waiting)
    || leb s.limits.max_queued_per_partition (or_else (get p s.queued_by_partition) 0)

-- `Promise.resolve(this.occupy(partition))`
unfoldable pub occupy_now : String → Admission → Reply × Admission
unfolding occupy
occupy_now p s = (now (resolved (occupy p s).0), (occupy p s).1)

-- The part of `acquire` behind the test of the signal.
unfoldable pub acquire_live : Call → Admission → Reply × Admission
unfolding occupy_now
acquire_live c s =
    if available s c.partition && not (has_key c.partition s.queued_by_partition)
    then occupy_now c.partition s
    else if queue_is_full c.partition s
    then (now (rejected (queue_full_error c.diag c.used_proxy)), s)
    else enqueue c s

unfoldable pub acquire : (ℕ → Bool) → DeadlineError → Call → Admission → Reply × Admission
acquire aborted deadline_error c s =
    if aborted c.deadline
    then (now (rejected (deadline_error c.deadline c.diag c.used_proxy)), s)
    else acquire_live c s

-- `reserve` throws, or returns the closure that gives the reservation back.
pub data Reservation : Type 0 where
  granted : Permit → Reservation
  refused : TransportError → Reservation

unfoldable pub bookings_full : String → Admission → Bool
bookings_full p s =
    leb (s.limits.max_concurrent + s.limits.max_queued) s.reserved
    || leb (s.limits.max_concurrent_per_partition + s.limits.max_queued_per_partition)
        (or_else (get p s.reserved_by_partition) 0)

unfoldable pub book : String → Admission → Permit × Admission
book p s =
    let permit : Permit = record { id = s.next_id; partition = p } in
    (
      permit,
      record s {
        reserved = s.reserved + 1;
        reserved_by_partition = increment p s.reserved_by_partition;
        reservations = s.reservations ++ permit ∷ [];
        next_id = suc s.next_id;
      },
    )

unfoldable pub reserve : Call → Admission → Reservation × Admission
reserve c s =
    if bookings_full c.partition s
    then (refused (queue_full_error c.diag c.used_proxy), s)
    else (granted (book c.partition s).0, (book c.partition s).1)

unfoldable pub unreserve : ℕ → Admission → Admission
unreserve i s = elim (find permit_id i s.reservations) [
  | none ↦ s
  | some permit ↦ record s {
    reserved = s.reserved - 1;
    reserved_by_partition = decrement permit.partition s.reserved_by_partition;
    reservations = remove_id permit_id i s.reservations;
  }
]

-- The calls of an Admission, and the end of an item's wait by its deadline.
pub data Event : Type 0 where
  acquires reserves : Call → Event
  releases unreserves aborts : ℕ → Event
  constrains : Limits → Event

module _ (deadline_error : DeadlineError) where
  unfoldable pub step : (ℕ → Bool) × Event → Admission → Admission
  step (aborted, acquires c) s = (acquire aborted deadline_error c s).1
  step (aborted, reserves c) s = (reserve c s).1
  step (aborted, releases i) s = release aborted deadline_error i s
  step (aborted, unreserves i) s = unreserve i s
  step (aborted, aborts i) s = abort aborted deadline_error i s
  step (aborted, constrains l) s = constrain l s

  unfoldable pub run : List ((ℕ → Bool) × Event) → Admission → Admission
  run [] s = s
  run (e ∷ es) s = run es (step e s)
