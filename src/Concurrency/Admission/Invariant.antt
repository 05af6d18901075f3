-- ===== src/Concurrency/Admission/Invariant.antt =====
-- What every call of an Admission keeps, stated for caps `l` that bound its limits: the counters
-- count the live entries, identities are fresh, and no table outgrows its cap.
use ja3proxy.Base.{
  ℕ, ◌+◌, ◌≤◌, ◌≡◌, refl, Bool, true, false, List, [], ◌∷◌, String, some, arith, or_else, length,
  length-append, Option-cases, Bool-cases, inl, inr,
}
use ja3proxy.Concurrency.Counter.{get, count, Counts, or_else-tally}
use ja3proxy.Concurrency.Admission.{
  Limits, Waiting, Permit, Admission, find, waiting_id, permit_id, waiting_key, permit_key, Outcome,
  available, occupy, remove, settle, Call, constrain, vacate, DeadlineError,
}
use ja3proxy.Concurrency.Admission.Calls.{
  enqueue, queue_is_full, book, bookings_full, acquire_live, reserve, unreserve, acquire,
}
use ja3proxy.Concurrency.Admission.Ledger.{
  Ledger, Ledger-raise, Ledger-add, Ledger-remove, remove_id-count,
}

-- Pointwise order of limits.
pub record IsWithin (l c : Limits) : Type 0 where
  pub concurrent : l.max_concurrent ≤ c.max_concurrent
  pub concurrent_each : l.max_concurrent_per_partition ≤ c.max_concurrent_per_partition
  pub queued : l.max_queued ≤ c.max_queued
  pub queued_each : l.max_queued_per_partition ≤ c.max_queued_per_partition

module _ (c : Limits) where
  abbrev pub Slots : ℕ → List (String × ℕ) → List Permit → Type 0
  Slots = Ledger permit_id permit_key c.max_concurrent c.max_concurrent_per_partition

  abbrev pub Queue : ℕ → List (String × ℕ) → List Waiting → Type 0
  Queue = Ledger waiting_id waiting_key c.max_queued c.max_queued_per_partition

  abbrev pub Bookings : ℕ → List (String × ℕ) → List Permit → Type 0
  Bookings =
      Ledger permit_id permit_key (c.max_concurrent + c.max_queued)
        (c.max_concurrent_per_partition + c.max_queued_per_partition)

  pub record Inv (s : Admission) : Type 0 where
    pub within : IsWithin s.limits c
    pub active_count : s.active ≡ length s.held
    pub reserved_count : s.reserved ≡ length s.reservations
    pub slots : Slots s.next_id s.by_partition s.held
    pub queue : Queue s.next_id s.queued_by_partition s.waiting
    pub bookings : Bookings s.next_id s.reserved_by_partition s.reservations

-- The count that the code reads from a counter.
pub get-count :
    (m : List (String × ℕ)) (ks : List String) (p : String)
    → Counts m ks
    → or_else (get p m) 0 ≡ count p ks
get-count m ks p h = rw (h p) (or_else-tally (count p ks))

module _ {c : Limits} where
  pub occupy-Inv :
      (p : String) (s : Admission) → available s p ≡ true → Inv c s → Inv c (occupy p s).1
  unfolding occupy available
  occupy-Inv p s free v = record {
    within = v.within;
    active_count = omega (
      arith,
      v.active_count,
      length-append s.held (record { id = s.next_id; partition = p } ∷ []),
    );
    reserved_count = v.reserved_count;
    slots =
        Ledger-add permit_id permit_key _ refl (ground (arith, v.within.concurrent))
          (ground (arith, v.within.concurrent_each, get-count s.by_partition _ p v.slots.counts))
          v.slots;
    queue = Ledger-raise waiting_id waiting_key v.queue;
    bookings = Ledger-raise permit_id permit_key v.bookings;
  }

  pub remove-Inv :
      (w : Waiting) (s : Admission)
      → find waiting_id w.id s.waiting ≡ some w
      → Inv c s
      → Inv c (remove w s)
  unfolding remove
  remove-Inv w s e v = record {
    within = v.within;
    active_count = v.active_count;
    reserved_count = v.reserved_count;
    slots = v.slots;
    bookings = v.bookings;
    queue = Ledger-remove waiting_id waiting_key w.id w e v.queue;
  }

  pub settle-Inv : (i : ℕ) (o : Outcome) (s : Admission) → Inv c s → Inv c (settle i o s)
  unfolding settle
  settle-Inv i o s v = record {
    within = v.within;
    active_count = v.active_count;
    reserved_count = v.reserved_count;
    slots = v.slots;
    bookings = v.bookings;
    queue = v.queue;
  }

  enqueue-Inv :
      (call : Call) (s : Admission)
      → queue_is_full call.partition s ≡ false
      → Inv c s
      → Inv c (enqueue call s).1
  unfolding enqueue queue_is_full
  enqueue-Inv call s room v = record {
    within = v.within;
    active_count = v.active_count;
    reserved_count = v.reserved_count;
    slots = Ledger-raise permit_id permit_key v.slots;
    queue =
        Ledger-add waiting_id waiting_key _ refl (ground (arith, v.within.queued))
          (ground (
            arith,
            v.within.queued_each,
            get-count s.queued_by_partition _ call.partition v.queue.counts,
          ))
          v.queue;
    bookings = Ledger-raise permit_id permit_key v.bookings;
  }

  pub vacate-Inv :
      (permit : Permit) (s : Admission)
      → find permit_id permit.id s.held ≡ some permit
      → Inv c s
      → Inv c (vacate permit s)
  unfolding vacate
  vacate-Inv permit s e v = record {
    within = v.within;
    active_count = omega (
      arith,
      v.active_count,
      (remove_id-count permit_id permit_key 0 s.next_id permit.id s.held permit v.slots.ids e).0,
    );
    reserved_count = v.reserved_count;
    slots = Ledger-remove permit_id permit_key permit.id permit e v.slots;
    queue = v.queue;
    bookings = v.bookings;
  }

  pub constrain-Inv : (l : Limits) (s : Admission) → Inv c s → Inv c (constrain l s)
  unfolding constrain
  constrain-Inv l s v = record {
    within = omega arith;
    active_count = v.active_count;
    reserved_count = v.reserved_count;
    slots = v.slots;
    queue = v.queue;
    bookings = v.bookings;
  }

  book-Inv : (p : String) (s : Admission) → bookings_full p s ≡ false → Inv c s → Inv c (book p s).1
  unfolding book bookings_full
  book-Inv p s room v = record {
    within = v.within;
    active_count = v.active_count;
    reserved_count = omega (
      arith,
      v.reserved_count,
      length-append s.reservations (record { id = s.next_id; partition = p } ∷ []),
    );
    slots = Ledger-raise permit_id permit_key v.slots;
    queue = Ledger-raise waiting_id waiting_key v.queue;
    bookings =
        Ledger-add permit_id permit_key _ refl
          (ground (arith, v.within.concurrent, v.within.queued))
          (ground (
            arith,
            v.within.concurrent_each,
            v.within.queued_each,
            get-count s.reserved_by_partition _ p v.bookings.counts,
          ))
          v.bookings;
  }

  pub reserve-Inv : (call : Call) (s : Admission) → Inv c s → Inv c (reserve call s).1
  unfolding reserve
  reserve-Inv call s v = elim (Bool-cases (bookings_full call.partition s)) [
    | inl full ↦ rw full v
    | inr room ↦ rw room (book-Inv call.partition s room v)
  ]

  pub unreserve-Inv : (i : ℕ) (s : Admission) → Inv c s → Inv c (unreserve i s)
  unfolding unreserve
  unreserve-Inv i s v = elim (Option-cases (find permit_id i s.reservations)) [
    | inl e ↦ rw (e, unreserve) v
    | inr (permit, e) ↦
        rw (e, unreserve)
          (record {
            within = v.within;
            active_count = v.active_count;
            reserved_count = omega (
              arith,
              v.reserved_count,
              (remove_id-count permit_id permit_key 0 s.next_id i s.reservations permit
                  v.bookings.ids e).0,
            );
            slots = v.slots;
            queue = v.queue;
            bookings = Ledger-remove permit_id permit_key i permit e v.bookings;
          })
  ]

  pub acquire_live-Inv : (call : Call) (s : Admission) → Inv c s → Inv c (acquire_live call s).1
  unfolding acquire_live
  acquire_live-Inv call s v = grind (arith, occupy-Inv call.partition s, enqueue-Inv call s)

  pub acquire-Inv :
      (aborted : ℕ → Bool) (err : DeadlineError) (call : Call) (s : Admission)
      → Inv c s
      → Inv c (acquire aborted err call s).1
  unfolding acquire
  acquire-Inv aborted err call s v = ground (arith, acquire_live-Inv call s v)
