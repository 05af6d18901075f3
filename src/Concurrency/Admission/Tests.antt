-- ===== src/Concurrency/Admission/Tests.antt =====
-- Runs of an Admission, and the theorems at them.
use ja3proxy.Base.{
  ◌<◌, arith, ℕ, ◌≤◌, ◌≡◌, refl, Bool, false, List, [], ◌∷◌, map, String, some, none, ◌==◌, length,
  All,
}
use ja3proxy.Errors.{initial_diagnostics, transport_error, cancelled}
use ja3proxy.Concurrency.Counter.{get, set, delete, count, Counts, increment, decrement}
use ja3proxy.Concurrency.Admission.{
  Permit, Limits, Admission, Call, DeadlineError, create, empty, permit_key, waiting_key, permit_id,
  waiting_id, available, release, occupy, dispatch, dispatch_from, visit, admit, remove, settle,
  vacate, find, remove_id, abort, constrain,
}
use ja3proxy.Concurrency.Admission.Calls.{
  step, run, Event, acquires, reserves, unreserves, acquire, acquire_live, occupy_now, enqueue,
  queue_is_full, reserve, unreserve, book, bookings_full,
}
use ja3proxy.Concurrency.Admission.Safety.{
  run_bounds, run-Counts, run-IsStalled, run-IsDispatched, created,
}
use ja3proxy.Concurrency.Admission.Fairness.{Served, release-Served}
use ja3proxy.Concurrency.Admission.Release.{release_twice}

runs : Unit {0}
unfolding create empty run step acquire acquire_live occupy occupy_now enqueue queue_is_full
    dispatch dispatch_from visit admit remove settle vacate find remove_id abort release reserve
    unreserve book bookings_full constrain available get set delete count increment decrement
runs = tt

abbrev limits : Limits
limits = record {
  max_concurrent = 2;
  max_concurrent_per_partition = 1;
  max_queued = 3;
  max_queued_per_partition = 2;
}

abbrev call : String → ℕ → Call
call p d = record { partition = p; deadline = d; diag = initial_diagnostics; used_proxy = false }

abbrev cancel : DeadlineError
cancel d diag used = transport_error cancelled diag used none

abbrev alive : ℕ → Bool
alive d = false

-- Partition "a" runs one request and queues two, of which the first is aborted later; "b" runs one.
abbrev history : List ((ℕ → Bool) × Event)
history =
    (alive, acquires (call "a" 1))
    ∷ (alive, acquires (call "a" 2))
    ∷ (alive, acquires (call "a" 3))
    ∷ (alive, acquires (call "b" 4))
    ∷ []

busy_state : Admission
busy_state = run cancel history (empty limits)

tests :
    (map waiting_id busy_state.waiting ≡ 1 ∷ 2 ∷ [])
    × (map permit_id busy_state.held ≡ 0 ∷ 3 ∷ [])
    × (map waiting_id (release alive cancel 0 busy_state).waiting ≡ 2 ∷ [])
    × (map permit_id (release alive cancel 0 busy_state).held ≡ 3 ∷ 4 ∷ [])
    × (map waiting_id (release alive cancel 3 busy_state).waiting ≡ 1 ∷ 2 ∷ [])
    × (map waiting_id (release (λ d. d == 2) cancel 0 busy_state).waiting ≡ [])
    × (map waiting_id (abort alive cancel 1 busy_state).waiting ≡ 2 ∷ [])
    × ((step cancel (alive, acquires (call "a" 5)) busy_state).waiting ≡ busy_state.waiting)
    × ((run cancel
          ((alive, reserves (call "a" 6)) ∷ (alive, unreserves 4) ∷ [])
          busy_state).reserved
        ≡ 0)
unfolding runs busy_state
tests = (refl, refl, refl, refl, refl, refl, refl, refl, refl)

made : create limits ≡ some (empty limits)
unfolding create
made = refl

run_bounds_example : (run cancel history (empty limits)).active ≤ 2
run_bounds_example = (run_bounds cancel limits (empty limits) made history).0

run-Counts_example :
    let t = run cancel history (empty limits) in
    (t.active ≡ length t.held)
    × Counts t.by_partition (map permit_key t.held)
    × Counts t.queued_by_partition (map waiting_key t.waiting)
    × (t.reserved ≡ length t.reservations)
    × Counts t.reserved_by_partition (map permit_key t.reservations)
run-Counts_example = run-Counts cancel limits (empty limits) made history

run-IsStalled_example :
    let t = run cancel history (empty limits) in
    All (λ w. available t w.partition ≡ false) t.waiting
run-IsStalled_example = run-IsStalled cancel limits (empty limits) made history

abbrev before : Admission
before = run cancel history (empty limits)

abbrev first : Permit
first = record { id = 0; partition = "a" }

is_first : find permit_id 0 before.held ≡ some first
unfolding runs
is_first = refl

release-Served_example :
    Served alive cancel before
      (remove_id permit_id 0 before.held)
      before.waiting
      (release alive cancel 0 before)
    × All
        (λ w. available (release alive cancel 0 before) w.partition ≡ false)
        (release alive cancel 0 before).waiting
release-Served_example =
    release-Served alive cancel first 0 before
      (run-IsDispatched cancel limits history (empty limits)
        (created cancel limits (empty limits) made)).0
      is_first

-- Between the two calls a request of another partition asks for a slot, and one makes a reservation.
abbrev between : List ((ℕ → Bool) × Event)
between = (alive, acquires (call "r" 9)) ∷ (alive, reserves (call "q" 9)) ∷ []

made_before : 0 < before.next_id
unfolding runs
made_before = omega arith

release_twice_example :
    let t = run cancel between (release alive cancel 0 before) in release alive cancel 0 t ≡ t
release_twice_example =
    release_twice alive alive cancel 0 before between
      (run-IsDispatched cancel limits history (empty limits)
        (created cancel limits (empty limits) made)).0
      made_before
