-- ===== src/Concurrency/Admission/Safety.antt =====
-- Histories of calls of an Admission: limits, counters, and waiting items that could run.
use ja3proxy.Base.{
  ℕ, ◌+◌, ◌≤◌, ◌≡◌, subst, Bool, false, List, [], ◌∷◌, map, String, some, arith, or_else, length,
  Option-cases, inl, inr, All,
}
use ja3proxy.Concurrency.Counter.{get, Counts}
use ja3proxy.Concurrency.Admission.{
  Limits, Waiting, Permit, Admission, create, find, waiting_id, permit_id, waiting_key, permit_key,
  Outcome, available, remove, settle, DeadlineError, dispatch, release, abort, vacate,
}
use ja3proxy.Concurrency.Admission.Calls.{
  step, run, Event, acquires, reserves, releases, unreserves, aborts, constrains,
}
use ja3proxy.Concurrency.Admission.Ledger.{find_self}
use ja3proxy.Concurrency.Admission.Invariant.{get-count, remove-Inv, settle-Inv, vacate-Inv}
use ja3proxy.Concurrency.Admission.Dispatch.{IsDispatched, dispatch_lem}
use ja3proxy.Concurrency.Admission.Stalled.{
  empty-IsDispatched, acquire-IsDispatched, reserve-IsDispatched, unreserve-IsDispatched,
  constrain-IsDispatched,
}

module _ (aborted : ℕ → Bool) (err : DeadlineError) where
  -- The two ways of a call of a closure or listener.
  pub release_cases {ℓ} :
      (P : Admission → Type ℓ) (i : ℕ) (s : Admission)
      → P s
      → ((permit : Permit)
          → find permit_id permit.id s.held ≡ some permit
          → P (dispatch aborted err (vacate permit s)))
      → P (release aborted err i s)
  unfolding release
  release_cases P i s again first = elim (Option-cases (find permit_id i s.held)) [
    | inl e ↦ rw (e, release) again
    | inr (permit, e) ↦ rw (e, release) (first permit (find_self permit_id i s.held permit e))
  ]

  pub abort_cases {ℓ} :
      (P : Admission → Type ℓ) (i : ℕ) (s : Admission)
      → P s
      → ((w : Waiting) (o : Outcome)
          → find waiting_id w.id s.waiting ≡ some w
          → P (dispatch aborted err (settle i o (remove w s))))
      → P (abort aborted err i s)
  unfolding abort
  abort_cases P i s again first = elim (Option-cases (find waiting_id i s.waiting)) [
    | inl e ↦ rw (e, abort) again
    | inr (w, e) ↦ rw (e, abort) (first w _ (find_self waiting_id i s.waiting w e))
  ]

  pub release-IsDispatched :
      (c : Limits) (i : ℕ) (s : Admission)
      → IsDispatched c s
      → IsDispatched c (release aborted err i s)
  release-IsDispatched c i s v =
      release_cases (IsDispatched c) i s v
        λ permit e. dispatch_lem aborted err _ (vacate-Inv permit s e v.0)

  pub abort-IsDispatched :
      (c : Limits) (i : ℕ) (s : Admission)
      → IsDispatched c s
      → IsDispatched c (abort aborted err i s)
  abort-IsDispatched c i s v =
      abort_cases (IsDispatched c) i s v
        λ w o e. dispatch_lem aborted err _ (settle-Inv i o _ (remove-Inv w s e v.0))

module _ (err : DeadlineError) where
  step-IsDispatched :
      (c : Limits) (e : (ℕ → Bool) × Event) (s : Admission)
      → IsDispatched c s
      → IsDispatched c (step err e s)
  unfolding step
  step-IsDispatched c (aborted, acquires call) s v = acquire-IsDispatched aborted err c call s v
  step-IsDispatched c (aborted, reserves call) s v = reserve-IsDispatched c call s v
  step-IsDispatched c (aborted, unreserves i) s v = unreserve-IsDispatched c i s v
  step-IsDispatched c (aborted, constrains l) s v = constrain-IsDispatched c l s v
  step-IsDispatched c (aborted, releases i) s v = release-IsDispatched aborted err c i s v
  step-IsDispatched c (aborted, aborts i) s v = abort-IsDispatched aborted err c i s v

  pub run-IsDispatched :
      (c : Limits) (es : List ((ℕ → Bool) × Event)) (s : Admission)
      → IsDispatched c s
      → IsDispatched c (run err es s)
  unfolding run
  run-IsDispatched c [] s v = v
  run-IsDispatched c (e ∷ es) s v = run-IsDispatched c es (step err e s) (step-IsDispatched c e s v)

  pub created : (l : Limits) (s : Admission) → create l ≡ some s → IsDispatched l s
  unfolding create
  created l s e = subst (IsDispatched l) (ground arith) (empty-IsDispatched l)

  module _ (l : Limits) (s : Admission) (made : create l ≡ some s)
      (es : List ((ℕ → Bool) × Event)) where
    -- After any history of calls, with whatever narrower limits `constrain` set on the way, no more
    -- slots are active, requests queued or reservations made than the limits of the constructor
    -- allow, in all and for each partition.
    pub run_bounds :
        let t = run err es s in
        (t.active ≤ l.max_concurrent)
        × ((p : String) → or_else (get p t.by_partition) 0 ≤ l.max_concurrent_per_partition)
        × (length t.waiting ≤ l.max_queued)
        × ((p : String) → or_else (get p t.queued_by_partition) 0 ≤ l.max_queued_per_partition)
        × (t.reserved ≤ l.max_concurrent + l.max_queued)
        × ((p : String)
            → or_else (get p t.reserved_by_partition) 0
              ≤ l.max_concurrent_per_partition + l.max_queued_per_partition)
    run_bounds =
        let v = (run-IsDispatched l es s (created l s made)).0 in
        (
          omega (arith, v.active_count, v.slots.total),
          λ p. omega (arith, get-count _ _ p v.slots.counts, v.slots.each p),
          v.queue.total,
          λ p. omega (arith, get-count _ _ p v.queue.counts, v.queue.each p),
          omega (arith, v.reserved_count, v.bookings.total),
          λ p. omega (arith, get-count _ _ p v.bookings.counts, v.bookings.each p),
        )

    -- After any history of calls the counters are exact: `active` and the Map of each partition count
    -- the closures of `occupy` that were not yet called, the queue's Map counts the waiting items, the
    -- reservations' Map the closures of `reserve`, and no Map keeps an entry at 0.
    pub run-Counts :
        let t = run err es s in
        (t.active ≡ length t.held)
        × Counts t.by_partition (map permit_key t.held)
        × Counts t.queued_by_partition (map waiting_key t.waiting)
        × (t.reserved ≡ length t.reservations)
        × Counts t.reserved_by_partition (map permit_key t.reservations)
    run-Counts =
        let v = (run-IsDispatched l es s (created l s made)).0 in
        (v.active_count, v.slots.counts, v.queue.counts, v.reserved_count, v.bookings.counts)

    -- After any history of calls no waiting request could be admitted: each one's partition, or the
    -- whole, is at its limit.
    pub run-IsStalled : let t = run err es s in All (λ w. available t w.partition ≡ false) t.waiting
    run-IsStalled = (run-IsDispatched l es s (created l s made)).1
