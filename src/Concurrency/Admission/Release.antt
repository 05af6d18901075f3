-- ===== src/Concurrency/Admission/Release.antt =====
-- The `released` flag of a closure of `occupy`.
use ja3proxy.Base.{
  Bool-cases, String, ℕ, ◌<◌, ◌≡◌, refl, sym, Bool, List, [], ◌∷◌, ◌++◌, none, arith, Option-cases,
  inl, inr, subst,
}
use ja3proxy.Concurrency.Admission.{
  Call, constrain, Limits, Waiting, Admission, find, remove_id, permit_id, occupy, remove, settle,
  DeadlineError, admit, visit, dispatch_from, dispatch, release, vacate,
}
use ja3proxy.Concurrency.Admission.Ledger.{find-ident}
use ja3proxy.Concurrency.Admission.Invariant.{Inv}
use ja3proxy.Concurrency.Admission.Dispatch.{visit_cases}
use ja3proxy.Concurrency.Admission.Calls.{
  step, run, Event, acquires, reserves, releases, unreserves, aborts, constrains, acquire, enqueue,
  reserve, book, bookings_full, unreserve,
}
use ja3proxy.Concurrency.Admission.Stalled.{acquire_live_cases}
use ja3proxy.Concurrency.Admission.Safety.{release_cases, abort_cases}

module _ {A : Type 0} (ident : A → ℕ) where
  find-append_ne :
      (i : ℕ) (xs : List A) (x : A)
      → find ident i xs ≡ none
      → i < ident x
      → find ident i (xs ++ x ∷ []) ≡ none
  unfolding find
  find-append_ne i [] x e h = ground arith
  find-append_ne i (y ∷ xs) x e h = ground (arith, find-append_ne i xs x)

  find-remove_id : (i : ℕ) (xs : List A) → find ident i (remove_id ident i xs) ≡ none
  unfolding find remove_id
  find-remove_id i [] = refl
  find-remove_id i (y ∷ xs) = ground (arith, find-remove_id i xs)

  find-remove_other :
      (i k : ℕ) (xs : List A) → find ident i xs ≡ none → find ident i (remove_id ident k xs) ≡ none
  unfolding find remove_id
  find-remove_other i k [] e = refl
  find-remove_other i k (y ∷ xs) e = ground (arith, e, find-remove_other i k xs)

-- The closure `i` exists and was called.
abbrev IsReleased : ℕ → Admission → Type 0
IsReleased i s = (find permit_id i s.held ≡ none) × (i < s.next_id)

module _ (aborted : ℕ → Bool) (err : DeadlineError) where
  visit-IsReleased :
      (i : ℕ) (w : Waiting) (s : Admission) → IsReleased i s → IsReleased i (visit aborted err w s)
  unfolding admit remove occupy settle
  visit-IsReleased i w s r =
      visit_cases aborted err (IsReleased i) w s
        (λ _. ground (
          arith,
          find-append_ne permit_id i s.held (record { id = s.next_id; partition = w.partition }),
        ))
        (λ _. r)

  dispatch_from-IsReleased :
      (i : ℕ) (ws : List Waiting) (s : Admission)
      → IsReleased i s
      → IsReleased i (dispatch_from aborted err ws s)
  unfolding dispatch_from
  dispatch_from-IsReleased i [] s r = r
  dispatch_from-IsReleased i (w ∷ ws) s r =
      dispatch_from-IsReleased i ws (visit aborted err w s) (visit-IsReleased i w s r)

  release-none :
      (i : ℕ) (s : Admission) → find permit_id i s.held ≡ none → release aborted err i s ≡ s
  unfolding release
  release-none i s e = rw (e, release)

  dispatch-IsReleased :
      (i : ℕ) (s : Admission) → IsReleased i s → IsReleased i (dispatch aborted err s)
  unfolding dispatch
  dispatch-IsReleased i s r = dispatch_from-IsReleased i s.waiting s r

  -- The call of a closure, whether it is the first or not, leaves it called.
  release-IsReleased :
      {c : Limits} (i : ℕ) (s : Admission)
      → Inv c s
      → i < s.next_id
      → IsReleased i (release aborted err i s)
  unfolding release vacate
  release-IsReleased i s v made = elim (Option-cases (find permit_id i s.held)) [
    | inl e ↦ rw (e, release) (e, made)
    | inr (permit, e) ↦
        rw (e, release)
          (dispatch-IsReleased i (vacate permit s) (
            subst (λ k. find permit_id i (remove_id permit_id k s.held) ≡ none)
                (sym (find-ident permit_id i s.held permit e)) (find-remove_id permit_id i s.held),
            made,
          ))
  ]

-- What every call keeps of a closure that was called.
module _ (i : ℕ) where
  occupy-IsReleased : (p : String) (s : Admission) → IsReleased i s → IsReleased i (occupy p s).1
  unfolding occupy
  occupy-IsReleased p s r = (
    find-append_ne permit_id i s.held (record { id = s.next_id; partition = p }) r.0 r.1,
    omega (arith, r.1),
  )

  acquire-IsReleased :
      (aborted : ℕ → Bool) (err : DeadlineError) (call : Call) (s : Admission)
      → IsReleased i s
      → IsReleased i (acquire aborted err call s).1
  unfolding acquire enqueue
  acquire-IsReleased aborted err call s r = elim (Bool-cases (aborted call.deadline)) [
    | inl e ↦ rw (e, acquire) r
    | inr e ↦
        rw (e, acquire)
          (acquire_live_cases (IsReleased i) call s (λ _. occupy-IsReleased call.partition s r) r
            λ _. (r.0, omega (arith, r.1)))
  ]

  reserve-IsReleased :
      (call : Call) (s : Admission) → IsReleased i s → IsReleased i (reserve call s).1
  unfolding reserve book
  reserve-IsReleased call s r = elim (Bool-cases (bookings_full call.partition s)) [
    | inl e ↦ rw (e, reserve) r
    | inr e ↦ rw (e, reserve) (r.0, omega (arith, r.1))
  ]

  unreserve-IsReleased : (k : ℕ) (s : Admission) → IsReleased i s → IsReleased i (unreserve k s)
  unfolding unreserve
  unreserve-IsReleased k s r = elim (Option-cases (find permit_id k s.reservations)) [
    | inl e ↦ rw (e, unreserve) r
    | inr (permit, e) ↦ rw (e, unreserve) r
  ]

  step-IsReleased :
      (err : DeadlineError) (e : (ℕ → Bool) × Event) (s : Admission)
      → IsReleased i s
      → IsReleased i (step err e s)
  unfolding step constrain vacate settle remove
  step-IsReleased err (aborted, acquires call) s r = acquire-IsReleased aborted err call s r
  step-IsReleased err (aborted, reserves call) s r = reserve-IsReleased call s r
  step-IsReleased err (aborted, unreserves k) s r = unreserve-IsReleased k s r
  step-IsReleased err (aborted, constrains l) s r = r
  step-IsReleased err (aborted, releases k) s r =
      release_cases aborted err (IsReleased i) k s r λ permit e.
        dispatch-IsReleased aborted err i (vacate permit s)
          (find-remove_other permit_id i permit.id s.held r.0, r.1)
  step-IsReleased err (aborted, aborts k) s r =
      abort_cases aborted err (IsReleased i) k s r
        λ w o e. dispatch-IsReleased aborted err i (settle k o (remove w s)) r

  run-IsReleased :
      (err : DeadlineError) (es : List ((ℕ → Bool) × Event)) (s : Admission)
      → IsReleased i s
      → IsReleased i (run err es s)
  unfolding run
  run-IsReleased err [] s r = r
  run-IsReleased err (e ∷ es) s r = run-IsReleased err es (step err e s) (step-IsReleased err e s r)

-- Once the closure of a slot has been called, every later call of it changes nothing, whatever calls
-- of other closures, new requests, aborts and narrower limits came in between: no second slot is freed
-- and no second request is served. The closure is one that was made before its first call here.
pub release_twice :
    {c : Limits} (aborted later : ℕ → Bool) (err : DeadlineError) (i : ℕ) (s : Admission)
    (between : List ((ℕ → Bool) × Event))
    → Inv c s
    → i < s.next_id
    → let t = run err between (release aborted err i s) in release later err i t ≡ t
release_twice aborted later err i s between v made =
    release-none later err i _
      (run-IsReleased i err between _ (release-IsReleased aborted err i s v made)).0
