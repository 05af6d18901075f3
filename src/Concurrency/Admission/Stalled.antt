-- ===== src/Concurrency/Admission/Stalled.antt =====
-- Waiting items that could run, behind `acquire`, `reserve` and `constrain`.
use ja3proxy.Base.{
  ℕ, ◌<◌, ◌≡◌, refl, ◌⊎◌, Bool, true, List, [], ◌∷◌, map, String, eq_iff, arith, Option-cases,
  Bool-cases, inl, inr,
}
use ja3proxy.Concurrency.Counter.{get, count, Counts}
use ja3proxy.Concurrency.Admission.{
  Limits, Waiting, Admission, empty, find, permit_id, waiting_key, available, occupy, Call,
  DeadlineError, constrain,
}
use ja3proxy.Concurrency.Admission.Calls.{
  acquire_live, has_key, enqueue, queue_is_full, acquire, reserve, book, bookings_full, unreserve,
}
use ja3proxy.Concurrency.Admission.Invariant.{
  IsWithin, constrain-Inv, reserve-Inv, unreserve-Inv, acquire_live-Inv,
}
use ja3proxy.Concurrency.Admission.Dispatch.{
  IsDispatched, IsStalled-mono, IsStalled-append, occupy-IsBlocked, IsStalled, IsBlocked,
}

pub IsWithin-refl : (l : Limits) → IsWithin l l
IsWithin-refl l = omega arith

pub empty-IsDispatched : (l : Limits) → IsDispatched l (empty l)
unfolding empty count get
empty-IsDispatched l = (
  record {
    within = IsWithin-refl l;
    active_count = refl;
    reserved_count = refl;
    slots = record {
      counts = λ q. refl;
      ids = omega arith;
      total = omega arith;
      each = λ q. omega arith;
    };
    queue = record {
      counts = λ q. refl;
      ids = omega arith;
      total = omega arith;
      each = λ q. omega arith;
    };
    bookings = record {
      counts = λ q. refl;
      ids = omega arith;
      total = omega arith;
      each = λ q. omega arith;
    };
  },
  tt,
)

-- A stalled queue of a partition blocks it.
pub IsBlocked-queued :
    (s : Admission) (p : String) (ws : List Waiting)
    → IsStalled s ws
    → 0 < count p (map waiting_key ws)
    → IsBlocked s p
unfolding count
IsBlocked-queued s p [] h n = absurd (omega arith)
IsBlocked-queued s p (w ∷ ws) h n =
    ground (arith, eq_iff w.partition p, IsBlocked-queued s p ws h.1)

pub has_key-count :
    (m : List (String × ℕ)) (ks : List String) (p : String)
    → Counts m ks
    → has_key p m ≡ true
    → 0 < count p ks
has_key-count m ks p h e = ground (arith, h p)

-- The three ways of `acquire` behind the test of the signal.
pub acquire_live_cases {ℓ} :
    (P : Admission → Type ℓ) (call : Call) (s : Admission)
    → (available s call.partition ≡ true → P (occupy call.partition s).1)
    → P s
    → (IsBlocked s call.partition ⊎ (has_key call.partition s.queued_by_partition ≡ true)
        → P (enqueue call s).1)
    → P (acquire_live call s).1
unfolding acquire_live
acquire_live_cases P call s free full wait = elim (Bool-cases (available s call.partition)) [
  | inr e ↦
      rw (e, acquire_live)
        (elim (Bool-cases (queue_is_full call.partition s)) [
          | inl f ↦ rw (f, acquire_live) full
          | inr f ↦ rw (f, acquire_live) (wait (inl e))
        ])
  | inl e ↦ elim (Bool-cases (has_key call.partition s.queued_by_partition)) [
    | inr k ↦ rw (e, k, acquire_live) (free e)
    | inl k ↦
        rw (e, k, acquire_live)
          (elim (Bool-cases (queue_is_full call.partition s)) [
            | inl f ↦ rw (f, acquire_live) full
            | inr f ↦ rw (f, acquire_live) (wait (inr k))
          ])
  ]
]

pub occupy-IsStalled :
    (p : String) (s : Admission)
    → IsStalled s s.waiting
    → IsStalled (occupy p s).1 (occupy p s).1.waiting
unfolding occupy
occupy-IsStalled p s h = IsStalled-mono s (occupy p s).1 s.waiting (occupy-IsBlocked p s) h

pub enqueue-IsStalled :
    (call : Call) (s : Admission)
    → IsBlocked s call.partition
    → IsStalled s s.waiting
    → IsStalled (enqueue call s).1 (enqueue call s).1.waiting
unfolding enqueue available
enqueue-IsStalled call s b h = IsStalled-append s s.waiting _ h b

pub acquire_live-IsStalled :
    (c : Limits) (call : Call) (s : Admission)
    → IsDispatched c s
    → IsStalled (acquire_live call s).1 (acquire_live call s).1.waiting
acquire_live-IsStalled c call s (v, h) =
    acquire_live_cases (λ t. IsStalled t t.waiting) call s
      (λ _. occupy-IsStalled call.partition s h) h
      (elim [
        | inl b ↦ enqueue-IsStalled call s b h
        | inr k ↦
            enqueue-IsStalled call s
              (IsBlocked-queued s call.partition s.waiting h
                (has_key-count s.queued_by_partition _ call.partition v.queue.counts k))
              h
      ])

pub acquire-IsDispatched :
    (aborted : ℕ → Bool) (err : DeadlineError) (c : Limits) (call : Call) (s : Admission)
    → IsDispatched c s
    → IsDispatched c (acquire aborted err call s).1
unfolding acquire
acquire-IsDispatched aborted err c call s v = elim (Bool-cases (aborted call.deadline)) [
  | inl e ↦ rw (e, acquire) v
  | inr e ↦ rw (e, acquire) (acquire_live-Inv call s v.0, acquire_live-IsStalled c call s v)
]

pub reserve-IsDispatched :
    (c : Limits) (call : Call) (s : Admission)
    → IsDispatched c s
    → IsDispatched c (reserve call s).1
unfolding reserve
reserve-IsDispatched c call s v = (
  reserve-Inv call s v.0,
  elim (Bool-cases (bookings_full call.partition s)) [
    | inl e ↦ rw (e, reserve) v.1
    | inr e ↦ rw (e, reserve) (unfold book available in v.1)
  ],
)

pub unreserve-IsDispatched :
    (c : Limits) (i : ℕ) (s : Admission) → IsDispatched c s → IsDispatched c (unreserve i s)
unfolding unreserve
unreserve-IsDispatched c i s v = (
  unreserve-Inv i s v.0,
  elim (Option-cases (find permit_id i s.reservations)) [
    | inl e ↦ rw (e, unreserve) v.1
    | inr (permit, e) ↦ rw (e, unreserve) (unfold available in v.1)
  ],
)

pub constrain-IsBlocked :
    (l : Limits) (s : Admission) (p : String) → IsBlocked s p → IsBlocked (constrain l s) p
unfolding constrain available
constrain-IsBlocked l s p b = ground arith

pub constrain-IsDispatched :
    (c l : Limits) (s : Admission) → IsDispatched c s → IsDispatched c (constrain l s)
constrain-IsDispatched c l s v = (
  constrain-Inv l s v.0,
  unfold constrain in IsStalled-mono s (constrain l s) s.waiting (constrain-IsBlocked l s) v.1,
)
