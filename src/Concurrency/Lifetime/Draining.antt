-- ===== src/Concurrency/Lifetime/Draining.antt =====
-- What `close` waits for.
use ja3proxy.Base.{
  ℕ, ◌≤◌, ◌≡◌, refl, sym, subst, ◌⊎◌, inl, inr, Bool, true, false, not, ◌&&◌, ◌||◌, List, [], ◌∷◌,
  some, arith, Bool-cases, Option-cases, if◌then◌else◌,
}
use ja3proxy.Concurrency.Lifetime.{
  Closing, Lifetime, mem, stop_accepting, register, begin, track, find_operation, finish, done,
  abort_all, close, all_settled, wake, Event, begins, tracks, ends, closes, wakes, stops, step, run,
}
use ja3proxy.Concurrency.Lifetime.Running.{
  register-Running, finish-Running, done-Running, All-find, Running,
}

-- While `close` waits for `pending`, the numbers from `n` on were given out behind its call.
abbrev pub Awaited : ℕ → List ℕ → ℕ → Type 0
Awaited n pending i = (mem i pending ≡ true) ⊎ (n ≤ i)

pub record Waits (n : ℕ) (pending : List ℕ) (s : Lifetime) : Type 0 where
  pub runs : Running (Awaited n pending) s
  pub later : n ≤ s.next_id
  pub is_closed : s.closed ≡ true
  pub waiting : (c : Closing) × (s.closing ≡ some c) × (c.pending ≡ pending)

begin_closed : (deadline : ℕ) (s : Lifetime) → s.closed ≡ true → begin deadline s ≡ s
unfolding begin
begin_closed deadline s e = ground arith

track_closed : (deadline : ℕ) (s : Lifetime) → s.closed ≡ true → track deadline false s ≡ s
unfolding track
track_closed deadline s e = ground arith

module _ (n : ℕ) (pending : List ℕ) where
  register-Waits :
      (deadline : ℕ) (owns : Bool) (s : Lifetime)
      → Waits n pending s
      → Waits n pending (register deadline owns s)
  unfolding register
  register-Waits deadline owns s w = record {
    runs = register-Running (Awaited n pending) deadline owns s (inr w.later) w.runs;
    later = omega (arith, w.later);
    is_closed = w.is_closed;
    waiting = w.waiting;
  }

  done-Waits : (i : ℕ) (s : Lifetime) → Waits n pending s → Waits n pending (done i s)
  unfolding done finish
  done-Waits i s w = elim (Option-cases (find_operation i s.operations)) [
    | inl e ↦ rw (e, done) w
    | inr (op, e) ↦
        rw (e, done)
          (record {
            runs =
                finish-Running (Awaited n pending) op s
                  (All-find _ i s.operations op w.runs.running e) w.runs;
            later = w.later;
            is_closed = w.is_closed;
            waiting = w.waiting;
          })
  ]

  wake-Waits :
      (elapsed : Bool) (s : Lifetime) → Waits n pending s → Waits n pending (wake elapsed s)
  unfolding wake abort_all
  wake-Waits elapsed s w =
      let (c, e, p) = w.waiting in
      elim (Bool-cases (c.draining && (elapsed || all_settled c.pending s))) [
        | inr f ↦ rw (e, f, wake) w
        | inl f ↦
            rw (e, f, wake)
              (record {
                runs = record { running = w.runs.running; given = w.runs.given };
                later = w.later;
                is_closed = w.is_closed;
                waiting = (record c { draining = false }, refl, p);
              })
      ]

  step-Waits : (e : Event) (s : Lifetime) → Waits n pending s → Waits n pending (step e s)
  unfolding step begin track close stop_accepting
  step-Waits (begins deadline) s w =
      subst (Waits n pending) (sym (begin_closed deadline s w.is_closed)) w
  step-Waits (tracks deadline true) s w = register-Waits deadline false s w
  step-Waits (tracks deadline false) s w =
      subst (Waits n pending) (sym (track_closed deadline s w.is_closed)) w
  step-Waits (ends i) s w = done-Waits i s w
  step-Waits (closes drain) s w = let (c, e, p) = w.waiting in rw (e, close) w
  step-Waits (wakes elapsed) s w = wake-Waits elapsed s w
  step-Waits stops s w = record {
    runs = record { running = w.runs.running; given = w.runs.given };
    later = w.later;
    is_closed = refl;
    waiting = w.waiting;
  }

  pub run-Waits : (es : List Event) (s : Lifetime) → Waits n pending s → Waits n pending (run es s)
  unfolding run
  run-Waits [] s w = w
  run-Waits (e ∷ es) s w = run-Waits es (step e s) (step-Waits e s w)

-- Every state that is reached keeps the numbers of its operations apart from the settled ones.
abbrev pub Any : ℕ → Type 0
Any i = Unit {0}

close-Any : (drain : Bool) (s : Lifetime) → Running Any s → Running Any (close drain s)
unfolding close abort_all
close-Any drain s r = elim (Option-cases s.closing) [
  | inr (c, e) ↦ rw (e, close) r
  | inl e ↦ elim (Bool-cases drain) [
    | inl d ↦ rw (e, d, close) (record { running = r.running; given = r.given })
    | inr d ↦ rw (e, d, close) (record { running = r.running; given = r.given })
  ]
]

wake-Any : (elapsed : Bool) (s : Lifetime) → Running Any s → Running Any (wake elapsed s)
unfolding wake abort_all
wake-Any elapsed s r = elim (Option-cases s.closing) [
  | inl e ↦ rw (e, wake) r
  | inr (c, e) ↦ elim (Bool-cases (c.draining && (elapsed || all_settled c.pending s))) [
    | inr f ↦ rw (e, f, wake) r
    | inl f ↦ rw (e, f, wake) (record { running = r.running; given = r.given })
  ]
]

begin-Any : (deadline : ℕ) (s : Lifetime) → Running Any s → Running Any (begin deadline s)
unfolding begin
begin-Any deadline s r = elim (Bool-cases s.closed) [
  | inl e ↦ subst (Running Any) (sym (begin_closed deadline s e)) r
  | inr e ↦
      subst (λ b. Running Any (if b then s else register deadline true s)) (sym e)
        (register-Running Any deadline true s tt r)
]

track-Any :
    (deadline : ℕ) (accepted : Bool) (s : Lifetime)
    → Running Any s
    → Running Any (track deadline accepted s)
unfolding track
track-Any deadline accepted s r = elim (Bool-cases (not accepted && s.closed)) [
  | inl e ↦ subst (λ b. Running Any (if b then s else register deadline false s)) (sym e) r
  | inr e ↦
      subst (λ b. Running Any (if b then s else register deadline false s)) (sym e)
        (register-Running Any deadline false s tt r)
]

step-Any : (e : Event) (s : Lifetime) → Running Any s → Running Any (step e s)
unfolding step stop_accepting
step-Any (begins deadline) s r = begin-Any deadline s r
step-Any (tracks deadline accepted) s r = track-Any deadline accepted s r
step-Any (ends i) s r = done-Running Any i s r
step-Any (closes drain) s r = close-Any drain s r
step-Any (wakes elapsed) s r = wake-Any elapsed s r
step-Any stops s r = record { running = r.running; given = r.given }

pub run-Any : (es : List Event) (s : Lifetime) → Running Any s → Running Any (run es s)
unfolding run
run-Any [] s r = r
run-Any (e ∷ es) s r = run-Any es (step e s) (step-Any e s r)
