-- ===== src/Concurrency/Lifetime/Close.antt =====
-- What holds when the promise of `close` is resolved.
use ja3proxy.Base.{
  false, ◌||◌, ℕ, ◌≤◌, ◌<◌, ◌≡◌, refl, sym, subst, inl, inr, Bool, true, not, ◌&&◌, List, [], ◌∷◌,
  map, none, some, ◌==◌, all, All, arith, Bool-cases,
}
use ja3proxy.Concurrency.Lifetime.{
  wake, Operation, Closing, Lifetime, open_lifetime, mem, operation_id, find_operation, abort_all,
  close, all_settled, is_resolved, Event, run,
}
use ja3proxy.Concurrency.Lifetime.Draining.{Awaited, Waits, run-Waits, Any, run-Any}
use ja3proxy.Concurrency.Lifetime.Running.{All-map, Running, Runs}

All-mem : (ops : List Operation) → All (λ op. mem op.id (map operation_id ops) ≡ true) ops
All-mem [] = tt
All-mem (op ∷ ops) = (ground arith, All-map (λ o e. ground arith) ops (All-mem ops))

All-both :
    (P Q : Operation → Type 0) (ops : List Operation)
    → All P ops
    → All Q ops
    → All (λ op. P op × Q op) ops
All-both P Q [] p q = tt
All-both P Q (op ∷ ops) (p, ps) (q, qs) = ((p, q), All-both P Q ops ps qs)

awaited :
    (s : Lifetime)
    → Running Any s
    → All
        (Runs (Awaited s.next_id (map operation_id s.operations)) s.settled s.next_id)
        s.operations
awaited s r =
    All-map (λ op ((m, lt, t), e). (m, lt, inl e)) s.operations
      (All-both _ _ s.operations r.running (All-mem s.operations))

close-Waits :
    (drain : Bool) (s : Lifetime)
    → Running Any s
    → s.closing ≡ none
    → Waits s.next_id (map operation_id s.operations) (close drain s)
unfolding close abort_all
close-Waits drain s r e = elim (Bool-cases drain) [
  | inl d ↦
      rw (e, d, close)
        (record {
          runs = record { running = awaited s r; given = r.given };
          later = omega arith;
          is_closed = refl;
          waiting = (_, refl, refl);
        })
  | inr d ↦
      rw (e, d, close)
        (record {
          runs = record { running = awaited s r; given = r.given };
          later = omega arith;
          is_closed = refl;
          waiting = (_, refl, refl);
        })
]

settled_mem :
    (i : ℕ) (ids settled : List ℕ)
    → all (λ j. mem j settled) ids ≡ true
    → mem i ids ≡ true
    → mem i settled ≡ true
settled_mem i [] settled a m = absurd (ground arith)
settled_mem i (j ∷ ids) settled a m = elim (Bool-cases (i == j)) [
  | inl e ↦
      let same : i ≡ j = ground arith in
      let first : mem j settled ≡ true = ground arith in
      subst (λ k. mem k settled ≡ true) (sym same) first
  | inr e ↦ settled_mem i ids settled (ground arith) (ground arith)
]

resolved_settled :
    (s : Lifetime) (c : Closing)
    → s.closing ≡ some c
    → is_resolved s ≡ true
    → all_settled c.pending s ≡ true
unfolding is_resolved
resolved_settled s c e h =
    let g : not c.draining && all_settled c.pending s ≡ true = rw e at h in ground arith

find_none :
    (n i : ℕ) (ops : List Operation)
    → All (λ op. n ≤ op.id) ops
    → i < n
    → find_operation i ops ≡ none
find_none n i [] h lt = refl
find_none n i (op ∷ ops) (le, h) lt = ground (arith, find_none n i ops h lt)

late :
    (n : ℕ) (pending : List ℕ) (t : Lifetime)
    → Waits n pending t
    → is_resolved t ≡ true
    → All (λ op. n ≤ op.id) t.operations
late n pending t w h =
    let (c, e, p) = w.waiting in
    let a : all_settled pending t ≡ true =
      subst (λ ids. all_settled ids t ≡ true) p (resolved_settled t c e h) in
    All-map
      (λ op (m, lt, q). elim q [
        | inl known ↦ absurd (ground (arith, m, settled_mem op.id pending t.settled a known))
        | inr le ↦ le
      ])
      t.operations w.runs.running

-- When the promise of `close` is resolved, none of the operations that ran when it was called runs any
-- more: with or without draining, in whatever way the calls before and behind it are interleaved, and
-- although operations that were accepted before may be tracked behind it. The Lifetime was not being
-- closed before.
pub close_waits :
    (before after : List Event) (drain : Bool)
    → (run before open_lifetime).closing ≡ none
    → is_resolved (run after (close drain (run before open_lifetime))) ≡ true
    → All
        (λ op.
          find_operation op.id (run after (close drain (run before open_lifetime))).operations
          ≡ none)
        (run before open_lifetime).operations
close_waits before after drain e h =
    let s : Lifetime = run before open_lifetime in
    let r : Running Any s = run-Any before open_lifetime (record { running = tt; given = tt }) in
    let w =
      run-Waits s.next_id (map operation_id s.operations) after (close drain s)
        (close-Waits drain s r e) in
    All-map
      (λ op (m, lt, t).
        find_none s.next_id op.id _ (late s.next_id (map operation_id s.operations) _ w h) lt)
      s.operations r.running

settled_all :
    (ops : List Operation) (settled : List ℕ)
    → All (λ op. mem op.id settled ≡ true) ops
    → all (λ i. mem i settled) (map operation_id ops) ≡ true
settled_all [] settled h = refl
settled_all (op ∷ ops) settled (e, h) = ground (arith, settled_all ops settled h)

woken :
    (elapsed : Bool) (t : Lifetime) (c : Closing)
    → t.closing ≡ some c
    → all_settled c.pending t ≡ true
    → is_resolved (wake elapsed t) ≡ true
unfolding wake is_resolved abort_all
woken elapsed t c e a = elim (Bool-cases c.draining) [
  | inl d ↦
      let test : c.draining && (elapsed || all_settled c.pending t) ≡ true = ground (arith, d, a) in
      rw (e, test, wake) a
  | inr d ↦
      let test : c.draining && (elapsed || all_settled c.pending t) ≡ false = ground (arith, d) in
      rw (e, test, wake) (rw (e, d) a)
]

-- When every operation that ran at the call of `close` is done, the promise is resolved as soon as
-- `close` goes on, and it needs no timer for that. The Lifetime was not being closed before.
pub close_resolves :
    (before after : List Event) (drain elapsed : Bool)
    → (run before open_lifetime).closing ≡ none
    → All
        (λ op. mem op.id (run after (close drain (run before open_lifetime))).settled ≡ true)
        (run before open_lifetime).operations
    → is_resolved (wake elapsed (run after (close drain (run before open_lifetime)))) ≡ true
close_resolves before after drain elapsed e h =
    let s : Lifetime = run before open_lifetime in
    let t : Lifetime = run after (close drain s) in
    let r : Running Any s = run-Any before open_lifetime (record { running = tt; given = tt }) in
    let w =
      run-Waits s.next_id (map operation_id s.operations) after (close drain s)
        (close-Waits drain s r e) in
    let (c, e', p) = w.waiting in
    woken elapsed t c e'
      (subst (λ ids. all_settled ids t ≡ true) (sym p) (settled_all s.operations t.settled h))
