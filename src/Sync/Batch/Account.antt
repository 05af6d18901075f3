-- ===== src/Sync/Batch/Account.antt =====
-- The totals of a batch in packages/typescript/src/sync/worker.ts.
use ja3proxy.Base.{ℕ, zero, suc, ◌+◌, ◌*◌, ◌≤◌, ◌≡◌, refl, subst, List, [], ◌∷◌, arith, All}
use ja3proxy.Sync.Batch.{Execution, Batch, Event, Next, at, step, run, replicate, create}
use ja3proxy.Sync.Batch.Moves.{advance-Held}

pub payload_sum : List Execution → ℕ
payload_sum [] = 0
payload_sum (e ∷ es) = e.bytes + payload_sum es

record Sums (max_total rest : ℕ) (n : Next) : Type 0 where
  total : n.payload ≡ payload_sum n.executions + rest
  own : All (λ e. e.reserved ≡ e.bytes) n.executions
  work : n.working ≡ n.payload
  within : n.payload ≤ max_total
  reached : n.working ≤ n.peak
  below : n.peak ≤ 2 * max_total

at-Sums :
    (max_total i : ℕ) (event : Event) (rest payload working peak : ℕ) (es : List Execution)
    → Sums max_total rest
        (record { payload = payload; working = working; peak = peak; executions = es })
    → Sums max_total rest (at max_total i event payload working peak es)
unfolding at payload_sum
at-Sums max_total i event rest payload working peak [] h = h
at-Sums max_total zero event rest payload working peak (e ∷ es) h =
    let m =
      advance-Held max_total (payload_sum es + rest) event e.phase
        (record { payload = payload; working = working; peak = peak; execution = e })
        (record {
          total = omega (arith, h.total);
          own = h.own.0;
          work = h.work;
          within = h.within;
          reached = h.reached;
          below = h.below;
        }) in
    record {
      total = omega (arith, m.total);
      own = (m.own, h.own.1);
      work = m.work;
      within = m.within;
      reached = m.reached;
      below = m.below;
    }
at-Sums max_total (suc i) event rest payload working peak (e ∷ es) h =
    let n = at-Sums max_total i event (e.bytes + rest) payload working peak es (record {
      total = omega (arith, h.total);
      own = h.own.1;
      work = h.work;
      within = h.within;
      reached = h.reached;
      below = h.below;
    }) in
    record {
      total = omega (arith, n.total);
      own = (h.own.0, n.own);
      work = n.work;
      within = n.within;
      reached = n.reached;
      below = n.below;
    }

-- The accounts of a batch between its steps.
pub record IsBalanced (max_total : ℕ) (b : Batch) : Type 0 where
  pub limit : b.max_total ≡ max_total
  pub payload_exact : b.payload ≡ payload_sum b.executions
  pub own : All (λ e. e.reserved ≡ e.bytes) b.executions
  pub working_exact : b.working ≡ b.payload
  pub payload_small : b.payload ≤ max_total
  pub reached : b.working ≤ b.peak
  pub peak_small : b.peak ≤ 2 * max_total
  pub room : All (λ e. b.working + e.bytes ≤ 2 * max_total) b.executions

-- Each execution holds at most the payload.
fits :
    (working max_total extra : ℕ) (es : List Execution)
    → working ≤ max_total
    → extra + payload_sum es ≤ max_total
    → All (λ e. working + e.bytes ≤ 2 * max_total) es
unfolding payload_sum
fits working max_total extra [] w h = tt
fits working max_total extra (e ∷ es) w h =
    (omega (arith, w, h), fits working max_total (extra + e.bytes) es w (omega (arith, h)))

Sums-IsBalanced :
    (max_total : ℕ) (b : Batch) (n : Next)
    → b.max_total ≡ max_total
    → Sums max_total 0 n
    → IsBalanced max_total (record b {
      payload = n.payload;
      working = n.working;
      peak = n.peak;
      executions = n.executions;
    })
Sums-IsBalanced max_total b n limit h = record {
  limit = limit;
  payload_exact = omega (arith, h.total);
  own = h.own;
  working_exact = h.work;
  payload_small = h.within;
  reached = h.reached;
  peak_small = h.below;
  room =
      fits n.working max_total 0 n.executions (omega (arith, h.work, h.within))
        (omega (arith, h.total, h.within));
}

step-IsBalanced :
    (max_total : ℕ) (e : ℕ × Event) (b : Batch)
    → IsBalanced max_total b
    → IsBalanced max_total (step e b)
unfolding step
step-IsBalanced max_total (i, event) b v =
    let n : Sums b.max_total 0 (at b.max_total i event b.payload b.working b.peak b.executions) =
      at-Sums b.max_total i event 0 b.payload b.working b.peak b.executions (record {
        total = omega (arith, v.payload_exact);
        own = v.own;
        work = v.working_exact;
        within = omega (arith, v.payload_small, v.limit);
        reached = v.reached;
        below = omega (arith, v.peak_small, v.limit);
      }) in
    Sums-IsBalanced max_total b _ v.limit (
      subst (λ m. Sums m 0 (at b.max_total i event b.payload b.working b.peak b.executions)) v.limit
        n)

fresh_sum : (n : ℕ) → payload_sum (replicate n) ≡ 0
unfolding replicate payload_sum
fresh_sum zero = refl
fresh_sum (suc n) = omega (arith, fresh_sum n)

fresh_own : (n : ℕ) → All (λ e. e.reserved ≡ e.bytes) (replicate n)
unfolding replicate
fresh_own zero = tt
fresh_own (suc n) = (refl, fresh_own n)

-- However the lanes of a batch interleave, and whichever of its executions fail, an allocation that
-- fails included: the payload is what the executions hold, so that a failed one has given back all of
-- its own, and it never exceeds its limit; each execution has reserved its own bytes and no more, so
-- that between two steps the working memory is the payload; and at its peak, while chunks are copied
-- into a new array, the working memory has never been more than twice the limit. An execution that
-- asks for such an array always finds room for it below twice the limit.
pub run-IsBalanced :
    (max_total n : ℕ) (events : List (ℕ × Event))
    → IsBalanced max_total (run events (create max_total n))
unfolding run create
run-IsBalanced max_total n [] =
    Sums-IsBalanced max_total (create max_total n)
      (record { payload = 0; working = 0; peak = 0; executions = replicate n }) refl
      (record {
        total = omega (arith, fresh_sum n);
        own = fresh_own n;
        work = refl;
        within = omega arith;
        reached = omega arith;
        below = omega arith;
      })
run-IsBalanced max_total n (e ∷ es) =
    step-IsBalanced max_total e (run es (create max_total n)) (run-IsBalanced max_total n es)
