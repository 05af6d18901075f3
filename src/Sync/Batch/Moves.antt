-- ===== src/Sync/Batch/Moves.antt =====
-- How one execution of packages/typescript/src/sync/worker.ts moves the totals of its batch.
use ja3proxy.Base.{ℕ, ◌+◌, ◌*◌, ◌≤◌, ◌≡◌, refl, max, if◌then◌else◌, ◌||◌, ltb, arith, either}
use ja3proxy.Sync.Batch.{
  Phase, reading, Moved, fail, Assembly, single, copied, no_memory, Event, chunk, finish, break,
  take_chunk, reserve, give_back, settle, assemble, complete, advance,
}

-- The totals beside one execution, where the others hold `rest` bytes.
pub record Held (max_total rest : ℕ) (m : Moved) : Type 0 where
  pub total : m.payload ≡ m.execution.bytes + rest
  pub own : m.execution.reserved ≡ m.execution.bytes
  pub work : m.working ≡ m.payload
  pub within : m.payload ≤ max_total
  pub reached : m.working ≤ m.peak
  pub below : m.peak ≤ 2 * max_total

fail-Held : (max_total rest : ℕ) (m : Moved) → Held max_total rest m → Held max_total rest (fail m)
unfolding fail
fail-Held max_total rest m h = record {
  total = omega (arith, h.total);
  own = refl;
  work = omega (arith, h.total, h.own, h.work);
  within = omega (arith, h.within);
  reached = omega (arith, h.reached);
  below = h.below;
}

grown-Held :
    (max_total n rest : ℕ) (m : Moved)
    → m.payload + n ≤ max_total
    → Held max_total rest m
    → Held max_total rest (record {
      payload = m.payload + n;
      working = m.working + n;
      peak = max m.peak (m.working + n);
      execution = record m.execution {
        bytes = m.execution.bytes + n;
        reserved = m.execution.reserved + n;
      };
    })
grown-Held max_total n rest m small h = record {
  total = omega (arith, h.total);
  own = omega (arith, h.own);
  work = omega (arith, h.work);
  within = small;
  reached = omega arith;
  below = omega (arith, h.below, h.work, small);
}

take_chunk-Held :
    (max_total n rest : ℕ) (m : Moved)
    → Held max_total rest m
    → Held max_total rest (take_chunk max_total n m)
unfolding take_chunk
take_chunk-Held max_total n rest m h =
    either (Held max_total rest)
      (ltb max_total (m.payload + n) || ltb (2 * max_total) (m.working + n))
      (λ large. fail-Held max_total rest m h)
      λ fits. grown-Held max_total n rest m (ground (arith, fits)) h

-- Between the reservation for the new array and its return.
record Joining (max_total rest : ℕ) (m : Moved) : Type 0 where
  total : m.payload ≡ m.execution.bytes + rest
  own : m.execution.reserved ≡ m.execution.bytes + m.execution.bytes
  work : m.working ≡ m.payload + m.execution.bytes
  within : m.payload ≤ max_total
  reached : m.working ≤ m.peak
  below : m.peak ≤ 2 * max_total

reserve-Joining :
    (max_total rest : ℕ) (m : Moved) → Held max_total rest m → Joining max_total rest (reserve m)
unfolding reserve
reserve-Joining max_total rest m h = record {
  total = h.total;
  own = omega (arith, h.own);
  work = omega (arith, h.work);
  within = h.within;
  reached = omega arith;
  below = omega (arith, h.below, h.work, h.total, h.within);
}

give_back-Held :
    (max_total rest : ℕ) (m : Moved) → Joining max_total rest m → Held max_total rest (give_back m)
unfolding give_back
give_back-Held max_total rest m h = record {
  total = h.total;
  own = omega (arith, h.own);
  work = omega (arith, h.work);
  within = h.within;
  reached = omega (arith, h.reached);
  below = h.below;
}

-- An allocation that fails, with both reservations of the execution still counted.
fail-Joining :
    (max_total rest : ℕ) (m : Moved) → Joining max_total rest m → Held max_total rest (fail m)
unfolding fail
fail-Joining max_total rest m h = record {
  total = omega (arith, h.total);
  own = refl;
  work = omega (arith, h.total, h.own, h.work);
  within = omega (arith, h.within);
  reached = omega (arith, h.reached);
  below = h.below;
}

settle-Held :
    (max_total rest : ℕ) (m : Moved) → Held max_total rest m → Held max_total rest (settle m)
unfolding settle
settle-Held max_total rest m h = record {
  total = h.total;
  own = h.own;
  work = h.work;
  within = h.within;
  reached = h.reached;
  below = h.below;
}

assemble-Held :
    (max_total rest : ℕ) (assembly : Assembly) (m : Moved)
    → Held max_total rest m
    → Held max_total rest (assemble assembly m)
unfolding assemble
assemble-Held max_total rest no_memory m h =
    fail-Joining max_total rest (reserve m) (reserve-Joining max_total rest m h)
assemble-Held max_total rest assembly m h =
    settle-Held max_total rest (give_back (reserve m))
      (give_back-Held max_total rest (reserve m) (reserve-Joining max_total rest m h))

copied-Held :
    (max_total rest : ℕ) (assembly : Assembly) (m : Moved)
    → Held max_total rest m
    → Held max_total rest (
        if ltb (2 * max_total) (m.working + m.execution.bytes) then fail m else assemble assembly m)
copied-Held max_total rest assembly m h =
    either (Held max_total rest) (ltb (2 * max_total) (m.working + m.execution.bytes))
      (λ large. fail-Held max_total rest m h) λ fits. assemble-Held max_total rest assembly m h

complete-Held :
    (max_total rest : ℕ) (assembly : Assembly) (m : Moved)
    → Held max_total rest m
    → Held max_total rest (complete max_total assembly m)
unfolding complete
complete-Held max_total rest single m h = settle-Held max_total rest m h
complete-Held max_total rest copied m h = copied-Held max_total rest copied m h
complete-Held max_total rest no_memory m h = copied-Held max_total rest no_memory m h

pub advance-Held :
    (max_total rest : ℕ) (event : Event) (phase : Phase) (m : Moved)
    → Held max_total rest m
    → Held max_total rest (advance max_total event phase m)
unfolding advance
advance-Held max_total rest (chunk n) reading m h = take_chunk-Held max_total n rest m h
advance-Held max_total rest (finish assembly) reading m h =
    complete-Held max_total rest assembly m h
advance-Held max_total rest break reading m h = fail-Held max_total rest m h
advance-Held max_total rest event phase m h = h
