-- ===== src/Sync/Batch/Tests.antt =====
-- A batch of packages/typescript/src/sync/worker.ts with two lanes, and the theorem at it.
use ja3proxy.Base.{ℕ, ◌≡◌, refl, [], ◌∷◌, List}
use ja3proxy.Sync.Batch.{
  Event, chunk, finish, copied, no_memory, done, failed, run, step, at, advance, take_chunk,
  complete, assemble, reserve, give_back, settle, fail, create, replicate, fresh,
}
use ja3proxy.Sync.Batch.Account.{IsBalanced, run-IsBalanced}

runs : Unit {0}
unfolding run step at advance take_chunk complete assemble reserve give_back settle fail create
    replicate fresh
runs = tt

-- The second execution meets the limit of ten bytes and gives its four bytes back; the first one copies
-- its two chunks.
abbrev events : List (ℕ × Event)
events = (0, finish copied) ∷ (0, chunk 3) ∷ (1, chunk 4) ∷ (1, chunk 4) ∷ (0, chunk 5) ∷ []

ends : run events (create 10 2) ≡ record {
  max_total = 10;
  payload = 8;
  working = 8;
  peak = 16;
  executions =
      record { bytes = 8; reserved = 8; phase = done }
      ∷ record { bytes = 0; reserved = 0; phase = failed }
      ∷ [];
}
unfolding runs
ends = refl

-- An allocation that fails gives both reservations back.
exhausted : run ((0, finish no_memory) ∷ (0, chunk 3) ∷ []) (create 10 1) ≡ record {
  max_total = 10;
  payload = 0;
  working = 0;
  peak = 6;
  executions = record { bytes = 0; reserved = 0; phase = failed } ∷ [];
}
unfolding runs
exhausted = refl

run-IsBalanced_example : IsBalanced 10 (run events (create 10 2))
run-IsBalanced_example = run-IsBalanced 10 2 events
