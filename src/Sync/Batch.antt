-- ===== src/Sync/Batch.antt =====
-- packages/typescript/src/sync/worker.ts: the accounts of `batch`. Executions of lanes run between their
-- awaits, so each step below is one piece of an execution; `bytes` and `reserved` are its variables, and
-- the totals are those of the batch.
pub mod Moves
pub mod Account
mod Tests
use ja3proxy.Base.{ℕ, zero, suc, ◌+◌, ◌-◌, ◌*◌, max, ◌||◌, List, [], ◌∷◌, ltb, if◌then◌else◌}

pub data Phase : Type 0 where
  reading done failed : Phase

pub record Execution : Type 0 where
  pub bytes : ℕ
  pub reserved : ℕ
  pub phase : Phase

-- `peak` is the most that `working` has been.
pub record Batch : Type 0 where
  pub max_total : ℕ
  pub payload : ℕ
  pub working : ℕ
  pub peak : ℕ
  pub executions : List Execution

-- `execute` up to its first read.
pub fresh : Execution
fresh = record { bytes = 0; reserved = 0; phase = reading }

-- A batch with the totals and one execution changed.
pub record Moved : Type 0 where
  pub payload : ℕ
  pub working : ℕ
  pub peak : ℕ
  pub execution : Execution

-- The `catch` block.
pub fail : Moved → Moved
fail m = record {
  payload = m.payload - m.execution.bytes;
  working = m.working - m.execution.reserved;
  peak = m.peak;
  execution = record { bytes = 0; reserved = 0; phase = failed };
}

-- How the body is put together: the only chunk is taken as it is, or the chunks are copied into a new
-- array, or that array cannot be allocated, which throws.
pub data Assembly : Type 0 where
  single copied no_memory : Assembly

pub data Event : Type 0 where
  chunk : ℕ → Event
  finish : Assembly → Event
  break : Event

-- One chunk of `n` bytes.
pub take_chunk : ℕ → ℕ → Moved → Moved
unfolding fail
take_chunk max_total n m =
    if ltb max_total (m.payload + n) || ltb (2 * max_total) (m.working + n)
    then fail m
    else record {
      payload = m.payload + n;
      working = m.working + n;
      peak = max m.peak (m.working + n);
      execution = record m.execution {
        bytes = m.execution.bytes + n;
        reserved = m.execution.reserved + n;
      };
    }

-- `workingBytes += bytes; reservedWorkingBytes += bytes`
pub reserve : Moved → Moved
reserve m = record m {
  working = m.working + m.execution.bytes;
  peak = max m.peak (m.working + m.execution.bytes);
  execution = record m.execution { reserved = m.execution.reserved + m.execution.bytes };
}

-- `workingBytes -= bytes; reservedWorkingBytes -= bytes`
pub give_back : Moved → Moved
give_back m = record m {
  working = m.working - m.execution.bytes;
  execution = record m.execution { reserved = m.execution.reserved - m.execution.bytes };
}

-- The execution has returned its result.
pub settle : Moved → Moved
settle m = record m { execution = record m.execution { phase = done } }

assemble : Assembly → Moved → Moved
unfolding fail reserve give_back settle
assemble no_memory m = fail (reserve m)
assemble assembly m = settle (give_back (reserve m))

-- The end of the body.
pub complete : ℕ → Assembly → Moved → Moved
unfolding assemble settle fail
complete max_total single m = settle m
complete max_total assembly m =
    if ltb (2 * max_total) (m.working + m.execution.bytes) then fail m else assemble assembly m

-- What happens to an execution that still reads; nothing happens to another.
pub advance : ℕ → Event → Phase → Moved → Moved
unfolding take_chunk complete fail
advance max_total (chunk n) reading m = take_chunk max_total n m
advance max_total (finish assembly) reading m = complete max_total assembly m
advance max_total break reading m = fail m
advance max_total event phase m = m

pub record Next : Type 0 where
  pub payload : ℕ
  pub working : ℕ
  pub peak : ℕ
  pub executions : List Execution

-- The event of the execution at an index.
pub at : ℕ → ℕ → Event → ℕ → ℕ → ℕ → List Execution → Next
unfolding advance
at max_total i event payload working peak [] = record {
  payload = payload;
  working = working;
  peak = peak;
  executions = [];
}
at max_total zero event payload working peak (e ∷ es) =
    let m =
      advance max_total event e.phase
        (record { payload = payload; working = working; peak = peak; execution = e }) in
    record {
      payload = m.payload;
      working = m.working;
      peak = m.peak;
      executions = m.execution ∷ es;
    }
at max_total (suc i) event payload working peak (e ∷ es) =
    let n = at max_total i event payload working peak es in
    record n { executions = e ∷ n.executions }

pub step : ℕ × Event → Batch → Batch
unfolding at
step (i, event) b =
    let n = at b.max_total i event b.payload b.working b.peak b.executions in
    record b { payload = n.payload; working = n.working; peak = n.peak; executions = n.executions }

-- The latest event stands first.
pub run : List (ℕ × Event) → Batch → Batch
unfolding step
run [] b = b
run (e ∷ es) b = step e (run es b)

pub replicate : ℕ → List Execution
unfolding fresh
replicate zero = []
replicate (suc n) = fresh ∷ replicate n

-- A batch of `n` requests; one that no lane has taken yet holds nothing.
pub create : ℕ → ℕ → Batch
unfolding replicate
create max_total n = record {
  max_total = max_total;
  payload = 0;
  working = 0;
  peak = 0;
  executions = replicate n;
}
