-- ===== src/Protocol/Upload.antt =====
-- `uploadFrames` of packages/typescript/src/protocol.ts. The closure's variables are a record, `pull`
-- and `cancel` its functions. The body's reader or iterator is the list of what its reads give. A
-- cancellation while `pull` waits for a read is left out.
pub mod Filling
pub mod Pulling
pub mod Delivery
pub mod Termination
mod Tests
use ja3proxy.Base.{
  ℕ, zero, suc, ◌+◌, ◌-◌, min, Bool, true, false, ◌&&◌, not, ◌||◌, List, [], ◌∷◌, ◌++◌, ltb, leb,
  ◌==◌, if◌then◌else◌, length, take, drop,
}
use ja3proxy.Protocol.Frames.{Read, bytes, other, failure}

-- A body in memory, or one that is read piece by piece; no body is the first with no bytes.
pub data Body : Type 0 where
  buffer : List ℕ → Body
  stream : List Read → Body

pub record Upload : Type 0 where
  pub metadata : List ℕ
  pub max_bytes : ℕ
  pub max_data : ℕ
  pub max_frames : ℕ
  pub pending : List ℕ
  pub offset : ℕ
  pub stage : ℕ
  pub ended : Bool
  pub source : List Read
  pub source_ended : Bool
  pub frames : ℕ
  pub empty_reads : ℕ
  pub sent_bytes : ℕ

-- RangeError, TypeError, or what the source rejects with.
pub data UploadError : Type 0 where
  range_error type_error source_error : UploadError

-- What a pull does to the stream's controller; a chunk is `frame` of a type and a payload.
pub data Pulled : Type 0 where
  sends : ℕ → List ℕ → Pulled
  sends_end closes : Pulled
  fails : UploadError → Pulled

abbrev initial_pending : Body → List ℕ
initial_pending (buffer xs) = xs
initial_pending (stream reads) = []

abbrev initial_source : Body → List Read
initial_source (buffer xs) = []
initial_source (stream reads) = reads

abbrev initial_ended : Body → Bool
initial_ended (buffer xs) = true
initial_ended (stream reads) = false

pub start : List ℕ → Body → ℕ → ℕ → ℕ → Upload
start metadata body max_bytes max_data max_frames = record {
  metadata = metadata;
  max_bytes = max_bytes;
  max_data = max_data;
  max_frames = max_frames;
  pending = initial_pending body;
  offset = 0;
  stage = 0;
  ended = false;
  source = initial_source body;
  source_ended = initial_ended body;
  frames = 0;
  empty_reads = 0;
  sent_bytes = 0;
}

pub cancel : Upload → Upload
cancel u = if u.ended && u.source_ended then u else record u { ended = true; pending = [] }

-- The loop that reads until there are bytes: `reads_left` is `source`.
pub data Filled : Type 0 where
  full : Upload → Filled
  broken : UploadError → Upload → Filled

pub fill : List Read → Upload → Filled
fill [] u = full (record u { source = []; source_ended = true })
fill (other ∷ rest) u = broken type_error (record u { source = rest })
fill (failure ∷ rest) u = broken source_error (record u { source = rest })
fill (bytes [] ∷ rest) u =
    let again =
      fill rest (record u { pending = []; offset = 0; empty_reads = u.empty_reads + 1 }) in
    if leb u.max_frames (u.empty_reads + 1)
    then broken range_error (record u { source = rest; empty_reads = u.empty_reads + 1 })
    else again
fill (bytes (x ∷ xs) ∷ rest) u =
    full (record u { pending = x ∷ xs; offset = 0; empty_reads = 0; source = rest })

-- The `catch`: the error goes to `onError` and to the controller, and the source is cancelled.
pub fail : UploadError → Upload → Pulled × Upload
unfolding cancel
fail e u = (fails e, cancel u)

abbrev pub next_chunk : Upload → List ℕ
next_chunk u =
    take (min (length u.pending) (u.offset + u.max_data) - u.offset) (drop u.offset u.pending)

pub send_data : Upload → Pulled × Upload
unfolding fail
send_data u =
    if ltb u.max_bytes (u.sent_bytes + length (next_chunk u))
    then fail range_error u
    else if leb u.max_frames (u.frames + 1)
    then fail range_error (record u { frames = u.frames + 1 })
    else (
      sends 2 (next_chunk u),
      record u {
        frames = u.frames + 1;
        sent_bytes = u.sent_bytes + length (next_chunk u);
        offset = u.offset + length (next_chunk u);
      },
    )

pub send_filled : Filled → Pulled × Upload
unfolding send_data fail
send_filled (broken e u) = fail e u
send_filled (full u) =
    if ltb u.offset (length u.pending)
    then send_data u
    else (sends_end, record u { ended = true; pending = [] })

-- `while (offset === pending.length && !sourceEnded)`
pub refill : Upload → Filled
unfolding fill
refill u = if u.offset == length u.pending && not u.source_ended then fill u.source u else full u

pub pull : Upload → Pulled × Upload
unfolding refill send_filled
pull u =
    if u.ended
    then (closes, u)
    else if u.stage == 0
    then (sends 1 u.metadata, record u { stage = 1 })
    else send_filled (refill u)

-- How a consumer that pulls to the end fares.
pub data Ending : Type 0 where
  finished closed out_of_fuel : Ending
  failed : UploadError → Ending

abbrev pub after_pull : Pulled → List (ℕ × List ℕ) × Ending → List (ℕ × List ℕ) × Ending
after_pull (sends kind payload) (fs, e) = ((kind, payload) ∷ fs, e)
after_pull sends_end _ = ((3, []) ∷ [], finished)
after_pull closes _ = ([], closed)
after_pull (fails e) _ = ([], failed e)

pub drain : ℕ → Upload → List (ℕ × List ℕ) × Ending
drain zero u = ([], out_of_fuel)
drain (suc fuel) u = let rest = drain fuel (pull u).1 in after_pull (pull u).0 rest
