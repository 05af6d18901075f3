-- ===== src/Protocol/Frames.antt =====
-- The frames of packages/typescript/src/protocol.ts: `frame` and class FrameReader without `cancel`.
-- A byte is a number below 256. The stream behind a reader is the list of what its reads give.
pub mod Rounds
pub mod Content
pub mod Decode
pub mod RoundTrip
mod Tests
use ja3proxy.Base.{
  ℕ, zero, suc, ◌+◌, ◌-◌, ◌*◌, ◌/◌, ◌%◌, ◌^◌, min, Bool, true, false, ◌&&◌, ◌||◌, not, List, [],
  ◌∷◌, ◌++◌, ltb, leb, ◌==◌, if◌then◌else◌, length, take, drop, all,
}

-- DataView.setUint32(…, false) and getUint32(…, false).
pub set_uint32 : ℕ → List ℕ
set_uint32 n = (n / 2 ^ 24 % 256) ∷ (n / 2 ^ 16 % 256) ∷ (n / 2 ^ 8 % 256) ∷ (n % 256) ∷ []

pub get_uint32 : ℕ → ℕ → ℕ → ℕ → ℕ
get_uint32 a b c d = a * 2 ^ 24 + b * 2 ^ 16 + c * 2 ^ 8 + d

pub frame : ℕ → List ℕ → List ℕ
unfolding set_uint32
frame kind payload = (kind % 256) ∷ (set_uint32 (length payload) ++ payload)

-- One `read()` of the stream: a Uint8Array, a value of another type, or a rejection. Behind the list
-- the stream is done.
pub data Read : Type 0 where
  bytes : List ℕ → Read
  other failure : Read

-- `ended` says that the lock was released at the end of the stream.
pub record FrameReader : Type 0 where
  pub chunk : List ℕ
  pub offset : ℕ
  pub source : List Read
  pub ended : Bool
  pub metadata_limit : ℕ
  pub data_limit : ℕ

pub create : List Read → ℕ → ℕ → FrameReader
create source metadata_limit data_limit = record {
  chunk = [];
  offset = 0;
  source = source;
  ended = false;
  metadata_limit = metadata_limit;
  data_limit = data_limit;
}

-- `exact` gives the bytes, or null at the end of the stream, or throws.
pub data Exact : Type 0 where
  got : List ℕ → Exact
  end_of_stream incomplete invalid read_failed out_of_fuel : Exact

-- The bytes that a round copies.
abbrev pub piece : ℕ → List ℕ → FrameReader → List ℕ
piece size written r =
    take (min (size - length written) (length r.chunk - r.offset)) (drop r.offset r.chunk)

abbrev pub advance : ℕ → List ℕ → FrameReader → FrameReader
advance size written r = record r {
  offset = r.offset + min (size - length written) (length r.chunk - r.offset);
}

-- The loop of `exact`; `written` are the bytes copied so far. A read behind the end rejects, since the
-- reader has given up its lock.
pub exact_loop : ℕ → ℕ → Bool → List ℕ → FrameReader → Exact × FrameReader
exact_loop zero size allow_eof written r = (out_of_fuel, r)
exact_loop (suc fuel) size allow_eof written r =
    let copy = λ (r' : FrameReader).
      exact_loop fuel size allow_eof (written ++ piece size written r') (advance size written r') in
    let refill : Exact × FrameReader = elim r.source [
      | [] ↦ (
        if allow_eof && length written == 0 then end_of_stream else incomplete,
        record r { chunk = []; ended = true },
      )
      | s ∷ rest ↦ elim s [
        | other ↦ (invalid, record r { source = rest })
        | failure ↦ (read_failed, record r { source = rest })
        | bytes [] ↦
            exact_loop fuel size allow_eof written
              (record r { chunk = []; offset = 0; source = rest })
        | bytes (x ∷ xs) ↦ copy (record r { chunk = x ∷ xs; offset = 0; source = rest })
      ]
    ] in
    let round : Exact × FrameReader =
      if r.ended then (read_failed, r) else if r.offset == length r.chunk then refill else copy r in
    if leb size (length written) then (got written, r) else round

pub exact : ℕ → Bool → FrameReader → Exact × FrameReader
unfolding exact_loop
exact size allow_eof r = exact_loop (length r.source + 3) size allow_eof [] r

-- What `next` gives: a frame, null, or an exception.
pub data Next : Type 0 where
  a_frame : ℕ → List ℕ → Next
  end_of_stream incomplete invalid read_failed out_of_fuel : Next

abbrev pub failed : Exact → Next
failed (got _) = invalid
failed end_of_stream = end_of_stream
failed incomplete = incomplete
failed invalid = invalid
failed read_failed = read_failed
failed out_of_fuel = out_of_fuel

abbrev pub is_frame_type : ℕ → Bool
is_frame_type kind = kind == 1 || kind == 2 || kind == 3 || kind == 4

-- A payload that is cut short is never null.
pub payload_of : ℕ → Exact → Next
payload_of kind (got payload) = a_frame kind payload
payload_of kind end_of_stream = incomplete
payload_of kind e = failed e

pub next_payload : ℕ → ℕ → FrameReader → Next × FrameReader
next_payload kind size r =
    if not (is_frame_type kind) || ltb (if kind == 2 then r.data_limit else r.metadata_limit) size
    then (invalid, r)
    else (payload_of kind (exact size false r).0, (exact size false r).1)

pub after_header : Exact → FrameReader → Next × FrameReader
unfolding get_uint32
after_header (got (kind ∷ a ∷ b ∷ c ∷ d ∷ [])) r = next_payload kind (get_uint32 a b c d) r
after_header e r = (failed e, r)

pub next : FrameReader → Next × FrameReader
next r = after_header (exact 5 true r).0 (exact 5 true r).1
