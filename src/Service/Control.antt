-- ===== src/Service/Control.antt =====
-- packages/typescript/src/service.ts: control() and readJson(). What the platform and the deadline do
-- is an argument: the answer of fetch with its stream of chunks, whether the signal is aborted, and
-- the reading of JSON from bytes. Instrumentation headers are left out.
pub mod Settled
mod Tests
use ja3proxy.Base.{
  ℕ, ◌+◌, ◌≡◌, Bool, true, false, not, ◌&&◌, String, str_eq, List, [], ◌∷◌, ◌++◌, Option, none,
  some, ltb, leb, ◌==◌, length, if◌then◌else◌,
}
use ja3proxy.Errors.{
  Code, Kind, Diagnostics, TransportError, Thrown, sdk, foreign, Outcome, returned, threw,
  transport_error,
}
use ja3proxy.Wire.Value.{Value, undefined}
use ja3proxy.Service.{control_diagnostics, reported_error}

-- A value of the stream of a body; `other` is no Uint8Array.
pub data Chunk : Type 0 where
  bytes : List ℕ → Chunk
  other : Chunk

-- How the stream goes on: chunks, then its end or a rejection, also that of a deadline.
pub record Stream : Type 0 where
  pub chunks : List Chunk
  pub failure : Option Thrown

pub record Response : Type 0 where
  pub status : ℕ
  -- The content type before the first `;`, trimmed and in lower case.
  pub media_type : Option String
  pub body : Option Stream

-- A computation inside the `try` block.
pub data Tried (A : Type 0) : Type 0 where
  got : A → Tried A
  failed : Thrown → Tried A

protocol_error : Thrown
protocol_error = sdk (transport_error Code.protocol_error control_diagnostics false none)

json : Option Value → Tried Value
json none = failed foreign
json (some v) = got v

ended : (List ℕ → Option Value) → Option Thrown → List ℕ → Tried Value
unfolding json
ended parse (some e) read = failed e
ended parse none read = json (parse read)

-- The loop of readJson with `size` as the length of what was read.
pub read_chunks : ℕ → (List ℕ → Option Value) → Option Thrown → List ℕ → List Chunk → Tried Value
unfolding protocol_error ended
read_chunks limit parse failure read [] = ended parse failure read
read_chunks limit parse failure read (other ∷ cs) = failed protocol_error
read_chunks limit parse failure read (bytes bs ∷ cs) =
    let rest = read_chunks limit parse failure (read ++ bs) cs in
    if ltb limit (length read + length bs) then failed protocol_error else rest

-- readJson
pub read_json : ℕ → (List ℕ → Option Value) → Option Stream → Tried Value
unfolding read_chunks protocol_error
read_json limit parse none = failed protocol_error
read_json limit parse (some s) = read_chunks limit parse s.failure [] s.chunks

abbrev pub is_ok : ℕ → Bool
is_ok status = leb 200 status && leb status 299

abbrev pub is_json : Option String → Bool
is_json none = false
is_json (some media) = str_eq media "application/json"

reported : ℕ → Tried Value → Tried Value
reported status (failed e) = failed e
reported status (got v) =
    if is_ok status then got v else failed (sdk (reported_error v control_diagnostics false false))

-- What follows `received = true`.
pub receive : ℕ → (List ℕ → Option Value) → Response → Tried Value
unfolding protocol_error reported read_json
receive limit parse r =
    if leb 300 r.status && leb r.status 399
    then failed protocol_error
    else if is_ok r.status && r.status == 204
    then got undefined
    else if not (is_json r.media_type)
    then failed protocol_error
    else reported r.status (read_json limit parse r.body)

-- What a control call meets: the result of `acquire`, whether the body fits the limit, whether the
-- signal was aborted before the request, the answer of `fetch` or its rejection, whether the signal
-- is aborted when an error is caught, and the error of the deadline then.
pub record Conditions : Type 0 where
  pub refusal : Option TransportError
  pub fits : Bool
  pub aborted_before : Bool
  pub fetched : Tried Response
  pub aborted : Bool
  pub cause : TransportError

-- The `catch` block.
pub caught : Conditions → Bool → Thrown → TransportError
caught c received (sdk e) = e
caught c received foreign =
    if c.aborted
    then c.cause
    else transport_error (if received then Code.protocol_error else Code.connect_error)
        control_diagnostics false (some Kind.service_unavailable)

settle : Conditions → Bool → Tried Value → Outcome Value
unfolding caught
settle c received (got v) = returned v
settle c received (failed e) = threw (caught c received e)

exchange : ℕ → (List ℕ → Option Value) → Conditions → Tried Response → Outcome Value
unfolding settle receive
exchange limit parse c (failed e) = settle c false (failed e)
exchange limit parse c (got r) = settle c true (receive limit parse r)

attempt : ℕ → (List ℕ → Option Value) → Conditions → Option TransportError → Outcome Value
unfolding exchange settle
attempt limit parse c (some e) = settle c false (failed (sdk e))
attempt limit parse c none =
    if not c.fits
    then settle c false
        (failed (sdk (transport_error Code.body_too_large control_diagnostics false none)))
    else if c.aborted_before
    then settle c false (failed (sdk c.cause))
    else exchange limit parse c c.fetched

-- control
pub control : ℕ → (List ℕ → Option Value) → Conditions → Outcome Value
unfolding attempt
control limit parse c = attempt limit parse c c.refusal
