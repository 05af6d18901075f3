-- ===== src/Client/Body.antt =====
-- packages/typescript/src/client.ts: the body of a response in executeStream, from the point where its
-- metadata has been accepted: the variables of the request as a record, `finish`, and the pull and the
-- cancellation of the stream as steps. What a wait for the next frame comes to is an argument: what the
-- FrameReader gives, or the error that has ended the request meanwhile, which `race` then passes on.
pub mod Whole
pub mod Delivery
mod Tests
use ja3proxy.Base.{
  ℕ, suc, ◌+◌, Bool, true, false, not, ◌&&◌, ◌||◌, String, List, [], ◌∷◌, ◌++◌, Option, none, some,
  ltb, ◌==◌, length, if◌then◌else◌,
}
use ja3proxy.Errors.{Code, Phase, response_started, Diagnostics, TransportError, transport_error}
use ja3proxy.Errors.Encoding.{read_diagnostics}
use ja3proxy.Wire.Value.{Value, undefined, number, whole, minus, member, equals_one, is_undefined}
use ja3proxy.Protocol.Payloads.{valid_diagnostics}
use ja3proxy.Protocol.Frames.{Next, a_frame, end_of_stream}
use ja3proxy.Service.{reported_error}

-- What the request and the metadata of its response have fixed.
pub record Expected : Type 0 where
  pub request_id : String
  pub attempt : ℕ
  pub maximum : ℕ
  pub bodyless : Bool
  pub context_id : Option String
  pub cookie_revision : Option ℕ
  pub used_proxy : Bool

pub data Stream : Type 0 where
  readable closed : Stream
  errored : TransportError → Stream

-- The resolution of `terminal`.
pub data Completion : Type 0 where
  completed : Diagnostics → Completion
  failed : TransportError → Completion

-- `enqueued` are the chunks that the stream was given, in their order; `releases` counts how often the
-- slot, the reservation and the operation were given back.
pub record Response : Type 0 where
  pub diagnostics : Diagnostics
  pub response_bytes : ℕ
  pub enqueued : List (List ℕ)
  pub finished : Bool
  pub failure : Option TransportError
  pub stream : Stream
  pub reader_cancelled : Bool
  pub releases : ℕ
  pub completion : Option Completion

-- The response whose metadata carried the diagnostics.
pub begin : Diagnostics → Response
begin d = record {
  diagnostics = d;
  response_bytes = 0;
  enqueued = [];
  finished = false;
  failure = none;
  stream = readable;
  reader_cancelled = false;
  releases = 0;
  completion = none;
}

-- updateLocal; the moment is the time since the start and the bytes uploaded.
abbrev pub update_local : ℕ × ℕ → Response → Diagnostics
update_local moment s = record s.diagnostics {
  total_ms = moment.0;
  request_bytes = moment.1;
  response_bytes = s.response_bytes;
}

-- `controller.error(error)`, which throws once the stream is closed or errored.
abbrev pub error_stream : TransportError → Stream → Stream
error_stream e readable = errored e
error_stream e stream = stream

abbrev pub settle : Option TransportError → Response → Response
settle none s = record s {
  finished = true;
  failure = none;
  releases = suc s.releases;
  completion = some (completed s.diagnostics);
}
settle (some e) s = record s {
  diagnostics = e.diagnostics;
  finished = true;
  failure = some e;
  stream = error_stream e s.stream;
  reader_cancelled = true;
  releases = suc s.releases;
  completion = some (failed e);
}

-- finish
pub finish : Option TransportError → Response → Response
finish error s = if s.finished then s else settle error s

-- What `deadline.race(reader.next(), …)` comes to.
pub data Answer : Type 0 where
  frame : Next → Answer
  interrupted : TransportError → Answer

-- `finish(normalize(error))` for an error that the SDK throws here.
pub fail : Expected → Code → ℕ × ℕ → Response → Response
unfolding finish
fail plan code moment s =
    finish (some (transport_error code (update_local moment s) plan.used_proxy none)) s

abbrev pub is_end : Answer → Bool
is_end (frame end_of_stream) = true
is_end _ = false

-- The next frame must be the end of the stream; then `last` decides.
pub at_end : Expected → ℕ × ℕ → Answer → Response → Response → Response
unfolding fail finish
at_end plan moment (interrupted e) last s = finish (some e) s
at_end plan moment answer last s =
    if is_end answer then last else fail plan Code.protocol_error moment s

take_data : Expected → ℕ × ℕ → List ℕ → Response → Response
unfolding fail
take_data plan moment payload s =
    if plan.bodyless || length payload == 0
    then fail plan Code.protocol_error moment s
    else if ltb plan.maximum (s.response_bytes + length payload)
    then fail plan Code.body_too_large moment s
    else record s {
      response_bytes = s.response_bytes + length payload;
      diagnostics = record s.diagnostics {
        phase = Phase.body;
        response_bytes = s.response_bytes + length payload;
      };
      enqueued = s.enqueued ++ payload ∷ [];
    }

abbrev pub has_started : TransportError → Bool
has_started e = elim e.delivery [ response_started ↦ true | _ ↦ false ]

take_error : Expected → ℕ × ℕ → Option Value → Answer → Response → Response
unfolding fail at_end finish
take_error plan moment none second s = fail plan Code.protocol_error moment s
take_error plan moment (some v) second s =
    let e = reported_error v (update_local moment s) plan.used_proxy true in
    if not (has_started e)
    then fail plan Code.protocol_error moment s
    else at_end plan moment second (finish (some e) s) s

abbrev pub is_count : ℕ → Value → Bool
is_count n (number (whole m)) = m == n
is_count n (number (minus m)) = m == 0 && n == 0
is_count n _ = false

abbrev same_context : Option String → Value → Bool
same_context none v = true
same_context (some id) v = equals_one (id ∷ []) v

abbrev same_revision : Option ℕ → Value → Bool
same_revision none v = true
same_revision (some n) v = is_count n v

-- The test of the final diagnostics.
abbrev pub is_complete : Expected → ℕ → Value → Bool
is_complete plan bytes v =
    valid_diagnostics v (some plan.request_id) (some plan.attempt)
    && equals_one ("complete" ∷ []) (member "phase" v)
    && equals_one ("response_started" ∷ []) (member "delivery" v)
    && is_count bytes (member "responseBytes" v)
    && same_context plan.context_id (member "contextId" v)
    && same_revision plan.cookie_revision (member "cookieRevision" v)

-- `diag = copyDiagnostics(complete); finish(); current.close()`
pub conclude : Value → Response → Response
unfolding finish
conclude v s = record (finish none (record s { diagnostics = read_diagnostics v })) {
  stream = closed;
}

take_complete : Expected → ℕ × ℕ → Value → Answer → Response → Response
unfolding fail at_end conclude
take_complete plan moment v second s =
    if is_complete plan s.response_bytes v
    then at_end plan moment second (conclude v s) s
    else fail plan Code.protocol_error moment s

take_parsed : Expected → ℕ × ℕ → Option Value → Answer → Response → Response
unfolding take_complete fail
take_parsed plan moment none second s = fail plan Code.protocol_error moment s
take_parsed plan moment (some v) second s = take_complete plan moment v second s

take_frame : (List ℕ → Option Value) → Expected → ℕ × ℕ → ℕ → List ℕ → Answer → Response → Response
unfolding take_data take_error take_parsed fail
take_frame parse plan moment kind payload second s =
    if kind == 2
    then take_data plan moment payload s
    else if kind == 4
    then take_error plan moment (parse payload) second s
    else if kind == 3
    then take_parsed plan moment (parse payload) second s
    else fail plan Code.protocol_error moment s

take : (List ℕ → Option Value) → Expected → ℕ × ℕ → Answer → Answer → Response → Response
unfolding take_frame finish fail
take parse plan moment (interrupted e) second s = finish (some e) s
take parse plan moment (frame (a_frame kind payload)) second s =
    take_frame parse plan moment kind payload second s
take parse plan moment (frame next) second s = fail plan Code.protocol_error moment s

-- pull; the second answer is that behind a last frame.
pub pull : (List ℕ → Option Value) → Expected → ℕ × ℕ → Answer → Answer → Response → Response
unfolding take
pull parse plan moment first second s =
    if s.finished then s else take parse plan moment first second s

abbrev pub gone : Stream → Stream
gone readable = closed
gone stream = stream

-- cancel, by the consumer, which closes the stream first.
pub cancel : Expected → ℕ × ℕ → Response → Response
unfolding fail
cancel plan moment s = fail plan Code.cancelled moment (record s { stream = gone s.stream })

-- The end of the request between two pulls with the error that its deadline (onAbort), `close` or
-- failStreams builds.
pub abort : TransportError → Response → Response
unfolding finish
abort e s = finish (some e) s
