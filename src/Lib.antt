-- ===== src/Lib.antt =====
-- The TypeScript SDK of ja3proxy (packages/typescript/src). The SDK sends HTTP requests through a
-- service that impersonates browsers: a client admits a request under bounded concurrency, uploads it
-- as a sequence of frames, reads the answer back as frames, and checks every JSON value that crosses
-- the wire against a contract that is generated from the service's types.
--
-- Files, by the code they model:
--   Base            names, Boolean tests and list lemmas that the components share
--   Errors          errors.ts: error codes and kinds, diagnostics, the transport error, and the result
--                   of code that may throw. Names has the texts of types.ts for codes, kinds, phases and
--                   deliveries, Encoding the diagnostics as a JavaScript value and back.
--   Platform        the parts of a URL, which the class URL of the platform parses
--   Concurrency     concurrency.ts. Counter has the Maps from a partition to a count. Admission has class
--                   Admission: its fields, with `held` and `reservations` for the closures that were not
--                   called yet and `outcomes` for the settled promises; constrain, available, occupy,
--                   remove, dispatch, release (the closure of occupy) and abort (the listener of a
--                   waiting item). Admission/Calls has acquire, reserve, and sequences of calls (`run`).
--                   A method runs to its end before other code, so each call is one step; the signals
--                   that are aborted during it are an argument of the step. Lifetime has class
--                   Lifetime, with the continuation of `close` behind its race as a step of its own. Deadline
--                   has class Deadline.
--   Protocol        protocol.ts. Frames has `frame` and FrameReader, Upload has uploadFrames. Payloads has
--                   the checks of diagnostics, response metadata, contexts, cookies and error envelopes
--                   that stand in front of and behind validateWire, Payloads/Patterns the regular
--                   expressions, Payloads/Capabilities the check of capabilities and resolveProfile. Headers
--                   has headersFrom for a list of pairs.
--   Wire            generated/compiled-validators.js and generated/validators.ts. Value has JavaScript
--                   values, Checks the patterns that the generated code repeats, with its counting of
--                   errors and its early returns, Validators the functions validate10 to validate43 and
--                   validateWire, Schema and Contracts an independent reading of the JSON schemas
--                   (contracts/schemas).
--   Client          client.ts: Assembly has the method buffer, which collects a body in blocks, and the
--                   BufferBudget of concurrency.ts, which it reserves them from. Body has the stream of a
--                   response in executeStream: its variables, `finish`, and pull, cancel and aborts as
--                   events.
--   Service         service.ts: the checks of a partition and a connection, and the errors of the
--                   service. Cache has capabilities() with its cache and the shared promise, as events
--                   (`ask` and `loaded`), Control has control() with readJson().
--   Sessions        sessions.ts: the variables of createSession as a record, its inner functions as
--                   functions on that record and what was sent to the service. Cookies has the
--                   operations of a managed session, Rebind openContext and rebindIdentity, Close close,
--                   Streams stream, Origins normalizedOrigins, Run createSession itself and sequences of
--                   operations.
--   Sync            sync/ipc.ts, sync/worker.ts and sync/index.ts. Ipc has the tests of single values;
--                   Ipc/Config reads a configuration, Ipc/Requests a request, Ipc/Options the options of
--                   a session and of close; Ipc/Codec writes and reads errors, responses and results.
--                   Batch has the totals of a batch in the worker, with the reads of its lanes as events
--                   and the most that the working memory has been as a field of the model (`peak`),
--                   Worker the start of the worker and its message loop, Calls the calls of the client,
--                   whose rounds of waiting are a list of what each of them finds, and Exchange the messages
--                   between the two.
--
-- How they interact: Sync posts messages, which it reads by Ipc, to a worker that calls the client;
-- Sessions calls Service for every control operation and opens and deletes contexts by it; Service
-- checks every answer by Protocol/Payloads, which rests on Wire.
--
-- Machine-width integers: a frame's length field is written and read with 32 bits. A byte is a natural
-- number below 256 where a theorem needs it. Counters and sizes are natural numbers: they are array
-- lengths and counts of live objects, far below 2 ^ 53.
--
-- Fuel: `exact_loop` gets three rounds more than the stream has reads, since every round but the last
-- three takes a read. `drain` is a consumer, whose pulls are its fuel. `append` gets one round more
-- than the chunk has bytes, since every round but the last copies a byte.
--
-- Parameters: what Deadline.error builds is an argument of the steps of Admission, and the reads of a
-- stream or an async iterator are a list of what they give (bytes, another value, a rejection). The
-- answers of the service to a session are a function of the calls before, the parsing of a URL and of
-- JSON and the validity of headers are functions, and whether posting a message to a worker succeeds
-- is a Boolean.
--
-- Not modelled: the texts of errors and their `references`; the error objects of the generated
-- validators, which validateWire drops; FrameReader.cancel and the cancellation of an upload in the
-- middle of a read; the callbacks onChunk and onError; Deadline.race; the options of `close` that it
-- refuses; reservations of the budget that other requests make while a body is collected; of Service
-- the constructor, the headers of its requests and instrumentation; of Sessions the tests of its
-- options and the wrapper for fetch; of Sync the threads and Atomics, what the worker dispatches a
-- command to, and the remote sessions; of client.ts the part of a request before its metadata is
-- accepted, its observers and the cancelling of its upload; fetch.ts and observation.ts; the scripts
-- and tests of the SDK, and the service in Rust.
pub mod Base
pub mod Errors
pub mod Concurrency
pub mod Protocol
pub mod Wire
pub mod Client
pub mod Platform
pub mod Service
pub mod Sessions
pub mod Sync
