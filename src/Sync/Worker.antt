-- ===== src/Sync/Worker.antt =====
-- packages/typescript/src/sync/worker.ts: the start of the worker and its message loop, with stop and
-- fatal. What dispatch comes to is an argument of the step that settles it. `accepted` are the
-- identifiers of the commands that were dispatched and `replies` what was posted, the latest first; a
-- port that is closed drops what is posted to it.
pub mod Answers
mod Tests
use ja3proxy.Base.{ℕ, Bool, true, false, not, String, str_eq, List, [], ◌∷◌, if◌then◌else◌}
use ja3proxy.Errors.{Code, TransportError, Outcome, returned, threw}
use ja3proxy.Wire.Value.{Value, null, string, lookup, has_string}
use ja3proxy.Protocol.Payloads.Patterns.{max_safe_integer}
use ja3proxy.Sync.{◌>>=◌}
use ja3proxy.Sync.Ipc.{object_of, integer, invalid}
use ja3proxy.Sync.Ipc.Codec.{uncertain_error}

abbrev pub operations : List String
operations =
    "request" ∷ "tryRequest" ∷ "requestMany" ∷ "capabilities" ∷ "requestStatus" ∷ "cancelRequest"
    ∷ "createSession" ∷ "sessionRequest" ∷ "sessionTryRequest" ∷ "sessionClose" ∷ "getCookies"
    ∷ "setCookies" ∷ "exportCookies" ∷ "importCookies" ∷ "rebindIdentity" ∷ "close" ∷ []

pub record Command : Type 0 where
  pub id : ℕ
  pub timeout_ms : ℕ
  pub operation : String
  pub value : Value

unfoldable pub operation_of : Value → Outcome String
operation_of (string s) = if has_string operations s then returned s else invalid
operation_of v = invalid

-- command; the fallback 0 of `integer` is refused, so a missing number is too.
unfoldable pub command : ℕ → Value → Outcome Command
unfolding operation_of
command operation_timeout v = do
  fs ← object_of v
  operation ← operation_of (lookup "operation" fs)
  id ← integer (lookup "id" fs) 0 max_safe_integer
  timeout ← integer (lookup "timeoutMs" fs) 0 operation_timeout
  returned
      (record { id = id; timeout_ms = timeout; operation = operation; value = lookup "value" fs })

pub record Reply : Type 0 where
  pub id : ℕ
  pub content : Outcome Value

pub record Worker : Type 0 where
  pub active_id : ℕ
  pub stopped : Bool
  pub busy : Bool
  pub closing : Bool
  pub accepted : List ℕ
  pub replies : List Reply

-- reply
unfoldable pub reply : ℕ → Outcome Value → Worker → Worker
reply id content s =
    if s.stopped
    then s
    else record s { replies = record { id = id; content = content } ∷ s.replies }

-- stop
unfoldable pub stop : Worker → Worker
stop s = record s { stopped = true }

-- fatal
pub fatal : Worker → Worker
unfolding reply stop
fatal s = if s.stopped then s else stop (reply s.active_id (threw (uncertain_error Code.unknown)) s)

abbrev pub blank : Worker
blank = record {
  active_id = 0;
  stopped = false;
  busy = false;
  closing = false;
  accepted = [];
  replies = [];
}

-- The start, by whether the configuration is read and the client is built.
pub start : Outcome (Unit {0}) → Worker
unfolding reply stop
start (returned t) = reply 0 (returned null) blank
start (threw e) = stop (reply 0 (threw e) blank)

unfoldable pub take : Outcome Command → Worker → Worker
unfolding fatal
take (threw e) s = fatal s
take (returned c) s = record s {
  busy = true;
  active_id = c.id;
  closing = str_eq c.operation "close";
  accepted = c.id ∷ s.accepted;
}

-- The listener on a message.
unfoldable pub on_message : ℕ → Value → Worker → Worker
unfolding take fatal
on_message operation_timeout v s =
    if s.stopped then s else if s.busy then fatal s else take (command operation_timeout v) s

unfoldable pub answer : Outcome Value → Worker → Worker
unfolding reply stop
answer (threw e) s = reply s.active_id (threw e) s
answer (returned v) s =
    let s' = reply s.active_id (returned v) s in if s.closing then stop s' else s'

-- What follows dispatch; `posts` is whether its value can be cloned into a message.
unfoldable pub on_settled : Bool → Outcome Value → Worker → Worker
unfolding answer fatal
on_settled posts content s =
    if not s.busy
    then s
    else (record (if posts then answer content s else fatal s) { busy = false })
