-- ===== src/Sync/Calls.antt =====
-- packages/typescript/src/sync/index.ts: the calls of class Ja3ProxySyncClient. A call blocks its thread,
-- so no other code runs during one. A look is what a round of the loop of #receive finds: a message,
-- a stopped worker, or neither; when the looks are used up the deadline has passed. `posted` is what was
-- posted to the worker, the latest first.
pub mod Own
pub mod Order
mod Tests
use ja3proxy.Base.{
  ℕ, ◌+◌, Bool, true, false, not, ◌&&◌, ◌||◌, String, List, [], ◌∷◌, Option, none, some, min, ◌==◌,
  or_else, is_some, if◌then◌else◌,
}
use ja3proxy.Errors.{Code, Kind, TransportError, Outcome, returned, threw, local_error}
use ja3proxy.Wire.Value.{Value, null, boolean, number, whole, minus, Entries, lookup}
use ja3proxy.Sync.Ipc.{object_of}
use ja3proxy.Sync.Ipc.Codec.{decode_error, uncertain_error}

-- The operations, by what the client tells apart.
pub data Operation : Type 0 where
  close_client close_session : Operation
  other : String → Operation

pub record Posted : Type 0 where
  pub id : ℕ
  pub operation : Operation
  pub value : Value
  pub timeout_ms : ℕ

pub record SyncClient : Type 0 where
  pub operation_timeout_ms : ℕ
  pub sequence : ℕ
  pub closing : Bool
  pub closed : Bool
  pub cleanup_complete : Bool
  pub failure : Option TransportError
  pub posted : List Posted

-- `stopped` is whether the worker has marked itself as stopped.
pub record Look : Type 0 where
  pub message : Option Value
  pub stopped : Bool

-- The fields of a client whose worker has started.
pub create : ℕ → SyncClient
create timeout = record {
  operation_timeout_ms = timeout;
  sequence = 0;
  closing = false;
  closed = false;
  cleanup_complete = false;
  failure = none;
  posted = [];
}

-- The listeners on the worker's `error` and `exit`.
pub on_error : SyncClient → SyncClient
on_error s = record s { failure = some (or_else s.failure (uncertain_error Code.unknown)) }

pub on_exit : SyncClient → SyncClient
unfolding on_error
on_exit s = if s.closed then s else on_error s

-- `this.#failure = error; this.#release(); throw error`
unfoldable pub break_down : TransportError → SyncClient → Outcome Value × SyncClient
break_down e s = (threw e, record s { failure = some e; closed = true })

abbrev pub is_unavailable : TransportError → Bool
is_unavailable e = elim e.kind [ Kind.worker_unavailable ↦ true | _ ↦ false ]

unfoldable pub refuse : Bool → Outcome TransportError → SyncClient → Outcome Value × SyncClient
unfolding break_down
refuse stopped (threw e) s = (threw e, s)
refuse stopped (returned e) s = if is_unavailable e || stopped then break_down e s else (threw e, s)

abbrev pub is_id : ℕ → Value → Bool
is_id id (number (whole n)) = n == id
is_id id (number (minus n)) = n == 0 && id == 0
is_id id _ = false

-- The tests of `packet.id` and `packet.ok`, and what follows them.
unfoldable pub judge : ℕ → Bool → Entries → Bool → Value → SyncClient → Outcome Value × SyncClient
unfolding refuse break_down
judge id stopped fs true (boolean true) s = (returned (lookup "value" fs), s)
judge id stopped fs true (boolean false) s = refuse stopped (decode_error (lookup "error" fs)) s
judge id stopped fs same ok s = break_down (local_error Code.protocol_error none) s

unfoldable pub receive_packet : ℕ → Bool → Outcome Entries → SyncClient → Outcome Value × SyncClient
unfolding judge
receive_packet id stopped (threw e) s = (threw e, s)
receive_packet id stopped (returned fs) s =
    judge id stopped fs (is_id id (lookup "id" fs)) (lookup "ok" fs) s

-- The failure without an answer, by whether the operation was dispatched.
lost : Code → Bool → TransportError
lost code true = uncertain_error code
lost code false = local_error code (some Kind.worker_unavailable)

-- The loop of #receive.
unfoldable pub receive : Bool → ℕ → List Look → SyncClient → Outcome Value × SyncClient
unfolding break_down receive_packet lost
receive dispatched id [] s = break_down (lost Code.timeout dispatched) s
receive dispatched id (look ∷ looks) s =
    let again = receive dispatched id looks s in
    elim look.message [
      | some v ↦ receive_packet id look.stopped (object_of v) s
      | none ↦
          if is_some s.failure || look.stopped
          then break_down (or_else s.failure (lost Code.unknown dispatched)) s
          else again
    ]

-- `catch (error) { this.#release(); throw error; }`
released : Outcome Value × SyncClient → Outcome Value × SyncClient
released (returned v, s) = (returned v, s)
released (threw e, s) = (threw e, record s { closed = true })

-- The wait of the constructor for the worker's first message.
pub start : List Look → SyncClient → Outcome Value × SyncClient
start looks s = released (receive false 0 looks s)

abbrev pub is_closing : Operation → Bool
is_closing (other name) = false
is_closing _ = true

cancelled : TransportError
cancelled = local_error Code.cancelled (some Kind.client_closed)

-- The message is posted under a new identifier, or posting throws.
unfoldable pub post :
    Bool → Operation → Value → ℕ → List Look → SyncClient → Outcome Value × SyncClient
unfolding receive break_down
post false operation value timeout looks s =
    break_down (local_error Code.unknown (some Kind.worker_unavailable))
      (record s { sequence = s.sequence + 1 })
post true operation value timeout looks s = receive true (s.sequence + 1) looks (record s {
  sequence = s.sequence + 1;
  posted =
      record {
        id = s.sequence + 1;
        operation = operation;
        value = value;
        timeout_ms = min timeout s.operation_timeout_ms;
      }
      ∷ s.posted;
})

-- #call; the first argument is whether posting the message succeeds.
unfoldable pub call :
    Bool → Operation → Value → ℕ → List Look → SyncClient → Outcome Value × SyncClient
unfolding post cancelled
call posts operation value timeout looks s =
    if s.closed
    then (threw (or_else s.failure cancelled), s)
    else if s.closing && not (is_closing operation)
    then (threw cancelled, s)
    else post posts operation value timeout looks s

closed_by : Outcome Value × SyncClient → Outcome (Unit {0}) × SyncClient
closed_by (returned v, s) = (returned tt, record s { cleanup_complete = true; closed = true })
closed_by (threw e, s) = (threw e, s)

-- close, with options that closeOptions has accepted.
pub close : Bool → Value → ℕ → List Look → SyncClient → Outcome (Unit {0}) × SyncClient
unfolding call closed_by
close posts options timeout looks s =
    if s.closed
    then (returned tt, s)
    else closed_by (call posts close_client options timeout looks (record s { closing = true }))
