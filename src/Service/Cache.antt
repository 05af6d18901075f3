-- ===== src/Service/Cache.antt =====
-- packages/typescript/src/service.ts: capabilities() and its cache. `loading` is the shared promise
-- of one control call, whose answer is the event `loaded`; time is a number of milliseconds.
pub mod Fresh
pub mod Flight
mod Tests
use ja3proxy.Base.{
  ℕ, ◌+◌, Bool, true, false, ◌&&◌, String, List, [], ◌∷◌, Option, none, some, ltb, min,
  if◌then◌else◌,
}
use ja3proxy.Errors.{Code, TransportError, Outcome, returned, threw, local_error}
use ja3proxy.Errors.Encoding.{as_number}
use ja3proxy.Wire.Value.{Value, object, array, Entries, no_entries, entry, member}
use ja3proxy.Protocol.Payloads.Capabilities.{valid_capabilities}

pub record Cached : Type 0 where
  pub expires : ℕ
  pub value : Value

pub record Service : Type 0 where
  pub ttl_ms : ℕ
  pub control_limit : ℕ
  pub cached : Option Cached
  pub loading : Bool

-- CONTROL_LIMIT
abbrev pub default_control_limit : ℕ
default_control_limit = 1048576

pub create : ℕ → Service
create ttl = record {
  ttl_ms = ttl;
  control_limit = default_control_limit;
  cached = none;
  loading = false;
}

-- `{ a: value.a, b: value.b, … }`
pub pick : List String → Value → Entries
pick [] v = no_entries
pick (key ∷ keys) v = entry key (member key v) (pick keys v)

abbrev limit_names : List String
limit_names =
    "maxRequestBytes" ∷ "maxResponseBytes" ∷ "maxTimeoutMs" ∷ "maxControlBytes" ∷ "maxHeaders"
    ∷ "maxHeaderBytes" ∷ "maxConcurrent" ∷ "maxConcurrentPerPartition" ∷ "maxQueued"
    ∷ "maxQueuedPerPartition" ∷ "maxContexts" ∷ "maxContextsPerPartition" ∷ "contextIdleTtlMs"
    ∷ "contextMaxIdleTtlMs" ∷ "contextMaxAgeMs" ∷ "maxCookies" ∷ "maxCookieBytes" ∷ "maxEnvelopes"
    ∷ "envelopeTimeoutMs" ∷ "maxCookieSize" ∷ "maxAllowedOrigins" ∷ "registryCapacity"
    ∷ "registryTtlMs" ∷ []

-- copyCapabilities; the copies of arrays and of their items have the same items.
pub copy_capabilities : Value → Value
unfolding pick
copy_capabilities v = object (
    entry "service" (member "service" v) (
      entry "build" (member "build" v) (
        entry "profiles" (member "profiles" v) (
          entry "headerDescriptors" (member "headerDescriptors" v) (
            entry "profileAliases" (member "profileAliases" v) (
              entry "framing"
                (object (
                  pick
                    ("contentType" ∷ "maxMetadataBytes" ∷ "maxDataBytes" ∷ "maxUploadFrames" ∷ [])
                    (member "framing" v)))
                (entry "modes"
                  (object
                    (pick ("egress" ∷ "cookies" ∷ "stream" ∷ "cancel" ∷ []) (member "modes" v)))
                  (entry "limits" (object (pick limit_names (member "limits" v))) no_entries))))))))

-- What a call of capabilities() comes to: a cached value, or a wait for the shared promise, whose
-- control call it starts if there is none.
pub data Asked : Type 0 where
  answered : Value → Asked
  joined started : Asked
  refused : TransportError → Asked

load : Service → Service × Asked
load s = if s.loading then (s, joined) else (record s { loading = true }, started)

ask_cached : ℕ → Service → Option Cached → Service × Asked
unfolding load
ask_cached now s none = load s
ask_cached now s (some c) = if ltb now c.expires then (s, answered c.value) else load s

-- capabilities(); the first argument is what assertOpen or an aborted signal throws.
pub ask : Option TransportError → ℕ → Service → Service × Asked
unfolding ask_cached
ask (some error) now s = (s, refused error)
ask none now s = ask_cached now s s.cached

accept : ℕ → Value → Service → Service × Outcome Value
accept now raw s =
    if valid_capabilities raw
    then (
      record s {
        control_limit =
            min default_control_limit (as_number (member "maxControlBytes" (member "limits" raw)));
        cached = some (record { expires = now + s.ttl_ms; value = copy_capabilities raw });
        loading = false;
      },
      returned (copy_capabilities raw),
    )
    else (record s { loading = false }, threw (local_error Code.unsupported_capability none))

-- The callbacks of the control call, with what the shared promise settles to.
pub loaded : ℕ → Outcome Value → Service → Service × Outcome Value
unfolding accept
loaded now (returned raw) s = accept now raw s
loaded now (threw e) s = (record s { loading = false }, threw e)

-- close(); the Lifetime behind it is not repeated here.
pub close : Service → Service
close s = record s { cached = none }

-- `answer` is an event of a control call that is under way.
pub data Event : Type 0 where
  call : Option TransportError → ℕ → Event
  answer : ℕ → Outcome Value → Event
  shut : Event

pub step : Event → Service → Service
unfolding ask loaded close
step (call refusal now) s = (ask refusal now s).0
step (answer now reply) s = if s.loading then (loaded now reply s).0 else s
step shut s = close s

-- The latest event stands first.
pub run : List Event → Service → Service
unfolding step
run [] s = s
run (e ∷ es) s = step e (run es s)

pub is_started : Asked → Bool
is_started started = true
is_started _ = false
