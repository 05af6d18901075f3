-- ===== src/Concurrency/Deadline.antt =====
-- class Deadline of packages/typescript/src/concurrency.ts without `race`: its timer, its parent signal
-- and its own signal, which others abort through `controller`. Times are whole milliseconds; `elapsed`
-- is what `performance.now()` is past `started`.
pub mod Cause
mod Tests
use Prim.Native.Nat.{max}
use ja3proxy.Base.{
  ℕ, ◌-◌, Bool, true, false, ◌&&◌, List, [], ◌∷◌, Option, none, some, ltb, leb, if◌then◌else◌,
}
use ja3proxy.Errors.{Code, timeout, cancelled, Kind, Diagnostics, TransportError, transport_error}

-- The reason of a signal: a DOMException of the name TimeoutError, an SDK error, or anything else.
pub data Reason : Type 0 where
  timeout_error other_reason : Reason
  sdk_error : TransportError → Reason

pub record Deadline : Type 0 where
  pub timed_out : Bool
  pub reason : Option Reason
  pub disposed : Bool

abbrev pub max_timeout_ms : ℕ
max_timeout_ms = 2147483647

-- timeoutValue, which throws where this is false.
pub is_timeout_value : ℕ → Bool
is_timeout_value ms = ltb 0 ms && leb ms max_timeout_ms

abbrev pub is_timeout : Reason → Bool
is_timeout timeout_error = true
is_timeout _ = false

-- `controller.abort`: only the first call has an effect.
abbrev pub abort_with : Reason → Deadline → Deadline
abort_with r d = elim d.reason [ none ↦ record d { reason = some r } | some _ ↦ d ]

-- `onAbort`, the listener of the parent signal, which `dispose` takes away. An SDK error stays the
-- reason; of any other reason but a timeout nothing is kept.
pub on_abort : Reason → Deadline → Deadline
on_abort r d = if d.disposed then d else abort_with r (record d { timed_out = is_timeout r })

-- The timer, which `dispose` clears.
pub on_timer : Deadline → Deadline
on_timer d = if d.disposed then d else abort_with timeout_error (record d { timed_out = true })

abbrev pub waiting : Deadline
waiting = record { timed_out = false; reason = none; disposed = false }

-- The constructor; a parent that is aborted already has a reason.
pub create : ℕ → Option Reason → Option Deadline
unfolding on_abort is_timeout_value
create timeout_ms parent =
    if is_timeout_value timeout_ms
    then some (elim parent [ none ↦ waiting | some r ↦ on_abort r waiting ])
    else none

pub dispose : Deadline → Deadline
dispose d = record d { disposed = true }

pub remaining : ℕ → ℕ → ℕ
remaining timeout_ms elapsed = max 1 (timeout_ms - elapsed)

abbrev pub sdk_kind : Option Reason → Option Kind
sdk_kind (some (sdk_error e)) = some e.kind
sdk_kind _ = none

pub error : Deadline → ℕ → Diagnostics → Bool → TransportError
unfolding transport_error
error d elapsed diag used =
    transport_error (if d.timed_out then timeout else cancelled)
      (record diag { total_ms = elapsed }) used (sdk_kind d.reason)

-- The SDK aborts a `controller` with an SDK error or without a reason.
pub data Event : Type 0 where
  fires disposes : Event
  parent_aborts : Reason → Event
  aborts : Option TransportError → Event

pub step : Event → Deadline → Deadline
unfolding on_timer on_abort dispose
step fires d = on_timer d
step disposes d = dispose d
step (parent_aborts r) d = on_abort r d
step (aborts given) d = abort_with (elim given [ none ↦ other_reason | some e ↦ sdk_error e ]) d

pub run : List Event → Deadline → Deadline
unfolding step
run [] d = d
run (e ∷ es) d = run es (step e d)
