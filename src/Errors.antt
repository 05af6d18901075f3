-- ===== src/Errors.antt =====
-- packages/typescript/src/errors.ts, with the types of types.ts that it uses. The messages,
-- `references` and the freezing of the error object are left out. A number of milliseconds or bytes
-- is a natural number.
pub mod Names
pub mod Encoding
use ja3proxy.Base.{ℕ, Bool, false, String, Option, none, some}

-- ERROR_CODES
pub data Code : Type 0 where
  unauthorized invalid_request unsupported_capability invalid_profile egress_required : Code
  ssrf_blocked body_too_large busy timeout cancelled dns_error proxy_error tls_error : Code
  connect_error protocol_error context_not_found context_conflict context_limit : Code
  cookie_limit duplicate_request unknown : Code

-- Ja3ProxyFailureKind; `unknown` is `unknown_kind`.
pub data Kind : Type 0 where
  proxy_unreachable service_unavailable connection_lost unknown_kind client_closed : Kind
  queue_full buffer_limit invalid_input worker_unavailable : Kind

pub data Phase : Type 0 where
  preparing queued upstream body complete : Phase

pub data Delivery : Type 0 where
  not_started possibly_sent response_started : Delivery

pub record Diagnostics : Type 0 where
  pub request_id : String
  pub attempt : ℕ
  pub phase : Phase
  pub delivery : Delivery
  pub queue_ms : ℕ
  pub headers_ms : Option ℕ
  pub body_ms : Option ℕ
  pub total_ms : ℕ
  pub request_bytes : ℕ
  pub response_bytes : ℕ
  pub tls_profile : String
  pub trace_id : Option String
  pub span_id : Option String
  pub client_reused : Option Bool
  pub context_id : Option String
  pub cookie_revision : Option ℕ

-- Ja3ProxyTransportError
pub record TransportError : Type 0 where
  pub code : Code
  pub kind : Kind
  pub diagnostics : Diagnostics
  pub delivery : Delivery
  pub used_proxy : Bool

-- The `kind` that the constructor derives when none is given.
abbrev pub default_kind : Code → Delivery → Kind
default_kind proxy_error _ = proxy_unreachable
default_kind _ response_started = connection_lost
default_kind _ _ = unknown_kind

unfoldable pub transport_error : Code → Diagnostics → Bool → Option Kind → TransportError
transport_error c diag used k = record {
  code = c;
  kind = elim k [ none ↦ default_kind c diag.delivery | some given ↦ given ];
  diagnostics = diag;
  delivery = diag.delivery;
  used_proxy = used;
}

-- initialDiagnostics() without arguments.
abbrev pub initial_diagnostics : Diagnostics
initial_diagnostics = record {
  request_id = "local";
  attempt = 0;
  phase = preparing;
  delivery = not_started;
  queue_ms = 0;
  headers_ms = none;
  body_ms = none;
  total_ms = 0;
  request_bytes = 0;
  response_bytes = 0;
  tls_profile = "unknown";
  trace_id = none;
  span_id = none;
  client_reused = none;
  context_id = none;
  cookie_revision = none;
}

unfoldable pub local_error : Code → Option Kind → TransportError
unfolding transport_error
local_error c k = transport_error c initial_diagnostics false k

-- What a `catch` binds: an SDK error, or any other thrown value.
pub data Thrown : Type 0 where
  sdk : TransportError → Thrown
  foreign : Thrown

unfoldable pub safe_error : Thrown → Diagnostics → Bool → TransportError
unfolding transport_error
safe_error (sdk e) fallback used = e
safe_error foreign fallback used = transport_error unknown fallback used none

-- What an awaited call gives: a value, or the error that it throws.
pub data Outcome {ℓ} (A : Type ℓ) : Type ℓ where
  returned : A → Outcome A
  threw : TransportError → Outcome A
