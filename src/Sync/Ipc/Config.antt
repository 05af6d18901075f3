-- ===== src/Sync/Ipc/Config.antt =====
-- packages/typescript/src/sync/ipc.ts: config.
pub mod Bounds
mod Tests
use ja3proxy.Base.{
  ℕ, ◌*◌, ◌/◌, Bool, true, false, String, List, [], ◌∷◌, Option, none, some, ◌==◌, if◌then◌else◌,
}
use ja3proxy.Platform.{Url}
use ja3proxy.Errors.{Outcome, returned, threw}
use ja3proxy.Wire.Value.{Value, number, object, whole, minus, Entries, member, lookup, is_undefined}
use ja3proxy.Protocol.Payloads.Patterns.{max_safe_integer}
use ja3proxy.Sync.{◌>>=◌, ◌>>◌}
use ja3proxy.Sync.Ipc.{
  object_of, keys, text, integer, optional_integer, url, max_timeout_ms, invalid,
}

-- ClientOptions.limits, as far as given.
pub record ClientLimits : Type 0 where
  pub max_concurrent : Option ℕ
  pub max_concurrent_per_partition : Option ℕ
  pub max_queued : Option ℕ
  pub max_queued_per_partition : Option ℕ
  pub max_buffered_bytes : Option ℕ

pub record ClientOptions : Type 0 where
  pub base_url : String
  pub token : String
  pub control_timeout_ms : Option ℕ
  pub default_timeout_ms : Option ℕ
  pub max_response_bytes : Option ℕ
  pub capabilities_ttl_ms : Option ℕ
  pub limits : Option ClientLimits

pub record BridgeConfig : Type 0 where
  pub client : ClientOptions
  pub startup_timeout_ms : ℕ
  pub operation_timeout_ms : ℕ
  pub max_request_bytes : ℕ
  pub max_batch_requests : ℕ
  pub max_batch_bytes : ℕ
  pub max_batch_concurrency : ℕ

-- `v === 0`, also of minus zero.
abbrev is_zero : Value → Bool
is_zero (number (whole n)) = n == 0
is_zero (number (minus n)) = n == 0
is_zero _ = false

-- A field that may be zero.
pub optional_count : Value → ℕ → Outcome (Option ℕ)
optional_count v maximum = if is_zero v then returned (some 0) else optional_integer v maximum

some_limits : Entries → Outcome (Option ClientLimits)
unfolding optional_count
some_limits fs = do
  keys fs (
      "maxConcurrent" ∷ "maxConcurrentPerPartition" ∷ "maxQueued" ∷ "maxQueuedPerPartition"
      ∷ "maxBufferedBytes" ∷ [])
  concurrent ← optional_integer (lookup "maxConcurrent" fs) max_safe_integer
  per_partition ← optional_integer (lookup "maxConcurrentPerPartition" fs) max_safe_integer
  queued ← optional_count (lookup "maxQueued" fs) max_safe_integer
  queued_per_partition ← optional_count (lookup "maxQueuedPerPartition" fs) max_safe_integer
  buffered ← optional_integer (lookup "maxBufferedBytes" fs) max_safe_integer
  returned (
      some (record {
        max_concurrent = concurrent;
        max_concurrent_per_partition = per_partition;
        max_queued = queued;
        max_queued_per_partition = queued_per_partition;
        max_buffered_bytes = buffered;
      }))

limits_of : Value → Outcome (Option ClientLimits)
unfolding some_limits
limits_of v = if is_undefined v then returned none else (do fs ← object_of v; some_limits fs)

client_of : (String → Option Url) → Entries → Outcome ClientOptions
unfolding limits_of optional_count
client_of parse fs = do
  base ← url parse (lookup "baseUrl" fs)
  token ← text (lookup "token" fs) 16384
  control ← optional_integer (lookup "controlTimeoutMs" fs) max_timeout_ms
  fallback ← optional_integer (lookup "defaultTimeoutMs" fs) max_timeout_ms
  response ← optional_integer (lookup "maxResponseBytes" fs) max_safe_integer
  ttl ← optional_count (lookup "capabilitiesTtlMs" fs) max_timeout_ms
  limits ← limits_of (lookup "limits" fs)
  returned (record {
    base_url = base;
    token = token;
    control_timeout_ms = control;
    default_timeout_ms = fallback;
    max_response_bytes = response;
    capabilities_ttl_ms = ttl;
    limits = limits;
  })

bridge_of : ClientOptions → Entries → Outcome BridgeConfig
bridge_of client fs = do
  startup ← integer (lookup "startupTimeoutMs" fs) 10000 max_timeout_ms
  operation ← integer (lookup "operationTimeoutMs" fs) 60000 max_timeout_ms
  request ← integer (lookup "maxRequestBytes" fs) 16777216 max_safe_integer
  requests ← integer (lookup "maxBatchRequests" fs) 128 4096
  bytes ← integer (lookup "maxBatchBytes" fs) 16777216 (max_safe_integer / 2)
  concurrency ← integer (lookup "maxBatchConcurrency" fs) 8 64
  returned (record {
    client = client;
    startup_timeout_ms = startup;
    operation_timeout_ms = operation;
    max_request_bytes = request;
    max_batch_requests = requests;
    max_batch_bytes = bytes;
    max_batch_concurrency = concurrency;
  })

-- config
pub config : (String → Option Url) → Value → Outcome BridgeConfig
unfolding client_of bridge_of
config parse v = do
  fs ← object_of v
  keys fs (
      "baseUrl" ∷ "token" ∷ "limits" ∷ "controlTimeoutMs" ∷ "capabilitiesTtlMs" ∷ "defaultTimeoutMs"
      ∷ "maxResponseBytes" ∷ "startupTimeoutMs" ∷ "operationTimeoutMs" ∷ "maxRequestBytes"
      ∷ "maxBatchRequests" ∷ "maxBatchBytes" ∷ "maxBatchConcurrency" ∷ [])
  client ← client_of parse fs
  bridge_of client fs
