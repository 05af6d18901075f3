-- ===== src/Sync/Ipc/Config/Bounds.antt =====
-- The ranges of the numbers that config of packages/typescript/src/sync/ipc.ts returns.
use ja3proxy.Base.{
  ℕ, ◌*◌, ◌/◌, ◌≤◌, ◌≡◌, subst, inl, inr, ◌&&◌, Option, none, some, ltb, leb, arith, Bool-cases,
  String, if◌then◌else◌,
}
use ja3proxy.Platform.{Url}
use ja3proxy.Errors.{Outcome, returned, threw}
use ja3proxy.Wire.Value.{Value, number, whole, Entries, lookup, is_undefined}
use ja3proxy.Protocol.Payloads.Patterns.{max_safe_integer}
use ja3proxy.Sync.{◌>>=◌}
use ja3proxy.Sync.Ipc.{
  object_of, keys, text, integer, positive_up_to, optional_integer, url, max_timeout_ms,
}
use ja3proxy.Sync.Ipc.Config.{
  ClientLimits, ClientOptions, BridgeConfig, optional_count, some_limits, limits_of, client_of,
  bridge_of, config, is_zero,
}

-- What holds of a value that is returned.
abbrev pub Returns : {A : Type 0} → (A → Type 0) → Outcome A → Type 0
Returns P (returned a) = P a
Returns P (threw e) = Unit {0}

-- The call of `Returns` waits on the outcome, so this record shows what it is about.
pub record Yields {A : Type 0} (P : A → Type 0) (m : Outcome A) : Type 0 where
  pub holds : Returns P m

bound-Returns :
    {A B : Type 0} (P : A → Type 0) (Q : B → Type 0) (m : Outcome A) (f : A → Outcome B)
    → Returns P m
    → ((a : A) → P a → Yields Q (f a))
    → Returns Q (m >>= f)
bound-Returns P Q (returned a) f h k = (k a h).holds
bound-Returns P Q (threw e) f h k = tt

pub bind-Yields :
    {A B : Type 0} {P : A → Type 0} {Q : B → Type 0} {m : Outcome A} (f : A → Outcome B)
    → Yields P m
    → ((a : A) → P a → Yields Q (f a))
    → Yields Q (m >>= f)
bind-Yields {P} {Q} {m} f h k = record { holds = bound-Returns P Q m f h.holds k }

pub give-Yields : {A : Type 0} {P : A → Type 0} {a : A} → P a → Yields P (returned a)
give-Yields p = record { holds = p }

abbrev pub InRange : ℕ → ℕ → ℕ → Type 0
InRange low high n = (low ≤ n) × (n ≤ high)

abbrev pub OptionalRange : ℕ → ℕ → Option ℕ → Type 0
OptionalRange low high none = Unit {0}
OptionalRange low high (some n) = InRange low high n

pub record LimitRanges (l : ClientLimits) : Type 0 where
  pub concurrent : OptionalRange 1 max_safe_integer l.max_concurrent
  pub per_partition : OptionalRange 1 max_safe_integer l.max_concurrent_per_partition
  pub queued : OptionalRange 0 max_safe_integer l.max_queued
  pub queued_per_partition : OptionalRange 0 max_safe_integer l.max_queued_per_partition
  pub buffered : OptionalRange 1 max_safe_integer l.max_buffered_bytes

abbrev pub AllLimits : Option ClientLimits → Type 0
AllLimits none = Unit {0}
AllLimits (some l) = LimitRanges l

pub record ClientRanges (o : ClientOptions) : Type 0 where
  pub control : OptionalRange 1 max_timeout_ms o.control_timeout_ms
  pub fallback : OptionalRange 1 max_timeout_ms o.default_timeout_ms
  pub response : OptionalRange 1 max_safe_integer o.max_response_bytes
  pub ttl : OptionalRange 0 max_timeout_ms o.capabilities_ttl_ms
  pub limits : AllLimits o.limits

pub record Ranges (c : BridgeConfig) : Type 0 where
  pub client : ClientRanges c.client
  pub startup : InRange 1 max_timeout_ms c.startup_timeout_ms
  pub operation : InRange 1 max_timeout_ms c.operation_timeout_ms
  pub request : InRange 1 max_safe_integer c.max_request_bytes
  pub requests : InRange 1 4096 c.max_batch_requests
  pub bytes : InRange 1 (max_safe_integer / 2) c.max_batch_bytes
  pub concurrency : InRange 1 64 c.max_batch_concurrency
  -- Twice the bytes of a batch is still a safe integer.
  pub working : 2 * c.max_batch_bytes ≤ max_safe_integer

weaken-Returns :
    {A : Type 0} (P Q : A → Type 0) (o : Outcome A)
    → ((a : A) → P a → Q a)
    → Returns P o
    → Returns Q o
weaken-Returns P Q (returned a) k h = k a h
weaken-Returns P Q (threw e) k h = tt

positive_range : (maximum : ℕ) (v : Value) → Returns (InRange 1 maximum) (positive_up_to maximum v)
unfolding positive_up_to
positive_range maximum (number (whole n)) =
    elim (Bool-cases (leb n max_safe_integer && ltb 0 n && leb n maximum)) [
      | inl fits ↦ rw fits (ground (arith, fits))
      | inr other ↦ rw other tt
    ]
positive_range maximum _ = tt

pub integer-InRange :
    (v : Value) (fallback maximum : ℕ) → Yields (InRange 1 maximum) (integer v fallback maximum)
unfolding integer
integer-InRange v fallback maximum = record {
  holds = positive_range maximum (if is_undefined v then number (whole fallback) else v);
}

weaken-Yields :
    {A : Type 0} {P : A → Type 0} (Q : A → Type 0) {m : Outcome A}
    → ((a : A) → P a → Q a)
    → Yields P m
    → Yields Q m
weaken-Yields {P} Q {m} k h = record { holds = weaken-Returns P Q m k h.holds }

pub anything : {A : Type 0} (o : Outcome A) → Yields (λ a. Unit {0}) o
anything (returned a) = record { holds = tt }
anything (threw e) = record { holds = tt }

pub optional_integer-Range :
    (v : Value) (maximum : ℕ) → Yields (OptionalRange 1 maximum) (optional_integer v maximum)
unfolding optional_integer
optional_integer-Range v maximum = elim (Bool-cases (is_undefined v)) [
  | inl absent ↦ rw absent (give-Yields tt)
  | inr given ↦ rw given (bind-Yields _ (integer-InRange v 1 maximum) λ n h. record { holds = h })
]

widened : (maximum : ℕ) (o : Option ℕ) → OptionalRange 1 maximum o → OptionalRange 0 maximum o
widened maximum none h = tt
widened maximum (some n) h = (omega arith, h.1)

optional_count-Range :
    (v : Value) (maximum : ℕ) → Yields (OptionalRange 0 maximum) (optional_count v maximum)
unfolding optional_count
optional_count-Range v maximum = elim (Bool-cases (is_zero v)) [
  | inl zero ↦ rw zero (record { holds = omega arith })
  | inr other ↦ rw other (weaken-Yields _ (widened maximum) (optional_integer-Range v maximum))
]

some_limits-Ranges : (fs : Entries) → Yields AllLimits (some_limits fs)
unfolding some_limits
some_limits-Ranges fs = bind-Yields _ (anything (keys fs _)) λ t u.
    bind-Yields _ (optional_integer-Range (lookup "maxConcurrent" fs) max_safe_integer) λ a ha.
      bind-Yields _
        (optional_integer-Range (lookup "maxConcurrentPerPartition" fs) max_safe_integer)
        λ b hb.
          bind-Yields _ (optional_count-Range (lookup "maxQueued" fs) max_safe_integer) λ c hc.
            bind-Yields _
              (optional_count-Range (lookup "maxQueuedPerPartition" fs) max_safe_integer)
              λ d hd.
                bind-Yields _
                  (optional_integer-Range (lookup "maxBufferedBytes" fs) max_safe_integer)
                  λ e he. record {
                    holds = record {
                      concurrent = ha;
                      per_partition = hb;
                      queued = hc;
                      queued_per_partition = hd;
                      buffered = he;
                    };
                  }

limits_of-Ranges : (v : Value) → Yields AllLimits (limits_of v)
unfolding limits_of
limits_of-Ranges v = elim (Bool-cases (is_undefined v)) [
  | inl absent ↦ rw absent (record { holds = tt })
  | inr given ↦ rw given (bind-Yields _ (anything (object_of v)) λ fs u. some_limits-Ranges fs)
]

client_of-Ranges :
    (parse : String → Option Url) (fs : Entries) → Yields ClientRanges (client_of parse fs)
unfolding client_of
client_of-Ranges parse fs = bind-Yields _ (anything (url parse (lookup "baseUrl" fs))) λ base u.
    bind-Yields _ (anything (text (lookup "token" fs) 16384)) λ token u.
      bind-Yields _ (optional_integer-Range (lookup "controlTimeoutMs" fs) max_timeout_ms) λ a ha.
        bind-Yields _ (optional_integer-Range (lookup "defaultTimeoutMs" fs) max_timeout_ms) λ b hb.
          bind-Yields _ (optional_integer-Range (lookup "maxResponseBytes" fs) max_safe_integer)
            λ c hc.
              bind-Yields _ (optional_count-Range (lookup "capabilitiesTtlMs" fs) max_timeout_ms)
                λ d hd. bind-Yields _ (limits_of-Ranges (lookup "limits" fs)) λ l hl. record {
                  holds = record {
                    control = ha;
                    fallback = hb;
                    response = hc;
                    ttl = hd;
                    limits = hl;
                  };
                }

bridge_of-Ranges :
    (client : ClientOptions) (fs : Entries)
    → ClientRanges client
    → Yields Ranges (bridge_of client fs)
unfolding bridge_of
bridge_of-Ranges client fs held =
    bind-Yields _ (integer-InRange (lookup "startupTimeoutMs" fs) 10000 max_timeout_ms) λ a ha.
      bind-Yields _ (integer-InRange (lookup "operationTimeoutMs" fs) 60000 max_timeout_ms) λ b hb.
        bind-Yields _ (integer-InRange (lookup "maxRequestBytes" fs) 16777216 max_safe_integer)
          λ c hc. bind-Yields _ (integer-InRange (lookup "maxBatchRequests" fs) 128 4096) λ d hd.
            bind-Yields _
              (integer-InRange (lookup "maxBatchBytes" fs) 16777216 (max_safe_integer / 2))
              λ e he. bind-Yields _ (integer-InRange (lookup "maxBatchConcurrency" fs) 8 64) λ f hf.
                record {
                  holds = record {
                    client = held;
                    startup = ha;
                    operation = hb;
                    request = hc;
                    requests = hd;
                    bytes = he;
                    concurrency = hf;
                    working = omega (arith, he.1);
                  };
                }

-- Every number in a configuration that `config` returns lies in its range: timeouts fit a timer of
-- 2 ^ 31 - 1 milliseconds, counts and sizes are safe integers and positive where zero makes no sense,
-- and the working memory of a batch, twice its bytes, is a safe integer too.
pub config-Ranges :
    (parse : String → Option Url) (v : Value) {c : BridgeConfig}
    → config parse v ≡ returned c
    → Ranges c
unfolding config
config-Ranges parse v {c} h =
    let held : Yields Ranges (config parse v) = bind-Yields _ (anything (object_of v)) λ fs u.
      bind-Yields _ (anything (keys fs _)) λ t u.
        bind-Yields _ (client_of-Ranges parse fs) λ client ok. bridge_of-Ranges client fs ok in
    subst (Returns Ranges) h held.holds
