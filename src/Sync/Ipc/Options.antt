-- ===== src/Sync/Ipc/Options.antt =====
-- packages/typescript/src/sync/ipc.ts: sessionOptions, and closeOptions of
-- packages/typescript/src/sync/index.ts.
pub mod Origins
mod Tests
use ja3proxy.Base.{
  ℕ, Bool, true, false, not, ◌&&◌, String, List, [], ◌∷◌, Option, none, some, min, leb,
  if◌then◌else◌,
}
use ja3proxy.Platform.{Url}
use ja3proxy.Errors.{Outcome, returned, threw}
use ja3proxy.Wire.Value.{
  Value, null, undefined, boolean, array, object, Elements, no_elements, element, no_entries,
  lookup, is_undefined, equals_one, count_items,
}
use ja3proxy.Protocol.Payloads.Patterns.{max_safe_integer}
use ja3proxy.Sync.{◌>>=◌, ◌>>◌}
use ja3proxy.Sync.Ipc.{
  object_of, keys, text, integer, optional_integer, url, invalid, reject_unless, max_timeout_ms,
}
use ja3proxy.Sync.Ipc.Requests.{ConnectionSpec, connection}

pub data CookieMode : Type 0 where
  managed : List String → CookieMode
  external : Option (List String) → CookieMode

pub record SessionOptions : Type 0 where
  pub partition : String
  pub connection : ConnectionSpec
  pub cookie_mode : CookieMode
  pub ttl_ms : Option ℕ
  pub timeout_ms : Option ℕ
  pub max_response_bytes : Option ℕ

-- `input.allowedOrigins.map(entry => url(entry))`
pub urls : (String → Option Url) → Elements → Outcome (List String)
urls parse no_elements = returned []
urls parse (element v vs) = do u ← url parse v; us ← urls parse vs; returned (u ∷ us)

pub listed : (String → Option Url) → Value → Outcome (Option (List String))
unfolding urls
listed parse (array vs) = do
  reject_unless (leb (count_items vs) 4096)
  us ← urls parse vs
  returned (some us)
listed parse v = invalid

pub origins_of : (String → Option Url) → Value → Outcome (Option (List String))
unfolding listed
origins_of parse v = if is_undefined v then returned none else listed parse v

abbrev some_origins : Option (List String) → Bool
some_origins (some (o ∷ os)) = true
some_origins _ = false

abbrev the_origins : Option (List String) → List String
the_origins none = []
the_origins (some os) = os

-- The tests of the cookie mode at its end.
pub mode_of : Value → Option (List String) → Outcome CookieMode
mode_of mode origins =
    if equals_one ("managed" ∷ []) mode && some_origins origins
    then returned (managed (the_origins origins))
    else if equals_one ("external" ∷ []) mode
    then returned (external origins)
    else invalid

-- sessionOptions
pub session_options : (String → Option Url) → Value → Outcome SessionOptions
unfolding origins_of mode_of
session_options parse v = do
  fs ← object_of v
  keys fs (
      "partition" ∷ "connection" ∷ "cookieMode" ∷ "allowedOrigins" ∷ "ttlMs" ∷ "timeoutMs"
      ∷ "maxResponseBytes" ∷ [])
  origins ← origins_of parse (lookup "allowedOrigins" fs)
  partition ← text (lookup "partition" fs) 1024
  spec ← connection (lookup "connection" fs)
  ttl ← optional_integer (lookup "ttlMs" fs) max_timeout_ms
  timeout ← optional_integer (lookup "timeoutMs" fs) max_timeout_ms
  maximum ← optional_integer (lookup "maxResponseBytes" fs) max_safe_integer
  mode ← mode_of (lookup "cookieMode" fs) origins
  returned (record {
    partition = partition;
    connection = spec;
    cookie_mode = mode;
    ttl_ms = ttl;
    timeout_ms = timeout;
    max_response_bytes = maximum;
  })

pub record CloseOptions : Type 0 where
  pub drain : Option Bool
  pub timeout_ms : ℕ

drain_of : Value → Outcome (Option Bool)
drain_of undefined = returned none
drain_of (boolean b) = returned (some b)
drain_of v = invalid

-- `value ?? {}`
abbrev or_empty : Value → Value
or_empty undefined = object no_entries
or_empty null = object no_entries
or_empty v = v

-- closeOptions
pub close_options : Value → ℕ → Outcome CloseOptions
unfolding drain_of
close_options v maximum = do
  fs ← object_of (or_empty v)
  keys fs ("drain" ∷ "timeoutMs" ∷ [])
  drain ← drain_of (lookup "drain" fs)
  timeout ← integer (lookup "timeoutMs" fs) maximum max_timeout_ms
  returned (record { drain = drain; timeout_ms = min timeout maximum })
