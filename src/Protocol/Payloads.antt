-- ===== src/Protocol/Payloads.antt =====
-- packages/typescript/src/protocol.ts: the checks of a value that crosses the wire, in front of and
-- behind validateWire. A JavaScript object has its own properties only.
pub mod Patterns
pub mod Capabilities
pub mod Legacy
pub mod Resolve
pub mod Samples
mod Tests
use ja3proxy.Base.{
  ℕ, Bool, true, false, not, ◌&&◌, ◌||◌, String, str_eq, List, [], ◌∷◌, Option, none, some, ltb,
  leb, ◌==◌, if◌then◌else◌,
}
use ja3proxy.Wire.Value.{
  Value, undefined, null, number, string, array, object, whole, minus, Elements, no_elements,
  element, Entries, no_entries, entry, member, is_undefined, is_null, is_object, is_boolean,
  equals_one, has_string,
}
use ja3proxy.Wire.Validators.{
  WireContractName, capabilities, context_info, cookie_record, cookie_snapshot, diagnostics,
  request_status, response_metadata, transport_error, validate_wire,
}
use Patterns.{
  text_length, opaque, profile_name, hexadecimal, one_line, positive, nonnegative_integer, every,
  has_key, with_entry, header_pairs,
}

-- `record` of protocol.ts.
abbrev pub is_record : Value → Bool
is_record v = is_object v

abbrev pub legacy_trace_id : String
legacy_trace_id = "11111111111111111111111111111111"

abbrev pub legacy_span_id : String
legacy_span_id = "1111111111111111"

-- `{ ...value, ...(!('traceId' in value) ? { traceId } : {}), spanId }`
unfoldable pub supply_trace : Entries → Entries
supply_trace fs =
    with_entry "spanId" (string legacy_span_id)
      (if has_key "traceId" fs then fs else with_entry "traceId" (string legacy_trace_id) fs)

-- schemaDiagnostics
unfoldable pub schema_diagnostics : Value → Value
unfolding supply_trace
schema_diagnostics (object fs) = object (if has_key "spanId" fs then fs else supply_trace fs)
schema_diagnostics v = v

-- `normalized.error = …`
normalize_error : Entries → Value → Entries
unfolding schema_diagnostics
normalize_error fs (object es) =
    with_entry "error"
      (object (with_entry "diagnostics" (schema_diagnostics (member "diagnostics" (object es))) es))
      fs
normalize_error fs _ = fs

abbrev is_request_status : WireContractName → Bool
is_request_status request_status = true
is_request_status _ = false

-- The object that is validated again.
normalized : WireContractName → Entries → Value
unfolding normalize_error
normalized name fs =
    let changed : Entries =
      with_entry "diagnostics" (schema_diagnostics (member "diagnostics" (object fs))) fs in
    object (
      if is_request_status name
      then normalize_error changed (member "error" (object fs))
      else changed)

retry_envelope : WireContractName → Value → Bool
unfolding normalized
retry_envelope name (object fs) =
    is_record (member "diagnostics" (object fs)) && validate_wire name (normalized name fs)
retry_envelope name _ = false

-- validateDiagnosticEnvelope
unfoldable pub validate_diagnostic_envelope : WireContractName → Value → Bool
unfolding retry_envelope
validate_diagnostic_envelope name v = validate_wire name v || retry_envelope name v

abbrev pub is_profile : Value → Bool
is_profile (string s) = profile_name s
is_profile _ = false

-- An optional field: `value === undefined || test(value)`.
abbrev pub optionally : (Value → Bool) → Value → Bool
optionally test v = is_undefined v || test v

abbrev pub hex_field : ℕ → Value → Bool
hex_field n (string s) = hexadecimal n s
hex_field n _ = false

-- `wanted === undefined || value === wanted`
abbrev pub wanted_text : Option String → Value → Bool
wanted_text none v = true
wanted_text (some s) v = equals_one (s ∷ []) v

abbrev pub wanted_number : Option ℕ → Value → Bool
wanted_number none v = true
wanted_number (some n) (number (whole m)) = n == m
wanted_number (some n) (number (minus m)) = n == 0 && m == 0
wanted_number (some n) _ = false

tls_profile_field : Value → Value → Bool
tls_profile_field (string s) delivery =
    if str_eq s "" then equals_one ("not_started" ∷ []) delivery else profile_name s
tls_profile_field _ delivery = false

trace_fields : Value → Value → Bool
trace_fields trace span =
    if is_undefined trace
    then is_undefined span
    else hex_field 32 trace && optionally (hex_field 16) span

-- `diagnostics(value, requestId, attempt)`
unfoldable pub valid_diagnostics : Value → Option String → Option ℕ → Bool
unfolding tls_profile_field trace_fields
valid_diagnostics v request_id attempt =
    is_record v
    && validate_wire diagnostics (schema_diagnostics v)
    && opaque (member "requestId" v)
    && wanted_text request_id (member "requestId" v)
    && wanted_number attempt (member "attempt" v)
    && tls_profile_field (member "tlsProfile" v) (member "delivery" v)
    && trace_fields (member "traceId" v) (member "spanId" v)
    && optionally opaque (member "contextId" v)
    && optionally is_boolean (member "clientReused" v)
    && optionally nonnegative_integer (member "cookieRevision" v)

-- `typeof v === 'number' && v >= 200 && v <= 599`; the contract admits integers only.
abbrev status_field : Value → Bool
status_field (number (whole n)) = leb 200 n && leb n 599
status_field _ = false

-- responseMetadata
unfoldable pub valid_response_metadata : Value → String → ℕ → Bool
unfolding valid_diagnostics
valid_response_metadata v request_id attempt =
    validate_diagnostic_envelope response_metadata v
    && is_record v
    && equals_one (request_id ∷ []) (member "requestId" v)
    && status_field (member "status" v)
    && header_pairs (member "headers" v)
    && valid_diagnostics (member "diagnostics" v) (some request_id) (some attempt)
    && equals_one ("response_started" ∷ []) (member "delivery" (member "diagnostics" v))
    && optionally nonnegative_integer (member "cookieRevision" v)

abbrev pub line_field : Value → Bool
line_field (string s) = one_line s
line_field _ = false

-- contextInfo
unfoldable pub valid_context_info : Value → Bool
valid_context_info v =
    validate_wire context_info v
    && is_record v
    && opaque (member "contextId" v)
    && opaque (member "partition" v)
    && is_record (member "identity" v)
    && is_profile (member "tlsProfile" (member "identity" v))
    && optionally line_field (member "userAgent" (member "identity" v))

cookie : Value → Bool
cookie v =
    validate_wire cookie_record v
    && is_record v
    && not (is_null (member "sameSite" v))
    && not (is_null (member "expiresAtMs" v))

-- cookieRecords
unfoldable pub valid_cookie_records : Value → Bool
unfolding cookie
valid_cookie_records (array cookies) = every cookie cookies
valid_cookie_records _ = false

abbrev partition_key : Value → Bool
partition_key (string s) = ltb 0 (text_length s) && leb (text_length s) 2048
partition_key _ = false

-- cookieSnapshot
unfoldable pub valid_cookie_snapshot : Value → Bool
valid_cookie_snapshot v =
    validate_wire cookie_snapshot v
    && is_record v
    && partition_key (member "partitionKey" v)
    && valid_cookie_records (member "cookies" v)
