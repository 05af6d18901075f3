-- ===== src/Service.antt =====
-- packages/typescript/src/service.ts: the checks of a partition and of a connection, and the errors
-- that the service reports.
pub mod Control
pub mod Cache
mod Tests
use ja3proxy.Base.{
  ℕ, Bool, true, false, not, ◌&&◌, ◌||◌, String, str_eq, List, [], ◌∷◌, Option, none, some,
  if◌then◌else◌, or_else, is_some,
}
use ja3proxy.Platform.{Url}
use ja3proxy.Errors.{
  Code, Kind, Diagnostics, TransportError, Outcome, returned, threw, initial_diagnostics,
  transport_error, local_error,
}
use ja3proxy.Errors.Names.{read_code}
use ja3proxy.Errors.Encoding.{read_diagnostics}
use ja3proxy.Wire.Value.{
  Value, string, member, is_undefined, is_boolean, equals_one, has_string, is_string,
}
use ja3proxy.Wire.Validators.{transport_error as transport_error_contract}
use ja3proxy.Protocol.Payloads.{
  is_record, valid_diagnostics, validate_diagnostic_envelope, line_field, optionally,
}
use ja3proxy.Protocol.Payloads.Patterns.{opaque, profile_name}
use ja3proxy.Protocol.Payloads.Capabilities.{resolve_profile, includes}

-- `initialDiagnostics(request, 0, profile)`; the request id is one that passes its test.
unfoldable pub diagnostics_of : String → String → Diagnostics
diagnostics_of request profile = record initial_diagnostics {
  request_id = request;
  tls_profile = if profile_name profile then profile else "unknown";
}

abbrev pub control_diagnostics : Diagnostics
control_diagnostics = record initial_diagnostics { request_id = "control" }

-- validatePartition
unfoldable pub validate_partition : Value → Outcome (Unit {0})
validate_partition partition =
    if opaque partition
    then returned tt
    else threw (local_error Code.invalid_request (some Kind.invalid_input))

abbrev pub proxy_schemes : List String
proxy_schemes = "http" ∷ "https" ∷ "socks4" ∷ "socks4a" ∷ "socks5" ∷ "socks5h" ∷ []

-- `new URL(spec.egress.url)` with the tests behind it; `none` is what the `catch` receives.
unfoldable pub proxy_mode : Option Url → Option String
proxy_mode none = none
proxy_mode (some url) =
    if has_string proxy_schemes url.protocol
      && not (str_eq url.hostname "")
      && str_eq url.hash ""
      && str_eq url.search ""
    then some url.protocol
    else none

-- `new URL(value)` of a value that is no string fails.
abbrev pub parse_value : (String → Option Url) → Value → Option Url
parse_value parse (string s) = parse s
parse_value parse _ = none

-- A profile that is no text is reported as an unknown one.
abbrev text_or : String → Value → String
text_or fallback (string s) = s
text_or fallback _ = fallback

check_mode : Value → Diagnostics → Bool → Option String → Outcome (Unit {0})
check_mode caps diag proxied none = threw (transport_error Code.invalid_request diag true none)
check_mode caps diag proxied (some mode) =
    if includes mode (member "egress" (member "modes" caps))
    then returned tt
    else threw (transport_error Code.unsupported_capability diag proxied none)

check_egress : (String → Option Url) → Value → Value → Diagnostics → Outcome (Unit {0})
unfolding check_mode
check_egress parse caps egress diag =
    let mode = member "mode" egress in
    if equals_one ("proxy" ∷ []) mode
    then check_mode caps diag true (proxy_mode (parse_value parse (member "url" egress)))
    else if equals_one ("direct" ∷ []) mode
    then check_mode caps diag false (some "direct")
    else threw (transport_error Code.egress_required diag false none)

known_profile : Value → Value → Bool
known_profile caps (string s) = is_some (resolve_profile caps s)
known_profile caps _ = false

check_identity : (String → Option Url) → Value → Value → Value → Outcome (Unit {0})
unfolding known_profile check_egress
check_identity parse caps identity egress =
    let profile = member "tlsProfile" identity in
    let diag : Diagnostics = diagnostics_of "control" (text_or "" profile) in
    if not (known_profile caps profile)
    then threw (
        transport_error Code.invalid_profile diag (equals_one ("proxy" ∷ []) (member "mode" egress))
          none)
    else if not (is_boolean (member "emulateHeaders" identity))
        || not (optionally line_field (member "userAgent" identity))
    then threw (transport_error Code.invalid_request diag false none)
    else check_egress parse caps egress diag

-- validateConnection
unfoldable pub validate_connection : (String → Option Url) → Value → Value → Outcome (Unit {0})
unfolding check_identity
validate_connection parse caps spec =
    if not
      (is_record spec && is_record (member "identity" spec) && is_record (member "egress" spec))
    then threw (local_error Code.invalid_request (some Kind.invalid_input))
    else check_identity parse caps (member "identity" spec) (member "egress" spec)

abbrev code_of : Value → Option Code
code_of (string s) = read_code s
code_of _ = none

-- A fallback for a control call fixes no request.
abbrev wanted_request : Diagnostics → Option String
wanted_request d = if str_eq d.request_id "control" then none else some d.request_id

abbrev wanted_attempt : Diagnostics → Option ℕ
wanted_attempt d = if str_eq d.request_id "control" then none else some d.attempt

report : Value → Diagnostics → Bool → Bool → Option Code → TransportError
report v fallback used required none = transport_error Code.protocol_error fallback used none
report v fallback used required (some code) =
    let diag = member "diagnostics" v in
    if not (is_undefined diag)
      && not (valid_diagnostics diag (wanted_request fallback) (wanted_attempt fallback))
    then transport_error Code.protocol_error fallback used none
    else if required
        && not (valid_diagnostics diag (some fallback.request_id) (some fallback.attempt))
    then transport_error Code.protocol_error fallback used none
    else transport_error code
        (if valid_diagnostics diag none none then read_diagnostics diag else fallback) used none

-- transportError; `required` is its argument requireDiagnostics.
unfoldable pub reported_error : Value → Diagnostics → Bool → Bool → TransportError
unfolding report
reported_error v fallback used required =
    if validate_diagnostic_envelope transport_error_contract v && is_record v
    then report v fallback used required (code_of (member "code" v))
    else transport_error Code.protocol_error fallback used none
