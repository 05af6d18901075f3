-- ===== src/Service/Tests.antt =====
-- Connections that packages/typescript/src/service.ts accepts and refuses.
use ja3proxy.Base.{◌≡◌, refl, true, false, Option, none, some, String}
use ja3proxy.Platform.{Url}
use ja3proxy.Errors.{returned, threw, Code, transport_error, local_error, Kind}
use ja3proxy.Wire.Value.{Value, null, boolean, string, object, Entries, no_entries, entry, lookup}
use ja3proxy.Protocol.Payloads.Patterns.{every, one_line, profile_name}
use ja3proxy.Protocol.Payloads.Capabilities.{resolve_profile, includes}
use ja3proxy.Protocol.Payloads.Samples.{sample_capabilities}
use ja3proxy.Service.{validate_connection, proxy_mode, diagnostics_of}

abbrev parse_url : String → Option Url
parse_url s = some (record {
  href = s;
  origin = s;
  protocol = s;
  username = "";
  password = "";
  hostname = "h";
  pathname = "/";
  search = "";
  hash = "";
})

abbrev connection : Value → Entries → Value
connection profile egress = object (
    entry "identity"
      (object (entry "tlsProfile" profile (entry "emulateHeaders" (boolean true) no_entries)))
      (entry "egress" (object egress) no_entries))

connections :
    (validate_connection parse_url sample_capabilities
        (connection (string "chrome") (entry "mode" (string "direct") no_entries))
      ≡ returned tt)
    × (validate_connection parse_url sample_capabilities (
          connection
            (string "chrome")
            (entry "mode" (string "proxy") (entry "url" (string "http") no_entries)))
        ≡ returned tt)
    × (validate_connection parse_url sample_capabilities (
          connection
            (string "chrome")
            (entry "mode" (string "proxy") (entry "url" (string "socks5") no_entries)))
        ≡ threw (
            transport_error Code.unsupported_capability
              (diagnostics_of "control" "chrome")
              true
              none))
    × (validate_connection parse_url sample_capabilities
          (connection (string "firefox") (entry "mode" (string "direct") no_entries))
        ≡ threw
            (transport_error Code.invalid_profile (diagnostics_of "control" "firefox") false none))
    × (validate_connection parse_url sample_capabilities null
        ≡ threw (local_error Code.invalid_request (some Kind.invalid_input)))
unfolding validate_connection resolve_profile includes every lookup one_line profile_name proxy_mode
connections = (refl, refl, refl, refl, refl)
