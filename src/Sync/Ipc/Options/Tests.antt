-- ===== src/Sync/Ipc/Options/Tests.antt =====
-- Options that packages/typescript/src/sync accepts and refuses, and the theorem at some.
use ja3proxy.Base.{◌≡◌, refl, true, some, none, String, Option, [], ◌∷◌}
use ja3proxy.Platform.{Url}
use ja3proxy.Errors.{returned}
use ja3proxy.Wire.Value.{
  Value, boolean, number, whole, string, array, object, Elements, no_elements, element, no_entries,
  entry, lookup, count_items,
}
use ja3proxy.Sync.Ipc.{
  object_of, keys, only, text, optional_text, integer, positive_up_to, optional_integer, url,
  web_url, invalid,
}
use ja3proxy.Sync.Ipc.Requests.{direct, connection, identity, flag, egress_of}
use ja3proxy.Sync.Ipc.Options.{
  managed, SessionOptions, session_options, origins_of, listed, urls, mode_of, close_options,
  drain_of,
}
use ja3proxy.Sync.Ipc.Options.Origins.{IsValid, session_options-IsValid}

abbrev parse : String → Option Url
parse s = some (record {
  href = s;
  origin = s;
  protocol = "https";
  username = "";
  password = "";
  hostname = "h";
  pathname = "/";
  search = "";
  hash = "";
})

abbrev spec : Value
spec = object (
    entry "egress" (object (entry "mode" (string "direct") no_entries)) (
      entry "identity"
        (object
          (entry "tlsProfile" (string "t") (entry "emulateHeaders" (boolean true) no_entries)))
        no_entries))

abbrev fields : Elements → Value
fields origins = object (
    entry "partition" (string "p") (
      entry "connection" spec (
        entry "cookieMode" (string "managed")
          (entry "allowedOrigins" (array origins) (entry "ttlMs" (number (whole 9)) no_entries)))))

abbrev options : SessionOptions
options = record {
  partition = "p";
  connection = record {
    egress = direct;
    identity = record { tls_profile = "t"; emulate_headers = true; user_agent = none };
  };
  cookie_mode = managed ("https://h" ∷ []);
  ttl_ms = some 9;
  timeout_ms = none;
  max_response_bytes = none;
}

runs : Unit {0}
unfolding session_options origins_of listed urls mode_of connection identity flag egress_of
    object_of keys only text optional_text integer positive_up_to optional_integer url web_url
    lookup count_items
runs = tt

accepts :
    session_options parse (fields (element (string "https://h") no_elements)) ≡ returned options
unfolding runs
accepts = refl

-- A session with managed cookies needs an origin.
refuses : session_options parse (fields no_elements) ≡ invalid
unfolding runs
refuses = refl

-- The time to close is at most that of the client's operations.
shortens :
    close_options (object (entry "timeoutMs" (number (whole 900)) no_entries)) 500
    ≡ returned (record { drain = none; timeout_ms = 500 })
unfolding close_options drain_of object_of keys only integer positive_up_to lookup
shortens = refl

session_options-IsValid_example : IsValid parse options
session_options-IsValid_example =
    session_options-IsValid parse (fields (element (string "https://h") no_elements)) accepts
