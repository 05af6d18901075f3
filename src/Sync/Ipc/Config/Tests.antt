-- ===== src/Sync/Ipc/Config/Tests.antt =====
-- A configuration that packages/typescript/src/sync/ipc.ts completes, and some that it refuses.
use ja3proxy.Base.{◌≡◌, refl, some, none, String, Option}
use ja3proxy.Platform.{Url}
use ja3proxy.Errors.{returned}
use ja3proxy.Wire.Value.{Value, Entries, number, whole, string, object, no_entries, entry, lookup}
use ja3proxy.Sync.Ipc.{
  object_of, keys, only, text, integer, positive_up_to, optional_integer, url, web_url, invalid,
}
use ja3proxy.Sync.Ipc.Config.{
  BridgeConfig, config, client_of, bridge_of, limits_of, some_limits, optional_count,
}
use ja3proxy.Sync.Ipc.Config.Bounds.{Ranges, config-Ranges}

abbrev parse : String → Option Url
parse s = some (record {
  href = s;
  origin = s;
  protocol = "https";
  username = "";
  password = "";
  hostname = "h";
  pathname = "/";
  search = "";
  hash = "";
})

abbrev fields : Entries → Value
fields rest = object (entry "baseUrl" (string "https://h/") (entry "token" (string "t") rest))

abbrev completed : BridgeConfig
completed = record {
  client = record {
    base_url = "https://h/";
    token = "t";
    control_timeout_ms = none;
    default_timeout_ms = none;
    max_response_bytes = none;
    capabilities_ttl_ms = some 0;
    limits = none;
  };
  startup_timeout_ms = 10000;
  operation_timeout_ms = 60000;
  max_request_bytes = 16777216;
  max_batch_requests = 128;
  max_batch_bytes = 16777216;
  max_batch_concurrency = 64;
}

accepts :
    config parse (
      fields (
        entry "maxBatchConcurrency"
          (number (whole 64))
          (entry "capabilitiesTtlMs" (number (whole 0)) no_entries)))
    ≡ returned completed
unfolding config client_of bridge_of limits_of some_limits optional_count object_of keys only text
    integer positive_up_to optional_integer url web_url lookup
accepts = refl

refuses :
    (config parse (fields (entry "maxBatchConcurrency" (number (whole 65)) no_entries)) ≡ invalid)
    × (config parse (fields (entry "startupTimeoutMs" (number (whole 0)) no_entries)) ≡ invalid)
    × (config parse (fields (entry "other" (number (whole 1)) no_entries)) ≡ invalid)
unfolding config client_of bridge_of limits_of some_limits optional_count object_of keys only text
    integer positive_up_to optional_integer url web_url lookup
refuses = (refl, refl, refl)

config-Ranges_example : Ranges completed
config-Ranges_example =
    config-Ranges parse
      (fields (
        entry "maxBatchConcurrency" (number (whole 64))
          (entry "capabilitiesTtlMs" (number (whole 0)) no_entries)))
      accepts
