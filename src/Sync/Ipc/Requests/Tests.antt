-- ===== src/Sync/Ipc/Requests/Tests.antt =====
-- Requests that packages/typescript/src/sync/ipc.ts accepts and refuses, and the theorem at one.
use ja3proxy.Base.{◌≡◌, refl, Bool, true, some, none, String, Option, [], ◌∷◌}
use ja3proxy.Platform.{Url}
use ja3proxy.Errors.{Code, Kind, returned, threw, local_error}
use ja3proxy.Wire.Value.{
  Value, Entries, null, number, whole, string, array, object, no_elements, element, no_entries,
  entry, lookup,
}
use ja3proxy.Protocol.Payloads.Patterns.{nonnegative_integer}
use ja3proxy.Sync.Ipc.{
  object_of, keys, only, text, optional_text, integer, positive_up_to, optional_integer, url,
  web_url, invalid,
}
use ja3proxy.Sync.Ipc.Requests.{
  Pairs, absent, other_body, text_body, Request, within, request, session_request, rest_of,
  target_of, connection, headers, all_pairs, pairs_of, pair_of, limited, pair_bytes, body_of,
  body_bytes, attempt_of,
}
use ja3proxy.Sync.Ipc.Requests.Limits.{IsBounded, request-IsBounded}

abbrev parse : String → Option Url
parse s = some (record {
  href = s;
  origin = s;
  protocol = "https";
  username = "";
  password = "";
  hostname = "h";
  pathname = "/";
  search = "";
  hash = "";
})

abbrev any_headers : Pairs → Bool
any_headers ps = true

abbrev fields : Entries → Value
fields rest = object (
    entry "url" (string "https://h/") (
      entry "method" (string "GET") (
        entry "partition" (string "p") (
          entry "headers"
            (array (
              element (array (element (string "a") (element (string "b") no_elements)))
                no_elements))
            rest))))

abbrev accepted_request : Request
accepted_request = record {
  common = record {
    url = "https://h/";
    method = "GET";
    headers = some (("a", "b") ∷ []);
    body = text_body "xyz";
    timeout_ms = some 5;
    max_response_bytes = none;
    attempt = none;
    request_id = none;
  };
  partition = "p";
  target = within "c";
}

runs : Unit {0}
unfolding request session_request rest_of target_of connection headers all_pairs pairs_of pair_of
    limited pair_bytes body_of body_bytes attempt_of object_of keys only text optional_text integer
    positive_up_to optional_integer url web_url lookup nonnegative_integer
runs = tt

accepts :
    request parse any_headers
      (fields (entry "contextId" (string "c") (entry "timeoutMs" (number (whole 5)) no_entries)))
      (text_body "xyz")
      3
    ≡ returned accepted_request
unfolding runs
accepts = refl

refuses :
    (request parse any_headers (fields no_entries) absent 3 ≡ invalid)
    × (request parse any_headers (fields (entry "contextId" (string "c") no_entries)) other_body 3
        ≡ invalid)
    × (request parse any_headers
          (fields (entry "contextId" (string "c") no_entries))
          (text_body "wxyz")
          3
        ≡ threw (local_error Code.body_too_large (some Kind.buffer_limit)))
    × (request parse any_headers
          (fields (entry "contextId" (string "c") (entry "extra" null no_entries)))
          absent
          3
        ≡ invalid)
unfolding runs
refuses = (refl, refl, refl, refl)

request-IsBounded_example : IsBounded any_headers 3 accepted_request.common
request-IsBounded_example =
    request-IsBounded parse any_headers
      (fields (entry "contextId" (string "c") (entry "timeoutMs" (number (whole 5)) no_entries)))
      (text_body "xyz") 3 accepts
