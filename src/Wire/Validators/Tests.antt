-- ===== src/Wire/Validators/Tests.antt =====
-- Values that contracts accept and refuse, and the theorem at one.
use ja3proxy.Base.{◌≡◌, refl, true, false, String}
use ja3proxy.Wire.Value.{
  Value, undefined, null, boolean, number, string, array, object, whole, minus, fraction,
  no_elements, element, Entries, no_entries, entry, lookup, count_items, item_at,
}
use ja3proxy.Wire.Checks.{
  fault, after, test, both, gated, bounds, string_enum, integer_check, nullable_integer,
  none_missing, property, properties, known_keys, closed, object_check, each_item, each_value,
  array_check, items_check, nullable_array, string_pair, value_check, any_next, any_branches,
  one_next, one_branches, composed, any_check, one_check, outcome, call,
}
use ja3proxy.Wire.Schema.{conforms}
use ja3proxy.Wire.Contracts
use ja3proxy.Wire.Validators.{
  cookie_record, cookie_operation, request_metadata, validate_wire, validators,
}
use ja3proxy.Wire.Validators.Requests.{validate10, validate11}
use ja3proxy.Wire.Validators.Cookies.{validate21, validate30, validate31}
use ja3proxy.Wire.Validators.Operations.{
  validate29, select_check, set_check, export_check, import_check,
}
use ja3proxy.Wire.Validators.Conformance.{validate_wire-conforms}

runs : Unit {0}
unfolding lookup count_items item_at fault after test both gated bounds string_enum integer_check
    nullable_integer none_missing property properties known_keys closed object_check each_item
    each_value array_check items_check nullable_array string_pair value_check any_next any_branches
    one_next one_branches composed any_check one_check outcome call validate_wire validators
    validate10 validate11 validate21 validate30 validate31 validate29 select_check set_check
    export_check import_check
runs = tt

abbrev flags : Entries
flags = entry "secure" (boolean true) (
    entry "httpOnly" (boolean true)
      (entry "hostOnly" (boolean false) (entry "partitioned" (boolean false) no_entries)))

abbrev cookie : Entries → Value
cookie rest = object (
    entry "name" (string "n")
      (entry "value" (string "v") (entry "domain" (string "d") (entry "path" (string "/") rest))))

cookies :
    (validate_wire cookie_record (cookie flags) ≡ true)
    × (validate_wire cookie_record (cookie (entry "sameSite" null flags)) ≡ true)
    × (validate_wire cookie_record (cookie (entry "sameSite" (string "Lax") flags)) ≡ true)
    × (validate_wire cookie_record (cookie (entry "sameSite" (string "lax") flags)) ≡ false)
    × (validate_wire cookie_record (cookie (entry "expiresAtMs" (number (whole 5)) flags)) ≡ true)
    × (validate_wire cookie_record (cookie (entry "expiresAtMs" (number (fraction false 5)) flags))
        ≡ false)
    × (validate_wire cookie_record (cookie (entry "expiresAtMs" (number (minus 1)) flags)) ≡ false)
    × (validate_wire cookie_record
          (cookie (entry "expiresAtMs" (number (whole 9007199254740992)) flags))
        ≡ false)
    × (validate_wire cookie_record (cookie (entry "extra" undefined flags)) ≡ false)
    × (validate_wire cookie_record (cookie no_entries) ≡ false)
unfolding runs
cookies = (refl, refl, refl, refl, refl, refl, refl, refl, refl, refl)

abbrev operation : String → Value
operation name =
    object (entry "operation" (string name) (entry "partition" (string "p") no_entries))

operations :
    (validate_wire cookie_operation (operation "export") ≡ true)
    × (validate_wire cookie_operation (operation "select") ≡ false)
    × (validate_wire cookie_operation (array no_elements) ≡ false)
    × (validators cookie_operation (operation "select") ≡ 5)
unfolding runs
operations = (refl, refl, refl, refl)

abbrev request : Value → Value
request headers = object (
    entry "requestId" (string "r") (
      entry "partition" (string "p") (
        entry "url" (string "u") (
          entry "method" (string "GET") (
            entry "headers" headers (
              entry "hasBody" (boolean false) (
                entry "timeoutMs" (number (whole 1)) (
                  entry "maxResponseBytes" (number (whole 1)) (
                    entry "attempt" (number (whole 0))
                      (entry "headerOrder" (string "caller") no_entries))))))))))

requests :
    (validate_wire request_metadata (request (array no_elements)) ≡ true)
    × (validate_wire request_metadata (
          request (
            array (
              element
                (array (element (string "a") (element (string "b") no_elements)))
                no_elements)))
        ≡ true)
    × (validate_wire request_metadata
          (request (array (element (array (element (string "a") no_elements)) no_elements)))
        ≡ false)
unfolding runs
requests = (refl, refl, refl)

validate_wire-conforms_example :
    validate_wire cookie_operation (operation "export")
    ≡ conforms Contracts.cookie_operation (operation "export")
validate_wire-conforms_example = validate_wire-conforms cookie_operation (operation "export")
