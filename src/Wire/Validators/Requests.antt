-- ===== src/Wire/Validators/Requests.antt =====
-- The functions for requests and contexts of
-- packages/typescript/src/generated/compiled-validators.js, with the number of their errors for a result.
use ja3proxy.Base.{ℕ, ◌||◌, [], ◌∷◌, none, some}
use ja3proxy.Wire.Value.{Value, is_string, is_boolean, is_null}
use ja3proxy.Wire.Checks.{
  returns, counts, test, string_enum, integer_check, nullable_integer, object_check, array_check,
  string_pair, any_check, one_check, outcome, call, max_safe,
}

unfoldable pub validate11 : Value → ℕ
validate11 v = outcome (
    object_check returns ("egress" ∷ "identity" ∷ []) (some ("egress" ∷ "identity" ∷ []))
      ((
        "egress",
        one_check returns (
            object_check counts ("mode" ∷ []) (some ("mode" ∷ []))
              (("mode", string_enum counts ("direct" ∷ [])) ∷ [])
            ∷ object_check counts ("mode" ∷ "url" ∷ []) (some ("mode" ∷ "url" ∷ []))
                (("mode", string_enum counts ("proxy" ∷ [])) ∷ ("url", test counts is_string) ∷ [])
            ∷ []),
      )
        ∷ (
          "identity",
          object_check returns ("tlsProfile" ∷ "emulateHeaders" ∷ [])
              (some ("emulateHeaders" ∷ "tlsProfile" ∷ "userAgent" ∷ []))
              (("emulateHeaders", test returns is_boolean)
                ∷ ("tlsProfile", test returns is_string)
                ∷ ("userAgent", test returns λ v. is_string v || is_null v)
                ∷ []),
        )
        ∷ [])
      v 0)

unfoldable pub validate10 : Value → ℕ
validate10 v = outcome (
    object_check returns
      ("requestId" ∷ "partition" ∷ "url" ∷ "method" ∷ "headers" ∷ "hasBody" ∷ "timeoutMs"
        ∷ "maxResponseBytes" ∷ "attempt" ∷ [])
      (some (
        "attempt" ∷ "bodyLength" ∷ "connection" ∷ "contextId" ∷ "hasBody" ∷ "headerOrder"
        ∷ "headers" ∷ "maxResponseBytes" ∷ "method" ∷ "partition" ∷ "requestId" ∷ "timeoutMs"
        ∷ "url" ∷ []))
      (("attempt", integer_check returns max_safe)
        ∷ ("bodyLength", nullable_integer returns max_safe)
        ∷ ("connection", any_check returns (call validate11 ∷ test counts is_null ∷ []))
        ∷ ("contextId", test returns λ v. is_string v || is_null v)
        ∷ ("hasBody", test returns is_boolean)
        ∷ (
          "headerOrder",
          one_check returns
              (string_enum counts ("caller" ∷ []) ∷ string_enum counts ("browser" ∷ []) ∷ []),
        )
        ∷ ("headers", array_check returns (string_pair returns))
        ∷ ("maxResponseBytes", integer_check returns max_safe)
        ∷ ("method", test returns is_string)
        ∷ ("partition", test returns is_string)
        ∷ ("requestId", test returns is_string)
        ∷ ("timeoutMs", integer_check returns max_safe)
        ∷ ("url", test returns is_string)
        ∷ [])
      v 0)

unfoldable pub validate27 : Value → ℕ
validate27 v = outcome (
    object_check returns ("egress" ∷ "identity" ∷ []) (some ("egress" ∷ "identity" ∷ []))
      ((
        "egress",
        one_check returns (
            object_check counts ("mode" ∷ []) (some ("mode" ∷ []))
              (("mode", string_enum counts ("direct" ∷ [])) ∷ [])
            ∷ object_check counts ("mode" ∷ "url" ∷ []) (some ("mode" ∷ "url" ∷ []))
                (("mode", string_enum counts ("proxy" ∷ [])) ∷ ("url", test counts is_string) ∷ [])
            ∷ []),
      )
        ∷ (
          "identity",
          object_check returns ("tlsProfile" ∷ "emulateHeaders" ∷ [])
              (some ("emulateHeaders" ∷ "tlsProfile" ∷ "userAgent" ∷ []))
              (("emulateHeaders", test returns is_boolean)
                ∷ ("tlsProfile", test returns is_string)
                ∷ ("userAgent", test returns λ v. is_string v || is_null v)
                ∷ []),
        )
        ∷ [])
      v 0)

unfoldable pub validate26 : Value → ℕ
validate26 v = outcome (
    object_check returns ("partition" ∷ "connection" ∷ "cookieMode" ∷ "allowedOrigins" ∷ [])
      (some ("allowedOrigins" ∷ "connection" ∷ "cookieMode" ∷ "partition" ∷ "ttlMs" ∷ []))
      (("allowedOrigins", array_check returns (test returns is_string))
        ∷ ("connection", call validate27)
        ∷ ("cookieMode", string_enum returns ("external" ∷ "managed" ∷ []))
        ∷ ("partition", test returns is_string)
        ∷ ("ttlMs", nullable_integer returns max_safe)
        ∷ [])
      v 0)

unfoldable pub validate20 : Value → ℕ
validate20 v = outcome (
    object_check returns
      ("contextId" ∷ "partition" ∷ "expiresAtMs" ∷ "revision" ∷ "cookieMode" ∷ "identity" ∷ []) none
      (("contextId", test returns is_string)
        ∷ ("cookieMode", string_enum returns ("external" ∷ "managed" ∷ []))
        ∷ ("expiresAtMs", integer_check returns max_safe)
        ∷ (
          "identity",
          object_check returns ("tlsProfile" ∷ "emulateHeaders" ∷ [])
              (some ("emulateHeaders" ∷ "tlsProfile" ∷ "userAgent" ∷ []))
              (("emulateHeaders", test returns is_boolean)
                ∷ ("tlsProfile", test returns is_string)
                ∷ ("userAgent", test returns λ v. is_string v || is_null v)
                ∷ []),
        )
        ∷ ("partition", test returns is_string)
        ∷ ("revision", integer_check returns max_safe)
        ∷ [])
      v 0)
