-- ===== src/Wire/Validators/Responses.antt =====
-- The functions for responses, errors and diagnostics of
-- packages/typescript/src/generated/compiled-validators.js, with the number of their errors for a result.
use ja3proxy.Base.{ℕ, ◌||◌, [], ◌∷◌, none}
use ja3proxy.Wire.Value.{Value, is_string, is_boolean, is_null}
use ja3proxy.Wire.Checks.{
  returns, counts, test, string_enum, integer_check, nullable_integer, object_check, array_check,
  string_pair, any_check, outcome, call, max_safe,
}

unfoldable pub validate14 : Value → ℕ
validate14 v = outcome (
    object_check returns
      ("requestId" ∷ "attempt" ∷ "traceId" ∷ "spanId" ∷ "phase" ∷ "delivery" ∷ "queueMs"
        ∷ "headersMs" ∷ "bodyMs" ∷ "totalMs" ∷ "requestBytes" ∷ "responseBytes" ∷ "tlsProfile" ∷ [])
      none
      (("attempt", integer_check returns max_safe)
        ∷ ("bodyMs", nullable_integer returns max_safe)
        ∷ ("clientReused", test returns λ v. is_boolean v || is_null v)
        ∷ ("contextId", test returns λ v. is_string v || is_null v)
        ∷ ("cookieRevision", nullable_integer returns max_safe)
        ∷ (
          "delivery",
          string_enum returns ("not_started" ∷ "possibly_sent" ∷ "response_started" ∷ []),
        )
        ∷ ("headersMs", nullable_integer returns max_safe)
        ∷ (
          "phase",
          string_enum returns ("queued" ∷ "preparing" ∷ "upstream" ∷ "body" ∷ "complete" ∷ []),
        )
        ∷ ("queueMs", integer_check returns max_safe)
        ∷ ("requestBytes", integer_check returns max_safe)
        ∷ ("requestId", test returns is_string)
        ∷ ("responseBytes", integer_check returns max_safe)
        ∷ ("spanId", test returns is_string)
        ∷ ("tlsProfile", test returns is_string)
        ∷ ("totalMs", integer_check returns max_safe)
        ∷ ("traceId", test returns is_string)
        ∷ [])
      v 0)

unfoldable pub validate13 : Value → ℕ
validate13 v = outcome (
    object_check returns ("requestId" ∷ "status" ∷ "headers" ∷ "diagnostics" ∷ []) none
      (("cookieRevision", nullable_integer returns max_safe)
        ∷ ("diagnostics", call validate14)
        ∷ ("headers", array_check returns (string_pair returns))
        ∷ ("requestId", test returns is_string)
        ∷ ("status", integer_check returns 65535)
        ∷ [])
      v 0)

unfoldable pub validate16 : Value → ℕ
validate16 v = outcome (
    object_check returns
      ("requestId" ∷ "attempt" ∷ "traceId" ∷ "spanId" ∷ "phase" ∷ "delivery" ∷ "queueMs"
        ∷ "headersMs" ∷ "bodyMs" ∷ "totalMs" ∷ "requestBytes" ∷ "responseBytes" ∷ "tlsProfile" ∷ [])
      none
      (("attempt", integer_check returns max_safe)
        ∷ ("bodyMs", nullable_integer returns max_safe)
        ∷ ("clientReused", test returns λ v. is_boolean v || is_null v)
        ∷ ("contextId", test returns λ v. is_string v || is_null v)
        ∷ ("cookieRevision", nullable_integer returns max_safe)
        ∷ (
          "delivery",
          string_enum returns ("not_started" ∷ "possibly_sent" ∷ "response_started" ∷ []),
        )
        ∷ ("headersMs", nullable_integer returns max_safe)
        ∷ (
          "phase",
          string_enum returns ("queued" ∷ "preparing" ∷ "upstream" ∷ "body" ∷ "complete" ∷ []),
        )
        ∷ ("queueMs", integer_check returns max_safe)
        ∷ ("requestBytes", integer_check returns max_safe)
        ∷ ("requestId", test returns is_string)
        ∷ ("responseBytes", integer_check returns max_safe)
        ∷ ("spanId", test returns is_string)
        ∷ ("tlsProfile", test returns is_string)
        ∷ ("totalMs", integer_check returns max_safe)
        ∷ ("traceId", test returns is_string)
        ∷ [])
      v 0)

unfoldable pub validate18 : Value → ℕ
validate18 v = outcome (
    object_check returns
      ("requestId" ∷ "attempt" ∷ "traceId" ∷ "spanId" ∷ "phase" ∷ "delivery" ∷ "queueMs"
        ∷ "headersMs" ∷ "bodyMs" ∷ "totalMs" ∷ "requestBytes" ∷ "responseBytes" ∷ "tlsProfile" ∷ [])
      none
      (("attempt", integer_check returns max_safe)
        ∷ ("bodyMs", nullable_integer returns max_safe)
        ∷ ("clientReused", test returns λ v. is_boolean v || is_null v)
        ∷ ("contextId", test returns λ v. is_string v || is_null v)
        ∷ ("cookieRevision", nullable_integer returns max_safe)
        ∷ (
          "delivery",
          string_enum returns ("not_started" ∷ "possibly_sent" ∷ "response_started" ∷ []),
        )
        ∷ ("headersMs", nullable_integer returns max_safe)
        ∷ (
          "phase",
          string_enum returns ("queued" ∷ "preparing" ∷ "upstream" ∷ "body" ∷ "complete" ∷ []),
        )
        ∷ ("queueMs", integer_check returns max_safe)
        ∷ ("requestBytes", integer_check returns max_safe)
        ∷ ("requestId", test returns is_string)
        ∷ ("responseBytes", integer_check returns max_safe)
        ∷ ("spanId", test returns is_string)
        ∷ ("tlsProfile", test returns is_string)
        ∷ ("totalMs", integer_check returns max_safe)
        ∷ ("traceId", test returns is_string)
        ∷ [])
      v 0)

unfoldable pub validate17 : Value → ℕ
validate17 v = outcome (
    object_check returns ("code" ∷ "message" ∷ []) none
      ((
        "code",
        string_enum returns (
            "UNAUTHORIZED" ∷ "INVALID_REQUEST" ∷ "UNSUPPORTED_CAPABILITY" ∷ "INVALID_PROFILE"
            ∷ "EGRESS_REQUIRED" ∷ "SSRF_BLOCKED" ∷ "BODY_TOO_LARGE" ∷ "BUSY" ∷ "TIMEOUT"
            ∷ "CANCELLED" ∷ "DNS_ERROR" ∷ "PROXY_ERROR" ∷ "TLS_ERROR" ∷ "CONNECT_ERROR"
            ∷ "PROTOCOL_ERROR" ∷ "CONTEXT_NOT_FOUND" ∷ "CONTEXT_CONFLICT" ∷ "CONTEXT_LIMIT"
            ∷ "COOKIE_LIMIT" ∷ "DUPLICATE_REQUEST" ∷ "UNKNOWN" ∷ []),
      )
        ∷ ("diagnostics", any_check returns (call validate18 ∷ test counts is_null ∷ []))
        ∷ ("message", test returns is_string)
        ∷ [])
      v 0)

unfoldable pub validate41 : Value → ℕ
validate41 v = outcome (
    object_check returns
      ("requestId" ∷ "attempt" ∷ "traceId" ∷ "spanId" ∷ "phase" ∷ "delivery" ∷ "queueMs"
        ∷ "headersMs" ∷ "bodyMs" ∷ "totalMs" ∷ "requestBytes" ∷ "responseBytes" ∷ "tlsProfile" ∷ [])
      none
      (("attempt", integer_check returns max_safe)
        ∷ ("bodyMs", nullable_integer returns max_safe)
        ∷ ("clientReused", test returns λ v. is_boolean v || is_null v)
        ∷ ("contextId", test returns λ v. is_string v || is_null v)
        ∷ ("cookieRevision", nullable_integer returns max_safe)
        ∷ (
          "delivery",
          string_enum returns ("not_started" ∷ "possibly_sent" ∷ "response_started" ∷ []),
        )
        ∷ ("headersMs", nullable_integer returns max_safe)
        ∷ (
          "phase",
          string_enum returns ("queued" ∷ "preparing" ∷ "upstream" ∷ "body" ∷ "complete" ∷ []),
        )
        ∷ ("queueMs", integer_check returns max_safe)
        ∷ ("requestBytes", integer_check returns max_safe)
        ∷ ("requestId", test returns is_string)
        ∷ ("responseBytes", integer_check returns max_safe)
        ∷ ("spanId", test returns is_string)
        ∷ ("tlsProfile", test returns is_string)
        ∷ ("totalMs", integer_check returns max_safe)
        ∷ ("traceId", test returns is_string)
        ∷ [])
      v 0)

unfoldable pub validate43 : Value → ℕ
validate43 v = outcome (
    object_check returns ("code" ∷ "message" ∷ []) none
      ((
        "code",
        string_enum returns (
            "UNAUTHORIZED" ∷ "INVALID_REQUEST" ∷ "UNSUPPORTED_CAPABILITY" ∷ "INVALID_PROFILE"
            ∷ "EGRESS_REQUIRED" ∷ "SSRF_BLOCKED" ∷ "BODY_TOO_LARGE" ∷ "BUSY" ∷ "TIMEOUT"
            ∷ "CANCELLED" ∷ "DNS_ERROR" ∷ "PROXY_ERROR" ∷ "TLS_ERROR" ∷ "CONNECT_ERROR"
            ∷ "PROTOCOL_ERROR" ∷ "CONTEXT_NOT_FOUND" ∷ "CONTEXT_CONFLICT" ∷ "CONTEXT_LIMIT"
            ∷ "COOKIE_LIMIT" ∷ "DUPLICATE_REQUEST" ∷ "UNKNOWN" ∷ []),
      )
        ∷ ("diagnostics", any_check returns (call validate41 ∷ test counts is_null ∷ []))
        ∷ ("message", test returns is_string)
        ∷ [])
      v 0)

unfoldable pub validate40 : Value → ℕ
validate40 v = outcome (
    object_check returns ("state" ∷ "diagnostics" ∷ []) none
      (("diagnostics", call validate41)
        ∷ ("error", any_check returns (call validate43 ∷ test counts is_null ∷ []))
        ∷ ("state", string_enum returns ("queued" ∷ "active" ∷ "complete" ∷ "failed" ∷ []))
        ∷ [])
      v 0)
