-- ===== src/Wire/Validators/Capabilities.antt =====
-- The function validate25 for capabilities of
-- packages/typescript/src/generated/compiled-validators.js, with the number of its errors for a result.
use ja3proxy.Base.{ℕ, [], ◌∷◌, none}
use ja3proxy.Wire.Value.{Value, is_string}
use ja3proxy.Wire.Checks.{
  Check, returns, test, string_enum, integer_check, object_check, array_check, string_pair,
  value_check, outcome, max_safe,
}

unfoldable pub header_descriptor_check : Check
header_descriptor_check = object_check returns ("tlsProfile" ∷ "headers" ∷ []) none (
    ("headers", array_check returns (string_pair returns))
    ∷ ("tlsProfile", test returns is_string)
    ∷ [])

unfoldable pub capability_limits_check : Check
capability_limits_check =
    object_check returns
      ("maxRequestBytes" ∷ "maxResponseBytes" ∷ "maxTimeoutMs" ∷ "maxConcurrent"
        ∷ "maxConcurrentPerPartition" ∷ "maxQueued" ∷ "maxQueuedPerPartition" ∷ "maxEnvelopes"
        ∷ "envelopeTimeoutMs" ∷ "maxControlBytes" ∷ "maxHeaderBytes" ∷ "maxHeaders" ∷ "maxContexts"
        ∷ "maxContextsPerPartition" ∷ "contextIdleTtlMs" ∷ "contextMaxIdleTtlMs" ∷ "contextMaxAgeMs"
        ∷ "maxCookies" ∷ "maxCookieBytes" ∷ "maxCookieSize" ∷ "maxAllowedOrigins"
        ∷ "registryCapacity" ∷ "registryTtlMs" ∷ [])
      none
      (("contextIdleTtlMs", integer_check returns max_safe)
        ∷ ("contextMaxAgeMs", integer_check returns max_safe)
        ∷ ("contextMaxIdleTtlMs", integer_check returns max_safe)
        ∷ ("envelopeTimeoutMs", integer_check returns max_safe)
        ∷ ("maxAllowedOrigins", integer_check returns max_safe)
        ∷ ("maxConcurrent", integer_check returns max_safe)
        ∷ ("maxConcurrentPerPartition", integer_check returns max_safe)
        ∷ ("maxContexts", integer_check returns max_safe)
        ∷ ("maxContextsPerPartition", integer_check returns max_safe)
        ∷ ("maxControlBytes", integer_check returns max_safe)
        ∷ ("maxCookieBytes", integer_check returns max_safe)
        ∷ ("maxCookieSize", integer_check returns max_safe)
        ∷ ("maxCookies", integer_check returns max_safe)
        ∷ ("maxEnvelopes", integer_check returns max_safe)
        ∷ ("maxHeaderBytes", integer_check returns max_safe)
        ∷ ("maxHeaders", integer_check returns max_safe)
        ∷ ("maxQueued", integer_check returns max_safe)
        ∷ ("maxQueuedPerPartition", integer_check returns max_safe)
        ∷ ("maxRequestBytes", integer_check returns max_safe)
        ∷ ("maxResponseBytes", integer_check returns max_safe)
        ∷ ("maxTimeoutMs", integer_check returns max_safe)
        ∷ ("registryCapacity", integer_check returns max_safe)
        ∷ ("registryTtlMs", integer_check returns max_safe)
        ∷ [])

unfoldable pub capability_modes_check : Check
capability_modes_check =
    object_check returns ("egress" ∷ "cookies" ∷ "stream" ∷ "cancel" ∷ []) none (
      ("cancel", array_check returns (test returns is_string))
      ∷ ("cookies", array_check returns (test returns is_string))
      ∷ ("egress", array_check returns (test returns is_string))
      ∷ ("stream", array_check returns (test returns is_string))
      ∷ [])

unfoldable pub framing_capabilities_check : Check
framing_capabilities_check =
    object_check returns
      ("contentType" ∷ "maxMetadataBytes" ∷ "maxDataBytes" ∷ "maxUploadFrames" ∷ []) none
      (("contentType", test returns is_string)
        ∷ ("maxDataBytes", integer_check returns max_safe)
        ∷ ("maxMetadataBytes", integer_check returns max_safe)
        ∷ ("maxUploadFrames", integer_check returns max_safe)
        ∷ [])

unfoldable pub validate25 : Value → ℕ
validate25 v = outcome (
    object_check returns
      ("service" ∷ "build" ∷ "profiles" ∷ "headerDescriptors" ∷ "profileAliases" ∷ "framing"
        ∷ "limits" ∷ "modes" ∷ [])
      none
      (("build", test returns is_string)
        ∷ ("framing", framing_capabilities_check)
        ∷ ("headerDescriptors", array_check returns header_descriptor_check)
        ∷ ("limits", capability_limits_check)
        ∷ ("modes", capability_modes_check)
        ∷ ("profileAliases", value_check returns (test returns is_string))
        ∷ ("profiles", array_check returns (test returns is_string))
        ∷ ("service", string_enum returns ("ja3proxy" ∷ []))
        ∷ [])
      v 0)
