-- ===== src/Wire/Contracts.antt =====
-- The schemas of contracts/schemas, with the maximum that packages/typescript/scripts/generate-contracts.mjs
-- gives to integers without one before compiled-validators.js is compiled from them.
use ja3proxy.Base.{true, false, [], ◌∷◌}
use ja3proxy.Wire.Checks.{max_safe}
use ja3proxy.Wire.Schema.{
  Schema, a_string, a_boolean, a_null, nullable_string, nullable_boolean, pair_of_strings,
  map_of_strings, enum, integer, optional_integer, array_of, optional_array_of, object_with, any_of,
  one_of, ref, no_members, member_of, no_schemas, schema,
}

abbrev pub connection : Schema
connection = object_with ("egress" ∷ "identity" ∷ []) true (
    member_of "egress"
      (one_of (
        schema (object_with ("mode" ∷ []) true (member_of "mode" (enum ("direct" ∷ [])) no_members))
          (schema
            (object_with ("mode" ∷ "url" ∷ []) true
              (member_of "mode" (enum ("proxy" ∷ [])) (member_of "url" a_string no_members)))
            no_schemas)))
      (member_of "identity"
        (object_with ("tlsProfile" ∷ "emulateHeaders" ∷ []) true (
          member_of "emulateHeaders" a_boolean
            (member_of "tlsProfile" a_string (member_of "userAgent" nullable_string no_members))))
        no_members))

abbrev pub request_metadata : Schema
request_metadata =
    object_with
      ("requestId" ∷ "partition" ∷ "url" ∷ "method" ∷ "headers" ∷ "hasBody" ∷ "timeoutMs"
        ∷ "maxResponseBytes" ∷ "attempt" ∷ [])
      true
      (member_of "attempt" (integer max_safe) (
        member_of "bodyLength" (optional_integer max_safe) (
          member_of "connection" (any_of (schema (ref connection) (schema a_null no_schemas))) (
            member_of "contextId" nullable_string (
              member_of "hasBody" a_boolean (
                member_of "headerOrder"
                  (one_of
                    (schema (enum ("caller" ∷ [])) (schema (enum ("browser" ∷ [])) no_schemas)))
                  (member_of "headers" (array_of pair_of_strings) (
                    member_of "maxResponseBytes" (integer max_safe) (
                      member_of "method" a_string (
                        member_of "partition" a_string (
                          member_of "requestId" a_string (
                            member_of "timeoutMs" (integer max_safe)
                              (member_of "url" a_string no_members)))))))))))))

abbrev pub create_context : Schema
create_context =
    object_with ("partition" ∷ "connection" ∷ "cookieMode" ∷ "allowedOrigins" ∷ []) true (
      member_of "allowedOrigins" (array_of a_string) (
        member_of "connection" (ref connection) (
          member_of "cookieMode" (enum ("external" ∷ "managed" ∷ [])) (
            member_of "partition" a_string
              (member_of "ttlMs" (optional_integer max_safe) no_members)))))

abbrev pub context_info : Schema
context_info =
    object_with
      ("contextId" ∷ "partition" ∷ "expiresAtMs" ∷ "revision" ∷ "cookieMode" ∷ "identity" ∷ [])
      false
      (member_of "contextId" a_string (
        member_of "cookieMode" (enum ("external" ∷ "managed" ∷ [])) (
          member_of "expiresAtMs" (integer max_safe) (
            member_of "identity"
              (object_with ("tlsProfile" ∷ "emulateHeaders" ∷ []) true (
                member_of "emulateHeaders" a_boolean (
                  member_of "tlsProfile" a_string
                    (member_of "userAgent" nullable_string no_members))))
              (member_of "partition" a_string
                (member_of "revision" (integer max_safe) no_members))))))

abbrev pub diagnostics : Schema
diagnostics =
    object_with
      ("requestId" ∷ "attempt" ∷ "traceId" ∷ "spanId" ∷ "phase" ∷ "delivery" ∷ "queueMs"
        ∷ "headersMs" ∷ "bodyMs" ∷ "totalMs" ∷ "requestBytes" ∷ "responseBytes" ∷ "tlsProfile" ∷ [])
      false
      (member_of "attempt" (integer max_safe) (
        member_of "bodyMs" (optional_integer max_safe) (
          member_of "clientReused" nullable_boolean (
            member_of "contextId" nullable_string (
              member_of "cookieRevision" (optional_integer max_safe) (
                member_of "delivery"
                  (enum ("not_started" ∷ "possibly_sent" ∷ "response_started" ∷ []))
                  (member_of "headersMs" (optional_integer max_safe) (
                    member_of "phase"
                      (enum ("queued" ∷ "preparing" ∷ "upstream" ∷ "body" ∷ "complete" ∷ []))
                      (member_of "queueMs" (integer max_safe) (
                        member_of "requestBytes" (integer max_safe) (
                          member_of "requestId" a_string (
                            member_of "responseBytes" (integer max_safe) (
                              member_of "spanId" a_string (
                                member_of "tlsProfile" a_string (
                                  member_of "totalMs" (integer max_safe)
                                    (member_of "traceId" a_string no_members))))))))))))))))

abbrev pub response_metadata : Schema
response_metadata = object_with ("requestId" ∷ "status" ∷ "headers" ∷ "diagnostics" ∷ []) false (
    member_of "cookieRevision" (optional_integer max_safe) (
      member_of "diagnostics" (ref diagnostics) (
        member_of "headers" (array_of pair_of_strings)
          (member_of "requestId" a_string (member_of "status" (integer 65535) no_members)))))

abbrev pub transport_error : Schema
transport_error = object_with ("code" ∷ "message" ∷ []) false (
    member_of "code"
      (enum (
        "UNAUTHORIZED" ∷ "INVALID_REQUEST" ∷ "UNSUPPORTED_CAPABILITY" ∷ "INVALID_PROFILE"
        ∷ "EGRESS_REQUIRED" ∷ "SSRF_BLOCKED" ∷ "BODY_TOO_LARGE" ∷ "BUSY" ∷ "TIMEOUT" ∷ "CANCELLED"
        ∷ "DNS_ERROR" ∷ "PROXY_ERROR" ∷ "TLS_ERROR" ∷ "CONNECT_ERROR" ∷ "PROTOCOL_ERROR"
        ∷ "CONTEXT_NOT_FOUND" ∷ "CONTEXT_CONFLICT" ∷ "CONTEXT_LIMIT" ∷ "COOKIE_LIMIT"
        ∷ "DUPLICATE_REQUEST" ∷ "UNKNOWN" ∷ []))
      (member_of "diagnostics" (any_of (schema (ref diagnostics) (schema a_null no_schemas)))
        (member_of "message" a_string no_members)))

abbrev pub request_status : Schema
request_status = object_with ("state" ∷ "diagnostics" ∷ []) false (
    member_of "diagnostics" (ref diagnostics) (
      member_of "error" (any_of (schema (ref transport_error) (schema a_null no_schemas)))
        (member_of "state" (enum ("queued" ∷ "active" ∷ "complete" ∷ "failed" ∷ [])) no_members)))

abbrev pub cookie_record : Schema
cookie_record =
    object_with
      ("name" ∷ "value" ∷ "domain" ∷ "path" ∷ "secure" ∷ "httpOnly" ∷ "hostOnly" ∷ "partitioned"
        ∷ [])
      true
      (member_of "domain" a_string (
        member_of "expiresAtMs" (optional_integer max_safe) (
          member_of "hostOnly" a_boolean (
            member_of "httpOnly" a_boolean (
              member_of "name" a_string (
                member_of "partitioned" a_boolean (
                  member_of "path" a_string (
                    member_of "sameSite"
                      (any_of
                        (schema (enum ("Strict" ∷ "Lax" ∷ "None" ∷ [])) (schema a_null no_schemas)))
                      (member_of "secure" a_boolean (member_of "value" a_string no_members))))))))))

abbrev pub cookie_snapshot : Schema
cookie_snapshot = object_with ("partitionKey" ∷ "cookies" ∷ []) true (
    member_of "cookies" (array_of (ref cookie_record))
      (member_of "partitionKey" a_string no_members))

abbrev pub cookie_operation : Schema
cookie_operation = one_of (
    schema
      (object_with ("operation" ∷ "partition" ∷ "url" ∷ []) true (
        member_of "operation" (enum ("select" ∷ []))
          (member_of "partition" a_string (member_of "url" a_string no_members))))
      (schema
        (object_with ("operation" ∷ "partition" ∷ "url" ∷ "cookies" ∷ "expectedRevision" ∷ []) true
          (member_of "cookies" (array_of a_string) (
            member_of "expectedRevision" (integer max_safe) (
              member_of "operation" (enum ("set" ∷ []))
                (member_of "partition" a_string (member_of "url" a_string no_members))))))
        (schema
          (object_with ("operation" ∷ "partition" ∷ []) true (
            member_of "operation" (enum ("export" ∷ []))
              (member_of "partition" a_string no_members)))
          (schema
            (object_with ("operation" ∷ "partition" ∷ "snapshot" ∷ "expectedRevision" ∷ []) true (
              member_of "expectedRevision" (integer max_safe) (
                member_of "operation" (enum ("import" ∷ [])) (
                  member_of "partition" a_string
                    (member_of "snapshot" (ref cookie_snapshot) no_members)))))
            no_schemas))))

abbrev pub cookie_reply : Schema
cookie_reply = object_with ("revision" ∷ []) false (
    member_of "cookies" (optional_array_of (ref cookie_record)) (
      member_of "revision" (integer max_safe) (
        member_of "snapshot" (any_of (schema (ref cookie_snapshot) (schema a_null no_schemas)))
          no_members)))

abbrev pub header_descriptor : Schema
header_descriptor =
    object_with ("tlsProfile" ∷ "headers" ∷ []) false
      (member_of "headers" (array_of pair_of_strings) (member_of "tlsProfile" a_string no_members))

abbrev pub capability_limits : Schema
capability_limits =
    object_with
      ("maxRequestBytes" ∷ "maxResponseBytes" ∷ "maxTimeoutMs" ∷ "maxConcurrent"
        ∷ "maxConcurrentPerPartition" ∷ "maxQueued" ∷ "maxQueuedPerPartition" ∷ "maxEnvelopes"
        ∷ "envelopeTimeoutMs" ∷ "maxControlBytes" ∷ "maxHeaderBytes" ∷ "maxHeaders" ∷ "maxContexts"
        ∷ "maxContextsPerPartition" ∷ "contextIdleTtlMs" ∷ "contextMaxIdleTtlMs" ∷ "contextMaxAgeMs"
        ∷ "maxCookies" ∷ "maxCookieBytes" ∷ "maxCookieSize" ∷ "maxAllowedOrigins"
        ∷ "registryCapacity" ∷ "registryTtlMs" ∷ [])
      false
      (member_of "contextIdleTtlMs" (integer max_safe) (
        member_of "contextMaxAgeMs" (integer max_safe) (
          member_of "contextMaxIdleTtlMs" (integer max_safe) (
            member_of "envelopeTimeoutMs" (integer max_safe) (
              member_of "maxAllowedOrigins" (integer max_safe) (
                member_of "maxConcurrent" (integer max_safe) (
                  member_of "maxConcurrentPerPartition" (integer max_safe) (
                    member_of "maxContexts" (integer max_safe) (
                      member_of "maxContextsPerPartition" (integer max_safe) (
                        member_of "maxControlBytes" (integer max_safe) (
                          member_of "maxCookieBytes" (integer max_safe) (
                            member_of "maxCookieSize" (integer max_safe) (
                              member_of "maxCookies" (integer max_safe) (
                                member_of "maxEnvelopes" (integer max_safe) (
                                  member_of "maxHeaderBytes" (integer max_safe) (
                                    member_of "maxHeaders" (integer max_safe) (
                                      member_of "maxQueued" (integer max_safe) (
                                        member_of "maxQueuedPerPartition" (integer max_safe) (
                                          member_of "maxRequestBytes" (integer max_safe) (
                                            member_of "maxResponseBytes" (integer max_safe) (
                                              member_of "maxTimeoutMs" (integer max_safe) (
                                                member_of "registryCapacity" (integer max_safe) (
                                                  member_of "registryTtlMs" (integer max_safe)
                                                    no_members)))))))))))))))))))))))

abbrev pub capability_modes : Schema
capability_modes = object_with ("egress" ∷ "cookies" ∷ "stream" ∷ "cancel" ∷ []) false (
    member_of "cancel" (array_of a_string) (
      member_of "cookies" (array_of a_string) (
        member_of "egress" (array_of a_string)
          (member_of "stream" (array_of a_string) no_members))))

abbrev pub framing_capabilities : Schema
framing_capabilities =
    object_with ("contentType" ∷ "maxMetadataBytes" ∷ "maxDataBytes" ∷ "maxUploadFrames" ∷ []) false
      (member_of "contentType" a_string (
        member_of "maxDataBytes" (integer max_safe) (
          member_of "maxMetadataBytes" (integer max_safe)
            (member_of "maxUploadFrames" (integer max_safe) no_members))))

abbrev pub capabilities : Schema
capabilities =
    object_with
      ("service" ∷ "build" ∷ "profiles" ∷ "headerDescriptors" ∷ "profileAliases" ∷ "framing"
        ∷ "limits" ∷ "modes" ∷ [])
      false
      (member_of "build" a_string (
        member_of "framing" framing_capabilities (
          member_of "headerDescriptors" (array_of header_descriptor) (
            member_of "limits" capability_limits (
              member_of "modes" capability_modes (
                member_of "profileAliases" map_of_strings (
                  member_of "profiles" (array_of a_string)
                    (member_of "service" (enum ("ja3proxy" ∷ [])) no_members))))))))
