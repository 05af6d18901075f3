-- ===== src/Sessions/Rebind/Open.antt =====
-- packages/typescript/src/sessions.ts: openContext, with copyContextInfo of protocol.ts.
use ja3proxy.Base.{
  ℕ, Bool, true, false, not, ◌&&◌, String, str_eq, Option, none, some, leb, if◌then◌else◌,
}
use ja3proxy.Platform.{Url}
use ja3proxy.Errors.{Code, Kind, Outcome}
use ja3proxy.Errors.Encoding.{as_text, as_number}
use ja3proxy.Wire.Value.{
  Value, undefined, boolean, number, string, array, object, whole, Entries, no_entries, entry,
  member, is_undefined,
}
use ja3proxy.Wire.Validators.{create_context, validate_wire}
use ja3proxy.Protocol.Payloads.{valid_context_info}
use ja3proxy.Protocol.Payloads.Patterns.{positive}
use ja3proxy.Protocol.Payloads.Capabilities.{resolve_profile, includes}
use ja3proxy.Service.{validate_connection, validate_partition}
use ja3proxy.Sessions.{
  Service, Settings, Info, Exec, ◌>>=◌, ◌>>◌, give, require, control, post_contexts,
}

-- A synchronous call that may throw.
unfoldable pub pass : {A : Type 0} → Outcome A → Exec A
pass o w = (o, w)

abbrev pub mode_name : Bool → String
mode_name managed = if managed then "managed" else "external"

-- `a === b` of two values that are no objects.
unfoldable pub same : Value → Value → Bool
same (string s) (string t) = str_eq s t
same (boolean true) (boolean b) = b
same (boolean false) (boolean b) = not b
same undefined undefined = true
same _ _ = false

unfoldable pub resolves_to : Value → Value → Value → Bool
resolves_to caps (string name) (string found) = elim (resolve_profile caps name) [
  | none ↦ false
  | some p ↦ str_eq found p
]
resolves_to caps _ _ = false

unfoldable pub ttl_entry : Option ℕ → Entries → Entries
ttl_entry none fs = fs
ttl_entry (some n) fs = entry "ttlMs" (number (whole n)) fs

-- The body of the request for a new context.
unfoldable pub context_request : Settings → Value → Value
unfolding ttl_entry
context_request settings connection = object (
    entry "partition" (string settings.partition) (
      entry "connection" connection (
        entry "cookieMode" (string (mode_name settings.managed)) (
          entry "allowedOrigins" (array settings.origins) (ttl_entry settings.ttl_ms no_entries)))))

unfoldable pub ttl_fits : Value → Option ℕ → Bool
ttl_fits caps none = true
ttl_fits caps (some n) =
    positive (number (whole n))
    && leb n (as_number (member "contextMaxIdleTtlMs" (member "limits" caps)))

-- The tests of the answer.
unfoldable pub matches_request : Value → Settings → Value → Value → Bool
unfolding same resolves_to
matches_request caps settings connection v =
    let wanted = member "identity" connection in
    let found = member "identity" v in
    valid_context_info v
    && same (member "partition" v) (string settings.partition)
    && same (member "cookieMode" v) (string (mode_name settings.managed))
    && resolves_to caps (member "tlsProfile" wanted) (member "tlsProfile" found)
    && same (member "emulateHeaders" found) (member "emulateHeaders" wanted)
    && same (member "userAgent" found) (member "userAgent" wanted)

unfoldable pub agent_entry : Value → Entries → Entries
agent_entry v fs = if is_undefined v then fs else entry "userAgent" v fs

-- copyContextInfo
unfoldable pub copy_context_info : Value → Info
unfolding agent_entry
copy_context_info v = record {
  context_id = as_text (member "contextId" v);
  partition = as_text (member "partition" v);
  expires_at_ms = as_number (member "expiresAtMs" v);
  revision = as_number (member "revision" v);
  cookie_mode = as_text (member "cookieMode" v);
  identity = object (
      entry "tlsProfile" (member "tlsProfile" (member "identity" v)) (
        entry "emulateHeaders" (member "emulateHeaders" (member "identity" v))
          (agent_entry (member "userAgent" (member "identity" v)) no_entries)));
}

-- openContext
unfoldable pub open_context : (String → Option Url) → Service → Settings → Value → Exec Info
unfolding pass ttl_fits context_request matches_request copy_context_info
open_context parse service settings connection = do
  pass (validate_partition (string settings.partition))
  caps ← λ w. (service.capabilities w.sent, w)
  pass (validate_connection parse caps connection)
  require (includes (mode_name settings.managed) (member "cookies" (member "modes" caps)))
      Code.unsupported_capability none
  require (ttl_fits caps settings.ttl_ms) Code.invalid_request (some Kind.invalid_input)
  require (validate_wire create_context (context_request settings connection)) Code.invalid_request
      (some Kind.invalid_input)
  v ← control service (post_contexts (context_request settings connection))
  require (matches_request caps settings connection v) Code.protocol_error none
  give (copy_context_info v)
