-- ===== src/Errors/Encoding.antt =====
-- Diagnostics as the value that copyDiagnostics of packages/typescript/src/errors.ts builds, and a
-- checked value read as diagnostics.
use ja3proxy.Base.{
  ◌≡◌, refl, ap, ℕ, Bool, String, str_eq, Option, none, some, arith, or_else, if◌then◌else◌,
}
use ja3proxy.Wire.Value.{
  Value, undefined, null, boolean, number, string, object, whole, Entries, no_entries, entry,
  member, lookup,
}
use ja3proxy.Errors.{Diagnostics, Phase, Delivery}
use ja3proxy.Errors.Names.{
  phase_name, read_phase, delivery_name, read_delivery, read_phase-phase_name,
  read_delivery-delivery_name,
}

abbrev pub nullable_number : Option ℕ → Value
nullable_number none = null
nullable_number (some n) = number (whole n)

-- `...(x === undefined ? {} : { key: x })`
unfoldable pub optional_entry {ℓ} :
    {A : Type ℓ} → String → (A → Value) → Option A → Entries → Entries
optional_entry key value none fs = fs
optional_entry key value (some a) fs = entry key (value a) fs

-- copyDiagnostics
unfoldable pub diagnostics_value : Diagnostics → Value
diagnostics_value d = object (
    entry "requestId" (string d.request_id) (
      entry "attempt" (number (whole d.attempt)) (
        entry "phase" (string (phase_name d.phase)) (
          entry "delivery" (string (delivery_name d.delivery)) (
            entry "queueMs" (number (whole d.queue_ms)) (
              entry "headersMs" (nullable_number d.headers_ms) (
                entry "bodyMs" (nullable_number d.body_ms) (
                  entry "totalMs" (number (whole d.total_ms)) (
                    entry "requestBytes" (number (whole d.request_bytes)) (
                      entry "responseBytes" (number (whole d.response_bytes)) (
                        entry "tlsProfile" (string d.tls_profile) (
                          optional_entry "traceId" string d.trace_id (
                            optional_entry "spanId" string d.span_id (
                              optional_entry "clientReused" boolean d.client_reused (
                                optional_entry "contextId" string d.context_id (
                                  optional_entry "cookieRevision" (λ n. number (whole n))
                                    d.cookie_revision no_entries))))))))))))))))

-- The fields of a value that passed its checks; the other cases do not occur there.
abbrev pub as_text : Value → String
as_text (string s) = s
as_text _ = ""

abbrev pub as_number : Value → ℕ
as_number (number (whole n)) = n
as_number _ = 0

abbrev pub as_nullable : Value → Option ℕ
as_nullable (number (whole n)) = some n
as_nullable _ = none

abbrev pub as_optional_text : Value → Option String
as_optional_text (string s) = some s
as_optional_text _ = none

abbrev pub as_flag : Value → Option Bool
as_flag (boolean b) = some b
as_flag _ = none

unfoldable pub read_diagnostics : Value → Diagnostics
read_diagnostics v = record {
  request_id = as_text (member "requestId" v);
  attempt = as_number (member "attempt" v);
  phase = or_else (read_phase (as_text (member "phase" v))) Phase.preparing;
  delivery = or_else (read_delivery (as_text (member "delivery" v))) Delivery.not_started;
  queue_ms = as_number (member "queueMs" v);
  headers_ms = as_nullable (member "headersMs" v);
  body_ms = as_nullable (member "bodyMs" v);
  total_ms = as_number (member "totalMs" v);
  request_bytes = as_number (member "requestBytes" v);
  response_bytes = as_number (member "responseBytes" v);
  tls_profile = as_text (member "tlsProfile" v);
  trace_id = as_optional_text (member "traceId" v);
  span_id = as_optional_text (member "spanId" v);
  client_reused = as_flag (member "clientReused" v);
  context_id = as_optional_text (member "contextId" v);
  cookie_revision = as_nullable (member "cookieRevision" v);
}

abbrev present {ℓ} : {A : Type ℓ} → (A → Value) → Option A → Value → Value
present value none v = v
present value (some a) v = value a

lookup-optional_entry {ℓ} :
    {A : Type ℓ} (key : String) (value : A → Value) (o : Option A) (fs : Entries) (j : String)
    → lookup j (optional_entry key value o fs)
      ≡ (if str_eq key j then present value o (lookup j fs) else lookup j fs)
unfolding lookup optional_entry
lookup-optional_entry key value none fs j = ground arith
lookup-optional_entry key value (some a) fs j = refl

text_found : (o : Option String) → as_optional_text (present string o undefined) ≡ o
text_found none = refl
text_found (some s) = refl

flag_found : (o : Option Bool) → as_flag (present boolean o undefined) ≡ o
flag_found none = refl
flag_found (some b) = refl

number_found : (o : Option ℕ) → as_nullable (present (λ n. number (whole n)) o undefined) ≡ o
number_found none = refl
number_found (some n) = refl

abbrev optional_fields :
    Option String → Option String → Option Bool → Option String → Option ℕ → Entries
optional_fields trace span reused context revision = optional_entry "traceId" string trace (
    optional_entry "spanId" string span (
      optional_entry "clientReused" boolean reused (
        optional_entry "contextId" string context
          (optional_entry "cookieRevision" (λ n. number (whole n)) revision no_entries))))

-- Each optional field is found, and no other in its place.
optional_fields_found :
    (trace span : Option String) (reused : Option Bool) (context : Option String)
    (revision : Option ℕ)
    → (as_optional_text (lookup "traceId" (optional_fields trace span reused context revision))
        ≡ trace)
      × (as_optional_text (lookup "spanId" (optional_fields trace span reused context revision))
          ≡ span)
      × (as_flag (lookup "clientReused" (optional_fields trace span reused context revision))
          ≡ reused)
      × (as_optional_text (lookup "contextId" (optional_fields trace span reused context revision))
          ≡ context)
      × (as_nullable (lookup "cookieRevision" (optional_fields trace span reused context revision))
          ≡ revision)
unfolding lookup
optional_fields_found t s b c r = (
  simp lookup-optional_entry (text_found t),
  simp lookup-optional_entry (text_found s),
  simp lookup-optional_entry (flag_found b),
  simp lookup-optional_entry (text_found c),
  simp lookup-optional_entry (number_found r),
)

as_nullable-nullable_number : (o : Option ℕ) → as_nullable (nullable_number o) ≡ o
as_nullable-nullable_number none = refl
as_nullable-nullable_number (some n) = refl

-- Diagnostics are read back from the value that is built of them.
pub read_diagnostics-diagnostics_value :
    (d : Diagnostics) → read_diagnostics (diagnostics_value d) ≡ d
unfolding read_diagnostics diagnostics_value lookup
read_diagnostics-diagnostics_value d =
    let found =
      optional_fields_found d.trace_id d.span_id d.client_reused d.context_id d.cookie_revision in
    λ i. record {
      request_id = d.request_id;
      attempt = d.attempt;
      phase = ap (λ p. or_else p Phase.preparing) (read_phase-phase_name d.phase) i;
      delivery =
          ap (λ p. or_else p Delivery.not_started) (read_delivery-delivery_name d.delivery) i;
      queue_ms = d.queue_ms;
      headers_ms = as_nullable-nullable_number d.headers_ms i;
      body_ms = as_nullable-nullable_number d.body_ms i;
      total_ms = d.total_ms;
      request_bytes = d.request_bytes;
      response_bytes = d.response_bytes;
      tls_profile = d.tls_profile;
      trace_id = found.0 i;
      span_id = found.1 i;
      client_reused = found.2 i;
      context_id = found.3 i;
      cookie_revision = found.4 i;
    }
