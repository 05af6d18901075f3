-- ===== src/Errors/Names.antt =====
-- The texts of packages/typescript/src/types.ts for codes, kinds, phases and deliveries, and the
-- search for a text among them.
use ja3proxy.Base.{◌≡◌, refl, String, str_eq, List, [], ◌∷◌, Option, none, some, if◌then◌else◌}
use ja3proxy.Errors

-- `list.find(item => item === text)`, where an item is known by its text.
unfoldable pub find_text {ℓ} : {A : Type ℓ} → (A → String) → List A → String → Option A
find_text name [] s = none
find_text name (x ∷ xs) s = if str_eq (name x) s then some x else find_text name xs s

unfoldable pub code_name : Errors.Code → String
code_name Errors.Code.unauthorized = "UNAUTHORIZED"
code_name Errors.Code.invalid_request = "INVALID_REQUEST"
code_name Errors.Code.unsupported_capability = "UNSUPPORTED_CAPABILITY"
code_name Errors.Code.invalid_profile = "INVALID_PROFILE"
code_name Errors.Code.egress_required = "EGRESS_REQUIRED"
code_name Errors.Code.ssrf_blocked = "SSRF_BLOCKED"
code_name Errors.Code.body_too_large = "BODY_TOO_LARGE"
code_name Errors.Code.busy = "BUSY"
code_name Errors.Code.timeout = "TIMEOUT"
code_name Errors.Code.cancelled = "CANCELLED"
code_name Errors.Code.dns_error = "DNS_ERROR"
code_name Errors.Code.proxy_error = "PROXY_ERROR"
code_name Errors.Code.tls_error = "TLS_ERROR"
code_name Errors.Code.connect_error = "CONNECT_ERROR"
code_name Errors.Code.protocol_error = "PROTOCOL_ERROR"
code_name Errors.Code.context_not_found = "CONTEXT_NOT_FOUND"
code_name Errors.Code.context_conflict = "CONTEXT_CONFLICT"
code_name Errors.Code.context_limit = "CONTEXT_LIMIT"
code_name Errors.Code.cookie_limit = "COOKIE_LIMIT"
code_name Errors.Code.duplicate_request = "DUPLICATE_REQUEST"
code_name Errors.Code.unknown = "UNKNOWN"

-- ERROR_CODES, in its order.
abbrev pub error_codes : List Errors.Code
error_codes =
    Errors.Code.unauthorized ∷ Errors.Code.invalid_request ∷ Errors.Code.unsupported_capability
    ∷ Errors.Code.invalid_profile ∷ Errors.Code.egress_required ∷ Errors.Code.ssrf_blocked
    ∷ Errors.Code.body_too_large ∷ Errors.Code.busy ∷ Errors.Code.timeout ∷ Errors.Code.cancelled
    ∷ Errors.Code.dns_error ∷ Errors.Code.proxy_error ∷ Errors.Code.tls_error
    ∷ Errors.Code.connect_error ∷ Errors.Code.protocol_error ∷ Errors.Code.context_not_found
    ∷ Errors.Code.context_conflict ∷ Errors.Code.context_limit ∷ Errors.Code.cookie_limit
    ∷ Errors.Code.duplicate_request ∷ Errors.Code.unknown ∷ []

unfoldable pub read_code : String → Option Errors.Code
unfolding find_text code_name
read_code s = find_text code_name error_codes s

unfoldable pub kind_name : Errors.Kind → String
kind_name Errors.Kind.proxy_unreachable = "proxy_unreachable"
kind_name Errors.Kind.service_unavailable = "service_unavailable"
kind_name Errors.Kind.connection_lost = "connection_lost"
kind_name Errors.Kind.unknown_kind = "unknown"
kind_name Errors.Kind.client_closed = "client_closed"
kind_name Errors.Kind.queue_full = "queue_full"
kind_name Errors.Kind.buffer_limit = "buffer_limit"
kind_name Errors.Kind.invalid_input = "invalid_input"
kind_name Errors.Kind.worker_unavailable = "worker_unavailable"

abbrev pub failure_kinds : List Errors.Kind
failure_kinds =
    Errors.Kind.proxy_unreachable ∷ Errors.Kind.service_unavailable ∷ Errors.Kind.connection_lost
    ∷ Errors.Kind.unknown_kind ∷ Errors.Kind.client_closed ∷ Errors.Kind.queue_full
    ∷ Errors.Kind.buffer_limit ∷ Errors.Kind.invalid_input ∷ Errors.Kind.worker_unavailable ∷ []

unfoldable pub read_kind : String → Option Errors.Kind
unfolding find_text kind_name
read_kind s = find_text kind_name failure_kinds s

unfoldable pub phase_name : Errors.Phase → String
phase_name Errors.Phase.preparing = "preparing"
phase_name Errors.Phase.queued = "queued"
phase_name Errors.Phase.upstream = "upstream"
phase_name Errors.Phase.body = "body"
phase_name Errors.Phase.complete = "complete"

unfoldable pub read_phase : String → Option Errors.Phase
unfolding find_text phase_name
read_phase s =
    find_text phase_name
      (Errors.Phase.queued ∷ Errors.Phase.preparing ∷ Errors.Phase.upstream ∷ Errors.Phase.body
        ∷ Errors.Phase.complete ∷ [])
      s

unfoldable pub delivery_name : Errors.Delivery → String
delivery_name Errors.Delivery.not_started = "not_started"
delivery_name Errors.Delivery.possibly_sent = "possibly_sent"
delivery_name Errors.Delivery.response_started = "response_started"

unfoldable pub read_delivery : String → Option Errors.Delivery
unfolding find_text delivery_name
read_delivery s =
    find_text delivery_name
      (Errors.Delivery.not_started ∷ Errors.Delivery.possibly_sent
        ∷ Errors.Delivery.response_started ∷ [])
      s

pub read_code-code_name : (c : Errors.Code) → read_code (code_name c) ≡ some c
unfolding read_code
read_code-code_name Errors.Code.unauthorized = refl
read_code-code_name Errors.Code.invalid_request = refl
read_code-code_name Errors.Code.unsupported_capability = refl
read_code-code_name Errors.Code.invalid_profile = refl
read_code-code_name Errors.Code.egress_required = refl
read_code-code_name Errors.Code.ssrf_blocked = refl
read_code-code_name Errors.Code.body_too_large = refl
read_code-code_name Errors.Code.busy = refl
read_code-code_name Errors.Code.timeout = refl
read_code-code_name Errors.Code.cancelled = refl
read_code-code_name Errors.Code.dns_error = refl
read_code-code_name Errors.Code.proxy_error = refl
read_code-code_name Errors.Code.tls_error = refl
read_code-code_name Errors.Code.connect_error = refl
read_code-code_name Errors.Code.protocol_error = refl
read_code-code_name Errors.Code.context_not_found = refl
read_code-code_name Errors.Code.context_conflict = refl
read_code-code_name Errors.Code.context_limit = refl
read_code-code_name Errors.Code.cookie_limit = refl
read_code-code_name Errors.Code.duplicate_request = refl
read_code-code_name Errors.Code.unknown = refl

pub read_kind-kind_name : (x : Errors.Kind) → read_kind (kind_name x) ≡ some x
unfolding read_kind
read_kind-kind_name Errors.Kind.proxy_unreachable = refl
read_kind-kind_name Errors.Kind.service_unavailable = refl
read_kind-kind_name Errors.Kind.connection_lost = refl
read_kind-kind_name Errors.Kind.unknown_kind = refl
read_kind-kind_name Errors.Kind.client_closed = refl
read_kind-kind_name Errors.Kind.queue_full = refl
read_kind-kind_name Errors.Kind.buffer_limit = refl
read_kind-kind_name Errors.Kind.invalid_input = refl
read_kind-kind_name Errors.Kind.worker_unavailable = refl

pub read_phase-phase_name : (x : Errors.Phase) → read_phase (phase_name x) ≡ some x
unfolding read_phase
read_phase-phase_name Errors.Phase.preparing = refl
read_phase-phase_name Errors.Phase.queued = refl
read_phase-phase_name Errors.Phase.upstream = refl
read_phase-phase_name Errors.Phase.body = refl
read_phase-phase_name Errors.Phase.complete = refl

pub read_delivery-delivery_name : (x : Errors.Delivery) → read_delivery (delivery_name x) ≡ some x
unfolding read_delivery
read_delivery-delivery_name Errors.Delivery.not_started = refl
read_delivery-delivery_name Errors.Delivery.possibly_sent = refl
read_delivery-delivery_name Errors.Delivery.response_started = refl
