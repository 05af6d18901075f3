-- ===== src/Sync/Ipc/Codec/RoundTrip.antt =====
-- Errors and results that are sent and read back by packages/typescript/src/sync/ipc.ts.
use ja3proxy.Base.{◌≡◌, ◌≤◌, refl, sym, ap, true, false, not, ◌&&◌, none, some, arith, leb}
use ja3proxy.Errors.{TransportError, Diagnostics, sdk, returned, transport_error}
use ja3proxy.Errors.Names.{read_code-code_name, read_kind-kind_name}
use ja3proxy.Errors.Encoding.{diagnostics_value, read_diagnostics-diagnostics_value}
use ja3proxy.Wire.Value.{lookup, is_finite, is_negative}
use ja3proxy.Protocol.Payloads.{valid_diagnostics}
use ja3proxy.Sync.Ipc.{object_of}
use ja3proxy.Sync.Ipc.Codec.{
  error_entries, encode_error, ipc_diagnostics, decode_error, rebuild, Response, plain_response,
  all_strings, restored, checked, response, Result, success, failure, result_value, result_bytes,
  result, settled,
}

-- Diagnostics that the reader of a message accepts.
abbrev pub IsSendable : Diagnostics → Type 0
IsSendable d = valid_diagnostics (diagnostics_value d) none none ≡ true

ipc_diagnostics-value :
    (d : Diagnostics) → IsSendable d → ipc_diagnostics (diagnostics_value d) ≡ returned d
unfolding ipc_diagnostics
ipc_diagnostics-value d h = rw h (ap returned (read_diagnostics-diagnostics_value d))

pub decode-encode :
    (e : TransportError)
    → IsSendable e.diagnostics
    → e.delivery ≡ e.diagnostics.delivery
    → decode_error (encode_error (sdk e)) ≡ returned e
unfolding decode_error encode_error error_entries object_of lookup rebuild transport_error
decode-encode e h d =
    rw
      (
        read_code-code_name e.code,
        read_kind-kind_name e.kind,
        ipc_diagnostics-value e.diagnostics h,
      )
      (λ i. returned (record {
        code = e.code;
        kind = e.kind;
        diagnostics = e.diagnostics;
        delivery = sym d i;
        used_proxy = e.used_proxy;
      }))

-- A response that the reader of a message accepts.
pub record IsResponse (r : Response) : Type 0 where
  pub least : 100 ≤ r.status
  pub greatest : r.status ≤ 599
  pub finite : is_finite r.elapsed ≡ true
  pub nonnegative : is_negative r.elapsed ≡ false
  pub listed : all_strings r.headers ≡ true
  pub sendable : IsSendable r.diagnostics

response-plain :
    (r : Response) → IsResponse r → response (plain_response r) (some r.body) ≡ returned r
unfolding response plain_response object_of lookup checked restored
response-plain r h =
    let fits : (leb 100 r.status
          && leb r.status 599
          && is_finite r.elapsed
          && not (is_negative r.elapsed))
        ≡ true =
      ground (arith, h.least, h.greatest, h.finite, h.nonnegative) in
    rw (fits, h.listed, ipc_diagnostics-value r.diagnostics h.sendable) refl

-- What can cross the boundary: an error carries the delivery of its own diagnostics, as the
-- constructor of errors has it.
abbrev pub Crosses : Result → Type 0
Crosses (success r) = IsResponse r
Crosses (failure e) = IsSendable e.diagnostics × (e.delivery ≡ e.diagnostics.delivery)

-- A result that is sent as the worker sends it is read back as the same result, whether it is a
-- response or an error, down to its code, kind and diagnostics. The result is one that can cross the
-- boundary: its diagnostics pass the check of diagnostics; an error has the delivery of its own
-- diagnostics, and a response a status from 100 to 599, a finite time that is not negative, and
-- headers that are lists of texts.
pub result-result_value :
    (r : Result) → Crosses r → result (result_value r) (result_bytes r) ≡ returned r
unfolding result result_value result_bytes settled object_of lookup
result-result_value (success r) h = rw (response-plain r h) refl
result-result_value (failure e) h = rw (decode-encode e h.0 h.1) refl
