-- ===== src/Sync/Ipc/Codec.antt =====
-- packages/typescript/src/sync/ipc.ts: errors and results as messages. The bytes of a body go beside the
-- values, so `response` takes them as an argument, and `none` for what is no byte array.
pub mod RoundTrip
mod Tests
use ja3proxy.Base.{
  ℕ, Bool, true, false, not, ◌&&◌, ◌||◌, String, List, [], ◌∷◌, Option, none, some, ltb, leb,
  if◌then◌else◌,
}
use ja3proxy.Errors.{
  Code, Kind, Delivery, Diagnostics, TransportError, Thrown, sdk, foreign, Outcome, returned, threw,
  initial_diagnostics, transport_error, local_error,
}
use ja3proxy.Errors.Names.{code_name, read_code, kind_name, read_kind}
use ja3proxy.Errors.Encoding.{diagnostics_value, read_diagnostics}
use ja3proxy.Wire.Value.{
  Value, undefined, boolean, number, string, array, object, whole, Number, Elements, Entries,
  no_entries, entry, lookup, is_finite, is_negative, is_string,
}
use ja3proxy.Protocol.Payloads.{valid_diagnostics}
use ja3proxy.Protocol.Payloads.Patterns.{every}
use ja3proxy.Sync.{◌>>=◌, ◌>>◌}
use ja3proxy.Sync.Ipc.{object_of}

-- The fields of an error that cross the boundary.
pub error_entries : TransportError → Entries
error_entries e = entry "code" (string (code_name e.code)) (
    entry "kind" (string (kind_name e.kind)) (
      entry "usedProxy" (boolean e.used_proxy)
        (entry "diagnostics" (diagnostics_value e.diagnostics) no_entries)))

-- encodeError
pub encode_error : Thrown → Value
unfolding error_entries
encode_error (sdk e) = object (error_entries e)
encode_error foreign =
    object (error_entries (local_error Code.unknown (some Kind.worker_unavailable)))

abbrev pub protocol_error : {A : Type 0} → Outcome A
protocol_error = threw (local_error Code.protocol_error none)

-- ipcDiagnostics
pub ipc_diagnostics : Value → Outcome Diagnostics
ipc_diagnostics v =
    if valid_diagnostics v none none then returned (read_diagnostics v) else protocol_error

abbrev code_field : Value → Option Code
code_field (string s) = read_code s
code_field _ = none

abbrev kind_field : Value → Option Kind
kind_field (string s) = read_kind s
kind_field _ = none

rebuild : Option Code → Option Kind → Value → Value → Outcome TransportError
unfolding ipc_diagnostics
rebuild (some code) (some kind) (boolean used) diag = do
  d ← ipc_diagnostics diag
  returned (transport_error code d used (some kind))
rebuild code kind used diag = protocol_error

-- decodeError
pub decode_error : Value → Outcome TransportError
unfolding rebuild
decode_error v = do
  fs ← object_of v
  rebuild (code_field (lookup "code" fs)) (kind_field (lookup "kind" fs)) (lookup "usedProxy" fs)
      (lookup "diagnostics" fs)

-- SyncBufferedResponse without its methods, which read the body.
pub record Response : Type 0 where
  pub status : ℕ
  pub headers : Entries
  pub body : List ℕ
  pub elapsed : Number
  pub diagnostics : Diagnostics

-- plainResponse: `none` is no bytes in a response that is sent.
pub plain_response : Response → Value
plain_response r = object (
    entry "status" (number (whole r.status)) (
      entry "headers" (object r.headers) (
        entry "elapsed" (number r.elapsed)
          (entry "diagnostics" (diagnostics_value r.diagnostics) no_entries))))

strings : Value → Bool
strings (array xs) = every is_string xs
strings _ = false

-- The loop over the headers; it restores each under its name.
pub all_strings : Entries → Bool
unfolding strings
all_strings no_entries = true
all_strings (entry name v fs) = strings v && all_strings fs

restored : ℕ → List ℕ → Number → Entries → Value → Outcome Response
unfolding all_strings ipc_diagnostics
restored status body elapsed fs diag =
    if all_strings fs
    then (do
      d ← ipc_diagnostics diag
      returned (record {
        status = status;
        headers = fs;
        body = body;
        elapsed = elapsed;
        diagnostics = d;
      }))
    else protocol_error

checked : Value → Option (List ℕ) → Value → Value → Value → Outcome Response
unfolding restored
checked (number (whole status)) (some body) (number elapsed) headers diag =
    if leb 100 status && leb status 599 && is_finite elapsed && not (is_negative elapsed)
    then (do fs ← object_of headers; restored status body elapsed fs diag)
    else protocol_error
checked status body elapsed headers diag = protocol_error

-- response
pub response : Value → Option (List ℕ) → Outcome Response
unfolding checked
response v body = do
  fs ← object_of v
  checked (lookup "status" fs) body (lookup "elapsed" fs) (lookup "headers" fs)
      (lookup "diagnostics" fs)

-- Result
pub data Result : Type 0 where
  success : Response → Result
  failure : TransportError → Result

-- What the worker sends for a result, but for the bytes of its body.
pub result_value : Result → Value
result_value (success r) =
    object (entry "ok" (boolean true) (entry "value" (plain_response r) no_entries))
result_value (failure e) =
    object (entry "ok" (boolean false) (entry "error" (encode_error (sdk e)) no_entries))

pub result_bytes : Result → Option (List ℕ)
result_bytes (success r) = some r.body
result_bytes (failure e) = none

settled : Value → Entries → Option (List ℕ) → Outcome Result
unfolding response decode_error
settled (boolean true) fs body = do r ← response (lookup "value" fs) body; returned (success r)
settled (boolean false) fs body = do e ← decode_error (lookup "error" fs); returned (failure e)
settled ok fs body = protocol_error

-- result
pub result : Value → Option (List ℕ) → Outcome Result
unfolding settled
result v body = do fs ← object_of v; settled (lookup "ok" fs) fs body

-- uncertainError
pub uncertain_error : Code → TransportError
uncertain_error code =
    transport_error code (record initial_diagnostics { delivery = Delivery.possibly_sent }) false
      (some Kind.worker_unavailable)
