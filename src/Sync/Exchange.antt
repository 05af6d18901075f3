-- ===== src/Sync/Exchange.antt =====
-- The messages between packages/typescript/src/sync/index.ts and packages/typescript/src/sync/worker.ts
-- as the values that are posted.
pub mod Served
mod Tests
use ja3proxy.Base.{true, false, String}
use ja3proxy.Errors.{sdk, returned, threw}
use ja3proxy.Wire.Value.{Value, boolean, number, string, object, whole, no_entries, entry}
use ja3proxy.Sync.Ipc.Codec.{encode_error}
use ja3proxy.Sync.Calls.{Operation, close_client, close_session, other, Posted}
use ja3proxy.Sync.Worker.{Reply}

abbrev pub operation_name : Operation → String
operation_name close_client = "close"
operation_name close_session = "sessionClose"
operation_name (other name) = name

-- `{ id, operation, value, timeoutMs }`
abbrev pub posted_value : Posted → Value
posted_value p = object (
    entry "id" (number (whole p.id)) (
      entry "operation" (string (operation_name p.operation))
        (entry "value" p.value (entry "timeoutMs" (number (whole p.timeout_ms)) no_entries))))

-- `ok ? { id, ok, value } : { id, ok, error: encodeError(value) }`
pub reply_value : Reply → Value
reply_value r = elim r.content [
  | returned v ↦
      object
        (entry "id" (number (whole r.id)) (entry "ok" (boolean true) (entry "value" v no_entries)))
  | threw e ↦ object (
      entry "id" (number (whole r.id))
        (entry "ok" (boolean false) (entry "error" (encode_error (sdk e)) no_entries)))
]
