-- ===== src/Wire/Validators.antt =====
-- packages/typescript/src/generated/validators.ts: validateWire, which calls the function that
-- compiled-validators.js exports under a contract's name. `.errors` is dropped there.
pub mod Requests
pub mod Responses
pub mod Cookies
pub mod Operations
pub mod Capabilities
pub mod Conformance
mod Tests
use ja3proxy.Base.{ℕ, Bool, ◌==◌}
use ja3proxy.Wire.Value.{Value}
use Requests.{validate10, validate20, validate26}
use Responses.{validate13, validate16, validate17, validate40}
use Cookies.{validate21, validate22, validate34}
use Operations.{validate29}
use Capabilities.{validate25}

-- WireContractName
pub data WireContractName : Type 0 where
  capabilities context_info cookie_operation cookie_record cookie_reply : WireContractName
  cookie_snapshot create_context diagnostics request_metadata request_status : WireContractName
  response_metadata transport_error : WireContractName

-- The exported functions, by name.
unfoldable pub validators : WireContractName → Value → ℕ
validators capabilities = validate25
validators context_info = validate20
validators cookie_operation = validate29
validators cookie_record = validate21
validators cookie_reply = validate34
validators cookie_snapshot = validate22
validators create_context = validate26
validators diagnostics = validate16
validators request_metadata = validate10
validators request_status = validate40
validators response_metadata = validate13
validators transport_error = validate17

unfoldable pub validate_wire : WireContractName → Value → Bool
unfolding validators
validate_wire name value = validators name value == 0
