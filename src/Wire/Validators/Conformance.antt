-- ===== src/Wire/Validators/Conformance.antt =====
-- The functions of compiled-validators.js against the schemas.
use ja3proxy.Base.{◌≡◌, refl, ap, ◌∙◌, ◌==◌}
use ja3proxy.Wire.Value.{Value}
use ja3proxy.Wire.Checks.{outcome, returns}
use ja3proxy.Wire.Schema.{Schema, conforms}
use ja3proxy.Wire.Schema.Compile.{compile, compile_members, compile_all}
use ja3proxy.Wire.Schema.Sound.{accepts-compile}
use ja3proxy.Wire.Contracts
use ja3proxy.Wire.Validators.{
  WireContractName, capabilities, context_info, cookie_operation, cookie_record, cookie_reply,
  cookie_snapshot, create_context, diagnostics, request_metadata, request_status, response_metadata,
  transport_error, validators, validate_wire,
}
use ja3proxy.Wire.Validators.Requests.{validate10, validate11, validate26, validate27, validate20}
use ja3proxy.Wire.Validators.Responses.{
  validate13, validate14, validate16, validate18, validate17, validate41, validate43, validate40,
}
use ja3proxy.Wire.Validators.Cookies.{
  validate21, validate23, validate22, validate31, validate30, validate35, validate37, validate34,
}
use ja3proxy.Wire.Validators.Operations.{
  validate29, select_check, set_check, export_check, import_check,
}
use ja3proxy.Wire.Validators.Capabilities.{
  validate25, header_descriptor_check, capability_limits_check, capability_modes_check,
  framing_capabilities_check,
}

-- The schema of a contract.
abbrev pub contract : WireContractName → Schema
contract capabilities = Contracts.capabilities
contract context_info = Contracts.context_info
contract cookie_operation = Contracts.cookie_operation
contract cookie_record = Contracts.cookie_record
contract cookie_reply = Contracts.cookie_reply
contract cookie_snapshot = Contracts.cookie_snapshot
contract create_context = Contracts.create_context
contract diagnostics = Contracts.diagnostics
contract request_metadata = Contracts.request_metadata
contract request_status = Contracts.request_status
contract response_metadata = Contracts.response_metadata
contract transport_error = Contracts.transport_error

-- Each function is the code of its schema.
compiled :
    (name : WireContractName) (v : Value)
    → validators name v ≡ outcome (compile returns (contract name) v 0)
unfolding validators compile compile_members compile_all validate10 validate11 validate26 validate27
    validate20 validate13 validate14 validate16 validate18 validate17 validate41 validate43
    validate40 validate21 validate23 validate22 validate31 validate30 validate35 validate37
    validate34 validate29 select_check set_check export_check import_check validate25
    header_descriptor_check capability_limits_check capability_modes_check
    framing_capabilities_check
compiled capabilities v = refl
compiled context_info v = refl
compiled cookie_operation v = refl
compiled cookie_record v = refl
compiled cookie_reply v = refl
compiled cookie_snapshot v = refl
compiled create_context v = refl
compiled diagnostics v = refl
compiled request_metadata v = refl
compiled request_status v = refl
compiled response_metadata v = refl
compiled transport_error v = refl

-- For every contract and every value, `validateWire` is true just where the value is valid against the
-- contract's JSON schema, in which an integer without a maximum has the maximum 2 ^ 53 - 1.
pub validate_wire-conforms :
    (name : WireContractName) (v : Value) → validate_wire name v ≡ conforms (contract name) v
unfolding validate_wire
validate_wire-conforms name v =
    ap (λ n. n == 0) (compiled name v) ∙ accepts-compile (contract name) v
