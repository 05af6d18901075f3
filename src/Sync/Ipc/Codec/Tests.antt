-- ===== src/Sync/Ipc/Codec/Tests.antt =====
-- Errors that cross the boundary of packages/typescript/src/sync, and messages that do not.
use ja3proxy.Base.{◌≡◌, refl, ◌∙◌, true, some, none}
use ja3proxy.Errors.{Code, Kind, TransportError, returned, threw, local_error, initial_diagnostics}
use ja3proxy.Errors.Encoding.{diagnostics_value, optional_entry}
use ja3proxy.Errors.Names.{phase_name, delivery_name}
use ja3proxy.Wire.Value.{null, object, no_entries, entry, lookup}
use ja3proxy.Wire.Schema.{conforms}
use ja3proxy.Wire.Contracts
use ja3proxy.Wire.Validators.{diagnostics}
use ja3proxy.Wire.Validators.Conformance.{validate_wire-conforms}
use ja3proxy.Protocol.Payloads.{valid_diagnostics, schema_diagnostics, supply_trace}
use ja3proxy.Protocol.Payloads.Patterns.{opaque, opaque_text, profile_name, has_key, with_entry}
use ja3proxy.Sync.Ipc.{object_of}
use ja3proxy.Sync.Ipc.Codec.{failure, result, result_value, result_bytes, settled}
use ja3proxy.Sync.Ipc.Codec.RoundTrip.{IsSendable, result-result_value}

abbrev busy : TransportError
unfolding local_error
busy = local_error Code.busy (some Kind.queue_full)

initial_conforms :
    conforms Contracts.diagnostics (schema_diagnostics (diagnostics_value initial_diagnostics))
    ≡ true
unfolding conforms lookup schema_diagnostics diagnostics_value optional_entry phase_name
    delivery_name supply_trace has_key with_entry
initial_conforms = refl

initial-IsSendable : IsSendable initial_diagnostics
unfolding valid_diagnostics lookup diagnostics_value optional_entry opaque opaque_text profile_name
initial-IsSendable =
    rw
      (validate_wire-conforms diagnostics
          (schema_diagnostics (diagnostics_value initial_diagnostics))
        ∙ initial_conforms)
      refl

result-result_value_example :
    result (result_value (failure busy)) (result_bytes (failure busy)) ≡ returned (failure busy)
unfolding local_error
result-result_value_example = result-result_value (failure busy) (initial-IsSendable, refl)

refused :
    result (object (entry "ok" null no_entries)) none ≡ threw (local_error Code.protocol_error none)
unfolding result settled object_of lookup
refused = refl
