-- ===== src/Client/Body/Tests.antt =====
-- A response of packages/typescript/src/client.ts that arrives whole, one that breaks off, and the
-- theorems at them.
use ja3proxy.Base.{ℕ, ◌≡◌, refl, ◌∙◌, true, false, List, [], ◌∷◌, Option, none, some, arith}
use ja3proxy.Errors.{Phase, Delivery, Diagnostics, initial_diagnostics}
use ja3proxy.Errors.Encoding.{diagnostics_value, optional_entry}
use ja3proxy.Errors.Names.{phase_name, delivery_name}
use ja3proxy.Wire.Value.{Value, lookup}
use ja3proxy.Wire.Schema.{conforms}
use ja3proxy.Wire.Contracts
use ja3proxy.Wire.Validators.{diagnostics}
use ja3proxy.Wire.Validators.Conformance.{validate_wire-conforms}
use ja3proxy.Protocol.Payloads.{valid_diagnostics, schema_diagnostics, supply_trace}
use ja3proxy.Protocol.Payloads.Patterns.{opaque, opaque_text, profile_name, has_key, with_entry}
use ja3proxy.Protocol.Frames.{a_frame, end_of_stream}
use ja3proxy.Client.Body.{
  cancel, pull, pull, take, take_frame, take_data, fail, finish, cancel, Expected, begin, frame,
  is_complete,
}
use ja3proxy.Client.Body.Whole.{total, Event, pulls, cancels, run, IsWhole, run-IsWhole}
use ja3proxy.Client.Body.Delivery.{Delivered, sends, run-Delivered}

abbrev plan : Expected
plan = record {
  request_id = "r";
  attempt = 0;
  maximum = 4;
  bodyless = false;
  context_id = none;
  cookie_revision = none;
  used_proxy = false;
}

abbrev final : Diagnostics
final = record initial_diagnostics {
  request_id = "r";
  phase = Phase.complete;
  delivery = Delivery.response_started;
  response_bytes = 3;
  tls_profile = "chrome_133";
}

abbrev parse : List ℕ → Option Value
parse [] = none
parse (b ∷ bs) = some (diagnostics_value final)

final-conforms :
    conforms Contracts.diagnostics (schema_diagnostics (diagnostics_value final)) ≡ true
unfolding conforms lookup schema_diagnostics diagnostics_value optional_entry phase_name
    delivery_name supply_trace has_key with_entry
final-conforms = refl

final_complete : is_complete plan 3 (diagnostics_value final) ≡ true
unfolding valid_diagnostics lookup diagnostics_value optional_entry opaque opaque_text profile_name
    phase_name delivery_name
final_complete =
    rw
      (validate_wire-conforms diagnostics (schema_diagnostics (diagnostics_value final))
        ∙ final-conforms)
      refl

abbrev chunks : List (List ℕ)
chunks = (7 ∷ 8 ∷ []) ∷ (9 ∷ []) ∷ []

run-Delivered_example :
    Delivered chunks
      (diagnostics_value final)
      (run parse plan (sends (5, 0) (1 ∷ []) chunks) (begin initial_diagnostics))
unfolding total
run-Delivered_example =
    run-Delivered parse plan initial_diagnostics (5, 0) (1 ∷ []) (diagnostics_value final) chunks
      refl (omega arith, (omega arith, tt)) (omega arith) refl final_complete

-- The second chunk is above the maximum of four bytes.
abbrev events : List Event
events =
    pulls (1, 0) (frame (a_frame 2 (7 ∷ 8 ∷ []))) (frame end_of_stream)
    ∷ pulls (2, 0) (frame (a_frame 2 (7 ∷ 8 ∷ 9 ∷ []))) (frame end_of_stream)
    ∷ cancels (3, 0)
    ∷ []

run-IsWhole_example : IsWhole plan (run parse plan events (begin initial_diagnostics))
run-IsWhole_example = run-IsWhole parse plan initial_diagnostics events

breaks : (run parse plan events (begin initial_diagnostics)).enqueued ≡ (7 ∷ 8 ∷ []) ∷ []
unfolding run pull take take_frame take_data fail finish begin cancel
breaks = refl
