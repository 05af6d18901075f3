-- ===== src/Service/Control/Tests.antt =====
-- Control calls of packages/typescript/src/service.ts, and the theorem at one.
use ja3proxy.Base.{ℕ, ◌≡◌, refl, true, false, List, [], ◌∷◌, Option, none, some}
use ja3proxy.Errors.{returned, threw, Code, transport_error, local_error}
use ja3proxy.Wire.Value.{Value, null}
use ja3proxy.Protocol.Payloads.Patterns.{profile_name}
use ja3proxy.Service.{diagnostics_of}
use ja3proxy.Service.Control.{
  Conditions, bytes, got, control, Response, attempt, exchange, receive, reported, settle,
  read_json, read_chunks, json, ended,
}
use ja3proxy.Service.Control.Settled.{Carries, control-returned}

abbrev parse : List ℕ → Option Value
parse [] = none
parse (b ∷ bs) = some null

abbrev met : Conditions
met = record {
  refusal = none;
  fits = true;
  aborted_before = false;
  fetched = got (record {
    status = 200;
    media_type = some "application/json";
    body = some (record { chunks = bytes (1 ∷ []) ∷ bytes (2 ∷ 3 ∷ []) ∷ []; failure = none });
  });
  aborted = false;
  cause = local_error Code.cancelled none;
}

met_returned : control 3 parse met ≡ returned null
unfolding control attempt exchange receive reported settle read_json read_chunks json ended
met_returned = refl

met_too_large :
    control 2 parse met
    ≡ threw (transport_error Code.protocol_error (diagnostics_of "control" "") false none)
unfolding control attempt exchange receive reported settle read_json read_chunks json ended
    diagnostics_of profile_name
met_too_large = refl

control-returned_example :
    (met.refusal ≡ none)
    × (met.fits ≡ true)
    × (met.aborted_before ≡ false)
    × (r : Response) × (met.fetched ≡ got r)
    × Carries 3 parse r null
control-returned_example = control-returned 3 parse met met_returned
