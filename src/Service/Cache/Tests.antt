-- ===== src/Service/Cache/Tests.antt =====
-- A history of calls of capabilities() in packages/typescript/src/service.ts, and the theorems at it.
use ja3proxy.Base.{ℕ, ◌+◌, ◌<◌, ◌≡◌, refl, true, List, [], ◌∷◌, none}
use ja3proxy.Errors.{returned}
use ja3proxy.Wire.Value.{Value}
use ja3proxy.Protocol.Payloads.Capabilities.{valid_capabilities}
use ja3proxy.Protocol.Payloads.Samples.{sample_capabilities, sample_valid}
use ja3proxy.Service.Cache.{
  Event, call, answer, answered, ask, create, run, loaded, accept, step, copy_capabilities, load,
  ask_cached,
}
use ja3proxy.Service.Cache.Fresh.{Answered, ask_fresh}
use ja3proxy.Service.Cache.Flight.{starts, answers, one_if, single_flight}

abbrev history : List Event
history = answer 5 (returned sample_capabilities) ∷ call none 2 ∷ call none 1 ∷ []

cached :
    (ask none 60004 (run history (create 60000))).1
    ≡ answered (copy_capabilities sample_capabilities)
unfolding run step create ask ask_cached load loaded accept
cached = rw sample_valid refl

ask_fresh_example :
    (at : ℕ) × (raw : Value) × Answered at raw history
    × (valid_capabilities raw ≡ true)
    × (copy_capabilities sample_capabilities ≡ copy_capabilities raw)
    × (60004 < at + 60000)
ask_fresh_example = ask_fresh 60000 60004 none history cached

single_flight_example :
    starts 60000 history ≡ answers 60000 history + one_if (run history (create 60000)).loading
single_flight_example = single_flight 60000 history
