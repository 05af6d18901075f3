-- ===== src/Concurrency/Deadline/Tests.antt =====
-- Deadlines that are aborted by their timer, by their parent and by a closing client.
use ja3proxy.Base.{◌≡◌, refl, false, List, [], ◌∷◌, some, none}
use ja3proxy.Errors.{
  TransportError, initial_diagnostics, local_error, transport_error, timeout, cancelled,
  client_closed, unknown_kind,
}
use ja3proxy.Concurrency.Deadline.{
  Deadline, timeout_error, other_reason, waiting, is_timeout_value, create, on_abort, on_timer,
  dispose, remaining, error, Event, fires, disposes, parent_aborts, aborts, step, run,
}
use ja3proxy.Concurrency.Deadline.Cause.{error_cause}

runs : Unit {0}
unfolding is_timeout_value create on_abort on_timer dispose remaining error step run local_error
    transport_error
runs = tt

abbrev closing : TransportError
closing = local_error cancelled (some client_closed)

abbrev at : Deadline → TransportError
at d = error d 9 initial_diagnostics false

causes :
    ((at (run (fires ∷ []) waiting)).code ≡ timeout)
    × ((at (run (parent_aborts timeout_error ∷ []) waiting)).code ≡ timeout)
    × ((at (run (parent_aborts other_reason ∷ []) waiting)).code ≡ cancelled)
    × ((at (run (aborts (some closing) ∷ []) waiting)).kind ≡ client_closed)
    × ((run (disposes ∷ fires ∷ parent_aborts other_reason ∷ []) waiting).reason ≡ none)
    × (create 0 none ≡ none)
    × (create 2147483648 none ≡ none)
    × (create 5 none ≡ some waiting)
    × (remaining 5 9 ≡ 1)
unfolding runs
causes = (refl, refl, refl, refl, refl, refl, refl, refl, refl)

untouched : (run [] waiting).reason ≡ none
unfolding runs
untouched = refl

fired : (step fires (run [] waiting)).reason ≡ some timeout_error
unfolding runs
fired = refl

error_cause_example :
    ((error (step fires (run [] waiting)) 9 initial_diagnostics false).code ≡ timeout)
    × ((error (step fires (run [] waiting)) 9 initial_diagnostics false).kind ≡ unknown_kind)
    × ((later : List Event) → (run later (step fires (run [] waiting))).reason ≡ some timeout_error)
error_cause_example = error_cause [] fires timeout_error 9 initial_diagnostics false untouched fired
