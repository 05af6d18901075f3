-- ===== src/Sync/Worker/Tests.antt =====
-- A worker of packages/typescript/src/sync/worker.ts that serves two commands, and the theorem at it.
use ja3proxy.Base.{ℕ, ◌≡◌, refl, true, [], ◌∷◌, List}
use ja3proxy.Errors.{returned}
use ja3proxy.Wire.Value.{Value, null, number, whole, string, object, no_entries, entry, lookup}
use ja3proxy.Sync.Ipc.{object_of, integer, positive_up_to}
use ja3proxy.Sync.Worker.{
  reply, stop, fatal, start, take, command, operation_of, on_message, answer, on_settled,
}
use ja3proxy.Sync.Worker.Answers.{Event, message, settled, run, IsAnswered, run-IsAnswered}

abbrev sends : ℕ → Value
sends id = object (
    entry "operation" (string "capabilities")
      (entry "id" (number (whole id)) (entry "timeoutMs" (number (whole 50)) no_entries)))

abbrev events : List Event
events = message (sends 1) ∷ settled true (returned null) ∷ message (sends 2) ∷ []

serves : (run 100 events (start (returned tt))).accepted ≡ 2 ∷ 1 ∷ []
unfolding run on_message take command operation_of object_of integer positive_up_to lookup
    on_settled answer reply start
serves = refl

-- A second message before the answer stops the worker.
overlaps : (run 100 (message (sends 3) ∷ events) (start (returned tt))).stopped ≡ true
unfolding run on_message take command operation_of object_of integer positive_up_to lookup
    on_settled answer reply start fatal stop
overlaps = refl

run-IsAnswered_example : IsAnswered (run 100 events (start (returned tt)))
run-IsAnswered_example = run-IsAnswered 100 (returned tt) events
