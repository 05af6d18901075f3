-- ===== src/Sync/Calls/Tests.antt =====
-- Calls of packages/typescript/src/sync/index.ts that succeed, fail and come too late, and the theorems
-- at them.
use ja3proxy.Base.{ℕ, ◌≡◌, refl, true, false, [], ◌∷◌, List, some, none}
use ja3proxy.Errors.{Code, returned, threw, local_error}
use ja3proxy.Wire.Value.{
  Value, null, boolean, number, string, object, whole, no_entries, entry, lookup,
}
use ja3proxy.Sync.Ipc.{object_of}
use ja3proxy.Sync.Ipc.Codec.{uncertain_error}
use ja3proxy.Sync.Calls.{
  other, SyncClient, Look, create, call, post, receive, receive_packet, judge, break_down, lost,
  on_exit, close,
}
use ja3proxy.Sync.Calls.Own.{HasPosted, Answered, call-returned}
use ja3proxy.Sync.Calls.Order.{Action, calls, closes, worker_exit, IsOrdered, run, run-IsOrdered}

abbrev answer : ℕ → Value → Value
answer id v =
    object (entry "id" (number (whole id)) (entry "ok" (boolean true) (entry "value" v no_entries)))

-- Nothing at first, then the answer of the worker.
abbrev looks : List Look
looks =
    record { message = none; stopped = false }
    ∷ record { message = some (answer 1 (string "pong")); stopped = false }
    ∷ []

abbrev after : SyncClient
after = (call true (other "capabilities") null 900 looks (create 500)).1

returns :
    call true (other "capabilities") null 900 looks (create 500) ≡ (returned (string "pong"), after)
unfolding call post receive receive_packet judge create lookup object_of
returns = refl

call-returned_example :
    HasPosted (other "capabilities") null 900 (create 500) after × Answered 1 looks (string "pong")
unfolding create
call-returned_example =
    call-returned true (other "capabilities") null 900 looks (create 500) returns

-- An answer to another request is a protocol error.
wrong :
    (call true
      (other "capabilities")
      null
      900
      (record { message = some (answer 2 null); stopped = false } ∷ [])
      (create 500)).0
    ≡ threw (local_error Code.protocol_error none)
unfolding call post receive receive_packet judge break_down create lookup object_of
wrong = refl

-- A request without an answer may have been executed.
silent :
    (call true (other "request") null 900 [] (create 500)).0 ≡ threw (uncertain_error Code.timeout)
unfolding call post receive break_down create lost
silent = refl

abbrev actions : List Action
actions =
    calls true (other "capabilities") null 900 looks
    ∷ calls true (other "request") null 100 []
    ∷ worker_exit
    ∷ closes true null 400 []
    ∷ []

sequence_example : (run actions (create 500)).sequence ≡ 2
unfolding run call post receive receive_packet judge break_down create lookup object_of lost on_exit
    close
sequence_example = refl

run-IsOrdered_example : IsOrdered (run actions (create 500))
run-IsOrdered_example = run-IsOrdered 500 actions
