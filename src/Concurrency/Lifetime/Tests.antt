-- ===== src/Concurrency/Lifetime/Tests.antt =====
-- A Lifetime that drains, and one that aborts at once.
use ja3proxy.Base.{◌≡◌, refl, true, false, List, [], ◌∷◌, map, All, none}
use ja3proxy.Concurrency.Lifetime.{
  mem, Lifetime, Event, begins, tracks, ends, wakes, open_lifetime, operation_id, find_operation,
  register, begin, track, finish, done, abort_all, close, wake, is_resolved, stop_accepting, step,
  run,
}
use ja3proxy.Concurrency.Lifetime.Close.{close_waits, close_resolves}

runs : Unit {0}
unfolding register begin track finish done abort_all close wake is_resolved stop_accepting step run
runs = tt

abbrev before : List Event
before = begins 7 ∷ begins 8 ∷ ends 0 ∷ []

abbrev after : List Event
after = begins 9 ∷ tracks 10 true ∷ ends 1 ∷ wakes false ∷ []

abbrev closed_later : Lifetime
closed_later = run after (close true (run before open_lifetime))

drains :
    (map operation_id closed_later.operations ≡ 2 ∷ [])
    × (is_resolved closed_later ≡ true)
    × (closed_later.aborted ≡ 10 ∷ [])
    × (closed_later.disposed ≡ 8 ∷ 7 ∷ [])
    × (is_resolved (close false (run before open_lifetime)) ≡ false)
    × ((close false (run before open_lifetime)).aborted ≡ 8 ∷ [])
unfolding runs
drains = (refl, refl, refl, refl, refl, refl)

not_closing : (run before open_lifetime).closing ≡ none
unfolding runs
not_closing = refl

resolved : is_resolved closed_later ≡ true
unfolding runs
resolved = refl

close_waits_example :
    All
      (λ op. find_operation op.id closed_later.operations ≡ none)
      (run before open_lifetime).operations
close_waits_example = close_waits before after true not_closing resolved

settled_now :
    All (λ op. mem op.id closed_later.settled ≡ true) (run before open_lifetime).operations
unfolding runs
settled_now = (refl, tt)

close_resolves_example : is_resolved (wake false closed_later) ≡ true
close_resolves_example = close_resolves before after true false not_closing settled_now
