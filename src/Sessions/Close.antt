-- ===== src/Sessions/Close.antt =====
-- packages/typescript/src/sessions.ts: close. The wait for the session's Lifetime is over; `late` is the
-- error of the deadline if it is aborted then. The removals run at the same time and touch only their
-- own identifier, so they stand in the order of the set.
use ja3proxy.Base.{false, String, List, [], ◌∷◌, Option, none, some}
use ja3proxy.Errors.{TransportError, Outcome, returned, threw}
use ja3proxy.Sessions.{Service, Session, Exec, remove_context}

-- stopAccepting
abbrev pub stopped : Session → Session
stopped s = record s { accepting = false }

-- The first rejected outcome.
abbrev pub first_failure : Outcome (Unit {0}) → Outcome (Unit {0}) → Outcome (Unit {0})
first_failure (threw e) rest = threw e
first_failure (returned t) rest = rest

-- `Promise.allSettled(Array.from(cleanup, …))` with the search for a failure.
unfoldable pub remove_all : Service → List String → Exec (Unit {0})
remove_all service [] w = (returned tt, w)
remove_all service (id ∷ ids) w =
    let (o, w') = remove_context service id w in
    let (rest, w'') = remove_all service ids w' in (first_failure o rest, w'')

unfoldable pub finish : Service → Option TransportError → Exec (Unit {0})
unfolding remove_all
finish service (some e) w = (threw e, w)
finish service none w = remove_all service w.session.cleanup w

-- close
unfoldable pub close : Service → Option TransportError → Exec (Unit {0})
unfolding finish
close service late w = finish service late (record w { session = stopped w.session })
