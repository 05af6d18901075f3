-- ===== src/Sync/Worker/Answers.antt =====
-- The replies of packages/typescript/src/sync/worker.ts to its commands.
use ja3proxy.Base.{ℕ, ◌≡◌, refl, ap, either, Bool, true, false, not, List, [], ◌∷◌, ◌++◌, arith}
use ja3proxy.Errors.{Outcome, returned, threw}
use ja3proxy.Wire.Value.{Value}
use ja3proxy.Sync.Worker.{
  Command, command, Reply, Worker, reply, stop, fatal, start, take, on_message, answer, on_settled,
}

pub data Event : Type 0 where
  message : Value → Event
  settled : Bool → Outcome Value → Event
  failure : Event

abbrev pub apply : ℕ → Event → Worker → Worker
apply timeout (message v) s = on_message timeout v s
apply timeout (settled posts content) s = on_settled posts content s
apply timeout failure s = fatal s

unfoldable pub run : ℕ → List Event → Worker → Worker
run timeout [] s = s
run timeout (e ∷ events) s = run timeout events (apply timeout e s)

-- The identifiers of replies.
pub ids : List Reply → List ℕ
ids [] = []
ids (r ∷ rs) = r.id ∷ ids rs

abbrev pub pending : Bool → ℕ → List ℕ → List ℕ
pending true id rest = id ∷ rest
pending false id rest = rest

-- While the worker runs, its replies are those to the commands it accepted, one for each under its own
-- identifier and in their order, but for the command that it works on; the first reply is the one to
-- the start, under the identifier 0.
pub record IsAnswered (s : Worker) : Type 0 where
  pub answered :
      s.stopped ≡ false → pending s.busy s.active_id (ids s.replies) ≡ s.accepted ++ 0 ∷ []

stopped-IsAnswered : (s : Worker) → s.stopped ≡ true → IsAnswered s
stopped-IsAnswered s h = record { answered = λ g. absurd (ground (arith, h, g)) }

fatal_stops : (s : Worker) → (fatal s).stopped ≡ true
unfolding fatal stop
fatal_stops s = ground arith

-- The list of replies while a command is pending, and while none is.
busy-pending :
    (b : Bool) (id : ℕ) (rest whole : List ℕ)
    → b ≡ true
    → pending b id rest ≡ whole
    → id ∷ rest ≡ whole
busy-pending true id rest whole h e = e
busy-pending false id rest whole h e = absurd (ground (arith, h))

idle-pending :
    (b : Bool) (id : ℕ) (rest whole : List ℕ) → b ≡ false → pending b id rest ≡ whole → rest ≡ whole
idle-pending true id rest whole h e = absurd (ground (arith, h))
idle-pending false id rest whole h e = e

take-IsAnswered :
    (o : Outcome Command) (s : Worker) → s.busy ≡ false → IsAnswered s → IsAnswered (take o s)
unfolding take
take-IsAnswered (threw e) s idle w = stopped-IsAnswered (fatal s) (fatal_stops s)
take-IsAnswered (returned c) s idle w = record {
  answered =
      λ g. ap (λ rest. c.id ∷ rest) (idle-pending s.busy s.active_id _ _ idle (w.answered g));
}

on_message-IsAnswered :
    (timeout : ℕ) (v : Value) (s : Worker) → IsAnswered s → IsAnswered (on_message timeout v s)
unfolding on_message
on_message-IsAnswered timeout v s w =
    either IsAnswered s.stopped (λ h. w)
      λ h.
        either IsAnswered s.busy (λ busy. stopped-IsAnswered (fatal s) (fatal_stops s))
          λ idle. take-IsAnswered (command timeout v) s idle w

reply-IsAnswered :
    (content : Outcome Value) (s : Worker)
    → s.busy ≡ true
    → IsAnswered s
    → IsAnswered (record (reply s.active_id content s) { busy = false })
unfolding reply ids
reply-IsAnswered content s busy w =
    either (λ r. IsAnswered (record r { busy = false })) s.stopped (λ h. stopped-IsAnswered _ h)
      λ h. record { answered = λ g. busy-pending s.busy s.active_id _ _ busy (w.answered h) }

answer-IsAnswered :
    (content : Outcome Value) (s : Worker)
    → s.busy ≡ true
    → IsAnswered s
    → IsAnswered (record (answer content s) { busy = false })
unfolding answer stop
answer-IsAnswered (threw e) s busy w = reply-IsAnswered (threw e) s busy w
answer-IsAnswered (returned v) s busy w =
    either (λ r. IsAnswered (record r { busy = false })) s.closing (λ h. stopped-IsAnswered _ refl)
      λ h. reply-IsAnswered (returned v) s busy w

on_settled-IsAnswered :
    (posts : Bool) (content : Outcome Value) (s : Worker)
    → IsAnswered s
    → IsAnswered (on_settled posts content s)
unfolding on_settled
on_settled-IsAnswered posts content s w =
    either IsAnswered (not s.busy) (λ h. w)
      λ busy.
        either (λ r. IsAnswered (record r { busy = false })) posts
          (λ h. answer-IsAnswered content s (ground (arith, busy)) w)
          λ h. stopped-IsAnswered _ (fatal_stops s)

apply-IsAnswered :
    (timeout : ℕ) (e : Event) (s : Worker) → IsAnswered s → IsAnswered (apply timeout e s)
apply-IsAnswered timeout (message v) s w = on_message-IsAnswered timeout v s w
apply-IsAnswered timeout (settled posts content) s w = on_settled-IsAnswered posts content s w
apply-IsAnswered timeout failure s w = stopped-IsAnswered (fatal s) (fatal_stops s)

run_from-IsAnswered :
    (timeout : ℕ) (events : List Event) (s : Worker)
    → IsAnswered s
    → IsAnswered (run timeout events s)
unfolding run
run_from-IsAnswered timeout [] s w = w
run_from-IsAnswered timeout (e ∷ events) s w =
    run_from-IsAnswered timeout events (apply timeout e s) (apply-IsAnswered timeout e s w)

start-IsAnswered : (o : Outcome (Unit {0})) → IsAnswered (start o)
unfolding start reply stop ids
start-IsAnswered (returned t) = record { answered = λ g. refl }
start-IsAnswered (threw e) = stopped-IsAnswered _ refl

-- From its start, whatever messages arrive, however the commands end, and whenever code of the worker
-- fails: while it has not stopped, its replies are the one to the start, under the identifier 0, and
-- then one for each command it accepted, under the identifier of the command and in the same order,
-- but for the command that it is working on.
pub run-IsAnswered :
    (timeout : ℕ) (o : Outcome (Unit {0})) (events : List Event)
    → IsAnswered (run timeout events (start o))
run-IsAnswered timeout o events = run_from-IsAnswered timeout events (start o) (start-IsAnswered o)
