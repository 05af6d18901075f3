-- ===== src/Concurrency/Deadline/Cause.antt =====
-- The error of a Deadline and what aborted it.
use ja3proxy.Base.{
  ℕ, ◌≡◌, refl, ap, ◌∙◌, Bool, true, false, List, [], ◌∷◌, none, some, arith, Bool-cases, inl, inr,
}
use ja3proxy.Errors.{Code, timeout, cancelled, Kind, default_kind, Diagnostics, transport_error}
use ja3proxy.Concurrency.Deadline.{
  Reason, timeout_error, other_reason, sdk_error, Deadline, abort_with, on_abort, on_timer, waiting,
  dispose, error, is_timeout, Event, fires, disposes, parent_aborts, aborts, step, run,
}

-- Before its signal aborts, a Deadline has not timed out.
abbrev Untimed : Deadline → Type 0
Untimed d = d.reason ≡ none → d.timed_out ≡ false

step-Untimed : (e : Event) (d : Deadline) → Untimed d → Untimed (step e d)
unfolding step on_timer on_abort dispose
step-Untimed fires d u = λ e. ground (arith, u)
step-Untimed disposes d u = u
step-Untimed (parent_aborts r) d u = λ e. ground (arith, u)
step-Untimed (aborts given) d u = λ e. ground (arith, u)

run-Untimed : (es : List Event) (d : Deadline) → Untimed d → Untimed (run es d)
unfolding run
run-Untimed [] d u = u
run-Untimed (e ∷ es) d u = run-Untimed es (step e d) (step-Untimed e d u)

-- The first abort sets the reason.
aborted_lem :
    (q r : Reason) (d : Deadline)
    → d.reason ≡ none
    → d.timed_out ≡ is_timeout q
    → (abort_with q d).reason ≡ some r
    → (abort_with q d).timed_out ≡ is_timeout r
aborted_lem q r d n t h =
    let same : q ≡ r = ground arith in
    let kept : (abort_with q d).timed_out ≡ d.timed_out = ground arith in
    kept ∙ t ∙ ap is_timeout same

step_cause :
    (e : Event) (d : Deadline) (r : Reason)
    → d.reason ≡ none
    → d.timed_out ≡ false
    → (step e d).reason ≡ some r
    → (step e d).timed_out ≡ is_timeout r
unfolding step on_timer on_abort dispose
step_cause fires d r n t h = elim (Bool-cases d.disposed) [
  | inl e ↦ absurd (ground arith)
  | inr e ↦ rw e (aborted_lem timeout_error r (record d { timed_out = true }) n refl (rw e at h))
]
step_cause disposes d r n t h = absurd (ground arith)
step_cause (parent_aborts q) d r n t h = elim (Bool-cases d.disposed) [
  | inl e ↦ absurd (ground arith)
  | inr e ↦ rw e (aborted_lem q r (record d { timed_out = is_timeout q }) n refl (rw e at h))
]
step_cause (aborts none) d r n t h = aborted_lem other_reason r d n t h
step_cause (aborts (some e)) d r n t h = aborted_lem (sdk_error e) r d n t h

step-reason :
    (e : Event) (d : Deadline) (r : Reason) → d.reason ≡ some r → (step e d).reason ≡ some r
unfolding step on_timer on_abort dispose
step-reason fires d r h = ground arith
step-reason disposes d r h = h
step-reason (parent_aborts q) d r h = ground arith
step-reason (aborts given) d r h = ground arith

run-reason :
    (es : List Event) (d : Deadline) (r : Reason) → d.reason ≡ some r → (run es d).reason ≡ some r
unfolding run
run-reason [] d r h = h
run-reason (e ∷ es) d r h = run-reason es (step e d) r (step-reason e d r h)

-- What the error of a Deadline says for a reason.
abbrev pub code_of : Reason → Code
code_of timeout_error = timeout
code_of _ = cancelled

abbrev pub kind_of : Reason → Diagnostics → Kind
kind_of (sdk_error e) diag = e.kind
kind_of r diag = default_kind (code_of r) diag.delivery

error_lem :
    (d : Deadline) (r : Reason) (elapsed : ℕ) (diag : Diagnostics) (used : Bool)
    → d.reason ≡ some r
    → d.timed_out ≡ is_timeout r
    → ((error d elapsed diag used).code ≡ code_of r)
      × ((error d elapsed diag used).kind ≡ kind_of r diag)
unfolding error transport_error
error_lem d timeout_error elapsed diag used e t = rw (t, e) (refl, refl)
error_lem d other_reason elapsed diag used e t = rw (t, e) (refl, refl)
error_lem d (sdk_error x) elapsed diag used e t = rw (t, e) (refl, refl)

-- The error that is built when the signal of a Deadline aborts, whatever came before, has the code
-- TIMEOUT where the reason is a timeout, of the timer or of the parent, and CANCELLED otherwise; its
-- kind is that of the SDK error which is the reason, if one is, and otherwise the kind that the code
-- and the delivery give. Whatever comes later, the reason stays.
pub error_cause :
    (before : List Event) (e : Event) (r : Reason) (elapsed : ℕ) (diag : Diagnostics) (used : Bool)
    → (run before waiting).reason ≡ none
    → (step e (run before waiting)).reason ≡ some r
    → ((error (step e (run before waiting)) elapsed diag used).code ≡ code_of r)
      × ((error (step e (run before waiting)) elapsed diag used).kind ≡ kind_of r diag)
      × ((later : List Event) → (run later (step e (run before waiting))).reason ≡ some r)
error_cause before e r elapsed diag used n h =
    let d : Deadline = run before waiting in
    let timed : (step e d).timed_out ≡ is_timeout r =
      step_cause e d r n (run-Untimed before waiting (λ x. refl) n) h in
    let (c, k) = error_lem (step e d) r elapsed diag used h timed in
    (c, k, λ later. run-reason later (step e d) r h)
