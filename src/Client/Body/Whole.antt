-- ===== src/Client/Body/Whole.antt =====
-- How the body of a response in packages/typescript/src/client.ts can end.
use ja3proxy.Base.{
  ℕ, ◌+◌, ◌≤◌, ◌≡◌, either, refl, Bool, true, false, not, ◌||◌, List, [], ◌∷◌, ◌++◌, Option, none,
  some, ltb, ◌==◌, length, arith,
}
use ja3proxy.Errors.{Code, Diagnostics, TransportError}
use ja3proxy.Errors.Encoding.{read_diagnostics, as_number}
use ja3proxy.Wire.Value.{Value, number, whole, minus, member}
use ja3proxy.Protocol.Frames.{a_frame}
use ja3proxy.Service.{reported_error}
use ja3proxy.Client.Body.{
  Expected, Stream, readable, closed, errored, completed, failed, Response, begin, update_local,
  finish, Answer, frame, interrupted, fail, is_end, at_end, take_data, has_started, take_error,
  is_count, is_complete, conclude, take_complete, take_parsed, take_frame, error_stream, take, pull,
  cancel, gone, abort,
}

-- The bytes of a list of chunks.
unfoldable pub total : List (List ℕ) → ℕ
total [] = 0
total (c ∷ cs) = length c + total cs

total-append : (cs : List (List ℕ)) (c : List ℕ) → total (cs ++ c ∷ []) ≡ total cs + length c
unfolding total
total-append [] c = omega arith
total-append (d ∷ cs) c = omega (arith, total-append cs c)

abbrev pub is_readable : Stream → Bool
is_readable readable = true
is_readable _ = false

-- A response is running and holds its slot, or has ended in one of two ways and has given it back once.
pub data Status (s : Response) : Type 0 where
  running :
      s.finished ≡ false → s.stream ≡ readable → s.completion ≡ none → s.releases ≡ 0 → Status s
  completes :
      (d : Diagnostics)
      → s.finished ≡ true
      → s.stream ≡ closed
      → s.completion ≡ some (completed d)
      → d.response_bytes ≡ s.response_bytes
      → s.releases ≡ 1
      → Status s
  fails :
      (e : TransportError)
      → s.finished ≡ true
      → is_readable s.stream ≡ false
      → s.completion ≡ some (failed e)
      → s.failure ≡ some e
      → s.reader_cancelled ≡ true
      → s.releases ≡ 1
      → Status s

pub record Sized (plan : Expected) (s : Response) : Type 0 where
  pub exact : s.response_bytes ≡ total s.enqueued
  pub within : s.response_bytes ≤ plan.maximum
  pub bodyless : plan.bodyless ≡ true → s.enqueued ≡ []

pub record IsWhole (plan : Expected) (s : Response) : Type 0 where
  pub sized : Sized plan s
  pub status : Status s

-- A response that has not ended.
record Live (plan : Expected) (s : Response) : Type 0 where
  sized : Sized plan s
  going : s.finished ≡ false
  kept : s.releases ≡ 0

settled_stream : (e : TransportError) (t : Stream) → is_readable (error_stream e t) ≡ false
settled_stream e readable = refl
settled_stream e closed = refl
settled_stream e (errored f) = refl

gone_shut : (t : Stream) → is_readable t ≡ false → is_readable (gone t) ≡ false
gone_shut readable h = refl
gone_shut closed h = refl
gone_shut (errored f) h = refl

module _ (plan : Expected) where
  finish-IsWhole :
      (e : TransportError) (s : Response) → Live plan s → IsWhole plan (finish (some e) s)
  unfolding finish
  finish-IsWhole e s l =
      either (IsWhole plan) s.finished (λ h. absurd (ground (arith, h, l.going)))
        λ h. record {
          sized = record {
            exact = l.sized.exact;
            within = l.sized.within;
            bodyless = l.sized.bodyless;
          };
          status = fails e refl (settled_stream e s.stream) refl refl refl (omega (arith, l.kept));
        }

  fail-IsWhole :
      (c : Code) (moment : ℕ × ℕ) (s : Response) → Live plan s → IsWhole plan (fail plan c moment s)
  unfolding fail
  fail-IsWhole c moment s l = finish-IsWhole _ s l

  at_end-IsWhole :
      (moment : ℕ × ℕ) (second : Answer) (last s : Response)
      → Live plan s
      → IsWhole plan last
      → IsWhole plan (at_end plan moment second last s)
  unfolding at_end
  at_end-IsWhole moment (interrupted e) last s l w = finish-IsWhole e s l
  at_end-IsWhole moment (frame next) last s l w =
      either (IsWhole plan) (is_end (frame next)) (λ h. w)
        λ h. fail-IsWhole Code.protocol_error moment s l

  grown :
      (payload : List ℕ) (s : Response) (d : Diagnostics)
      → Live plan s
      → s.stream ≡ readable
      → s.completion ≡ none
      → plan.bodyless ≡ false
      → s.response_bytes + length payload ≤ plan.maximum
      → IsWhole plan (record s {
        response_bytes = s.response_bytes + length payload;
        diagnostics = d;
        enqueued = s.enqueued ++ payload ∷ [];
      })
  grown payload s d l open_stream pending has_body fits = record {
    sized = record {
      exact = omega (arith, l.sized.exact, total-append s.enqueued payload);
      within = fits;
      bodyless = λ h. absurd (ground (arith, h, has_body));
    };
    status = running l.going open_stream pending l.kept;
  }

  take_data-IsWhole :
      (moment : ℕ × ℕ) (payload : List ℕ) (s : Response)
      → Live plan s
      → s.stream ≡ readable
      → s.completion ≡ none
      → IsWhole plan (take_data plan moment payload s)
  unfolding take_data
  take_data-IsWhole moment payload s l open_stream pending =
      either (IsWhole plan) (plan.bodyless || length payload == 0)
        (λ h. fail-IsWhole Code.protocol_error moment s l)
        λ has_body.
          either (IsWhole plan) (ltb plan.maximum (s.response_bytes + length payload))
            (λ h. fail-IsWhole Code.body_too_large moment s l)
            λ fits.
              grown payload s _ l open_stream pending (ground (arith, has_body))
                (ground (arith, fits))

  take_error-IsWhole :
      (moment : ℕ × ℕ) (parsed : Option Value) (second : Answer) (s : Response)
      → Live plan s
      → IsWhole plan (take_error plan moment parsed second s)
  unfolding take_error
  take_error-IsWhole moment none second s l = fail-IsWhole Code.protocol_error moment s l
  take_error-IsWhole moment (some v) second s l =
      either (IsWhole plan)
        (not (has_started (reported_error v (update_local moment s) plan.used_proxy true)))
        (λ h. fail-IsWhole Code.protocol_error moment s l)
        λ h. at_end-IsWhole moment second _ s l (finish-IsWhole _ s l)

  counted : (n : ℕ) (v : Value) → is_count n v ≡ true → as_number v ≡ n
  counted n (number (whole m)) h = ground (arith, h)
  counted n (number (minus m)) h = ground (arith, h)
  counted n v h = absurd (ground (arith, h))

  conclude-IsWhole :
      (v : Value) (s : Response)
      → Live plan s
      → is_count s.response_bytes (member "responseBytes" v) ≡ true
      → IsWhole plan (conclude v s)
  unfolding conclude finish read_diagnostics
  conclude-IsWhole v s l count =
      either (λ r. IsWhole plan (record r { stream = closed })) s.finished
        (λ h. absurd (ground (arith, h, l.going)))
        λ h. record {
          sized = record {
            exact = l.sized.exact;
            within = l.sized.within;
            bodyless = l.sized.bodyless;
          };
          status =
              completes _ refl refl refl (counted s.response_bytes (member "responseBytes" v) count)
                (omega (arith, l.kept));
        }

  take_complete-IsWhole :
      (moment : ℕ × ℕ) (v : Value) (second : Answer) (s : Response)
      → Live plan s
      → IsWhole plan (take_complete plan moment v second s)
  unfolding take_complete
  take_complete-IsWhole moment v second s l =
      either (IsWhole plan) (is_complete plan s.response_bytes v)
        (λ h. at_end-IsWhole moment second _ s l (conclude-IsWhole v s l (ground (arith, h))))
        λ h. fail-IsWhole Code.protocol_error moment s l

  take_parsed-IsWhole :
      (moment : ℕ × ℕ) (parsed : Option Value) (second : Answer) (s : Response)
      → Live plan s
      → IsWhole plan (take_parsed plan moment parsed second s)
  unfolding take_parsed
  take_parsed-IsWhole moment none second s l = fail-IsWhole Code.protocol_error moment s l
  take_parsed-IsWhole moment (some v) second s l = take_complete-IsWhole moment v second s l

  module _ (parse : List ℕ → Option Value) where
    take_frame-IsWhole :
        (moment : ℕ × ℕ) (kind : ℕ) (payload : List ℕ) (second : Answer) (s : Response)
        → Live plan s
        → s.stream ≡ readable
        → s.completion ≡ none
        → IsWhole plan (take_frame parse plan moment kind payload second s)
    unfolding take_frame
    take_frame-IsWhole moment kind payload second s l open_stream pending =
        either (IsWhole plan) (kind == 2)
          (λ h. take_data-IsWhole moment payload s l open_stream pending)
          λ h.
            either (IsWhole plan) (kind == 4)
              (λ h. take_error-IsWhole moment (parse payload) second s l)
              λ h.
                either (IsWhole plan) (kind == 3)
                  (λ h. take_parsed-IsWhole moment (parse payload) second s l)
                  λ h. fail-IsWhole Code.protocol_error moment s l

    take-IsWhole :
        (moment : ℕ × ℕ) (first second : Answer) (s : Response)
        → Live plan s
        → s.stream ≡ readable
        → s.completion ≡ none
        → IsWhole plan (take parse plan moment first second s)
    unfolding take
    take-IsWhole moment (interrupted e) second s l open_stream pending = finish-IsWhole e s l
    take-IsWhole moment (frame (a_frame kind payload)) second s l open_stream pending =
        take_frame-IsWhole moment kind payload second s l open_stream pending
    take-IsWhole moment (frame next) second s l open_stream pending =
        fail-IsWhole Code.protocol_error moment s l

    pull-IsWhole :
        (moment : ℕ × ℕ) (first second : Answer) (s : Response)
        → IsWhole plan s
        → IsWhole plan (pull parse plan moment first second s)
    unfolding pull
    pull-IsWhole moment first second s w =
        either (IsWhole plan) s.finished (λ h. w)
          λ h. elim w.status [
            | running going open_stream pending kept ↦
                take-IsWhole moment first second s
                  (record { sized = w.sized; going = going; kept = kept }) open_stream pending
            | completes d over e1 e2 e3 e4 ↦ absurd (ground (arith, h, over))
            | fails e over e1 e2 e3 e4 e5 ↦ absurd (ground (arith, h, over))
          ]

  abort-IsWhole : (e : TransportError) (s : Response) → IsWhole plan s → IsWhole plan (abort e s)
  unfolding abort finish
  abort-IsWhole e s w = elim w.status [
    | running going open_stream pending kept ↦
        finish-IsWhole e s (record { sized = w.sized; going = going; kept = kept })
    | completes d over e1 e2 e3 e4 ↦
        either (IsWhole plan) s.finished (λ h. w) λ h. absurd (ground (arith, h, over))
    | fails e over e1 e2 e3 e4 e5 ↦
        either (IsWhole plan) s.finished (λ h. w) λ h. absurd (ground (arith, h, over))
  ]

  gone-IsWhole :
      (s : Response)
      → IsWhole plan s
      → s.finished ≡ true
      → IsWhole plan (record s { stream = gone s.stream })
  gone-IsWhole s w over = record {
    sized = record { exact = w.sized.exact; within = w.sized.within; bodyless = w.sized.bodyless };
    status = elim w.status [
      | running going open_stream pending kept ↦ absurd (ground (arith, over, going))
      | completes d e1 shut done count once ↦ completes d over (rw shut refl) done count once
      | fails e e1 shut done why reader once ↦
          fails e over (gone_shut s.stream shut) done why reader once
    ];
  }

  cancel-IsWhole :
      (moment : ℕ × ℕ) (s : Response) → IsWhole plan s → IsWhole plan (cancel plan moment s)
  unfolding cancel fail finish
  cancel-IsWhole moment s w = either (IsWhole plan) s.finished (gone-IsWhole s w) λ h.
      elim w.status [
        | running going open_stream pending kept ↦ record {
          sized = record {
            exact = w.sized.exact;
            within = w.sized.within;
            bodyless = w.sized.bodyless;
          };
          status =
              fails _ refl (settled_stream _ (gone s.stream)) refl refl refl (omega (arith, kept));
        }
        | completes d over shut done count once ↦ absurd (ground (arith, h, over))
        | fails e over shut done why reader once ↦ absurd (ground (arith, h, over))
      ]

-- What can happen to a response: its consumer pulls or cancels, and its deadline is aborted.
pub data Event : Type 0 where
  pulls : ℕ × ℕ → Answer → Answer → Event
  cancels : ℕ × ℕ → Event
  aborts : TransportError → Event

abbrev pub apply : (List ℕ → Option Value) → Expected → Event → Response → Response
apply parse plan (pulls moment first second) s = pull parse plan moment first second s
apply parse plan (cancels moment) s = cancel plan moment s
apply parse plan (aborts e) s = abort e s

unfoldable pub run : (List ℕ → Option Value) → Expected → List Event → Response → Response
run parse plan [] s = s
run parse plan (e ∷ events) s = run parse plan events (apply parse plan e s)

apply-IsWhole :
    (parse : List ℕ → Option Value) (plan : Expected) (e : Event) (s : Response)
    → IsWhole plan s
    → IsWhole plan (apply parse plan e s)
apply-IsWhole parse plan (pulls moment first second) s w =
    pull-IsWhole plan parse moment first second s w
apply-IsWhole parse plan (cancels moment) s w = cancel-IsWhole plan moment s w
apply-IsWhole parse plan (aborts e) s w = abort-IsWhole plan e s w

run_from-IsWhole :
    (parse : List ℕ → Option Value) (plan : Expected) (events : List Event) (s : Response)
    → IsWhole plan s
    → IsWhole plan (run parse plan events s)
unfolding run
run_from-IsWhole parse plan [] s w = w
run_from-IsWhole parse plan (e ∷ events) s w =
    run_from-IsWhole parse plan events (apply parse plan e s) (apply-IsWhole parse plan e s w)

begin-IsWhole : (plan : Expected) (d : Diagnostics) → IsWhole plan (begin d)
unfolding begin total
begin-IsWhole plan d = record {
  sized = record { exact = refl; within = omega arith; bodyless = λ h. refl };
  status = running refl refl refl refl;
}

-- After any sequence of pulls, cancellations and aborts, whatever frames arrive: the stream was given
-- exactly the counted bytes, within the maximum, and none if the response has no body. The response
-- still runs, with its stream open and its slot held; or it has completed, with its stream closed and
-- final diagnostics that report exactly the bytes delivered; or it has failed with one error, with its
-- reader cancelled. In the last two cases it has given back its slot exactly once.
pub run-IsWhole :
    (parse : List ℕ → Option Value) (plan : Expected) (d : Diagnostics) (events : List Event)
    → IsWhole plan (run parse plan events (begin d))
run-IsWhole parse plan d events =
    run_from-IsWhole parse plan events (begin d) (begin-IsWhole plan d)
