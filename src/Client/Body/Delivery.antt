-- ===== src/Client/Body/Delivery.antt =====
-- The body that packages/typescript/src/client.ts delivers when the service sends it whole.
use ja3proxy.Base.{
  ℕ, ◌+◌, ◌≤◌, ◌≡◌, refl, sym, subst, either, true, false, ◌||◌, List, [], ◌∷◌, ◌++◌, append-nil,
  append_assoc, Option, some, ltb, ◌==◌, length, arith,
}
use ja3proxy.Errors.{Phase, Diagnostics}
use ja3proxy.Errors.Encoding.{read_diagnostics}
use ja3proxy.Wire.Value.{Value}
use ja3proxy.Protocol.Frames.{a_frame, end_of_stream}
use ja3proxy.Client.Body.{
  Expected, closed, completed, Response, begin, finish, frame, at_end, take_data, is_complete,
  conclude, take_complete, take_parsed, take_frame, take, pull,
}
use ja3proxy.Client.Body.Whole.{total, Event, pulls, run}

-- Data frames for the chunks, then the final frame and the end of the stream.
pub sends : ℕ × ℕ → List ℕ → List (List ℕ) → List Event
sends moment payload [] = pulls moment (frame (a_frame 3 payload)) (frame end_of_stream) ∷ []
sends moment payload (c ∷ cs) =
    pulls moment (frame (a_frame 2 c)) (frame end_of_stream) ∷ sends moment payload cs

abbrev pub AllFull : List (List ℕ) → Type 0
AllFull [] = Unit {0}
AllFull (c ∷ cs) = (1 ≤ length c) × AllFull cs

-- What the consumer has in the end.
pub record Delivered (chunks : List (List ℕ)) (v : Value) (s : Response) : Type 0 where
  pub content : s.enqueued ≡ chunks
  pub completion : s.completion ≡ some (completed (read_diagnostics v))
  pub stream : s.stream ≡ closed
  pub releases : s.releases ≡ 1

abbrev with_chunk : List ℕ → Response → Response
with_chunk c s = record s {
  response_bytes = s.response_bytes + length c;
  diagnostics = record s.diagnostics {
    phase = Phase.body;
    response_bytes = s.response_bytes + length c;
  };
  enqueued = s.enqueued ++ c ∷ [];
}

module _ (parse : List ℕ → Option Value) (plan : Expected) where
  pull-data :
      (moment : ℕ × ℕ) (c : List ℕ) (s : Response)
      → s.finished ≡ false
      → plan.bodyless ≡ false
      → 1 ≤ length c
      → s.response_bytes + length c ≤ plan.maximum
      → pull parse plan moment (frame (a_frame 2 c)) (frame end_of_stream) s ≡ with_chunk c s
  unfolding pull take take_frame take_data
  pull-data moment c s going has_body full fits =
      either (λ r. r ≡ with_chunk c s) s.finished (λ h. absurd (ground (arith, h, going)))
        λ h.
          either (λ r. r ≡ with_chunk c s) (plan.bodyless || length c == 0)
            (λ h. absurd (ground (arith, h, has_body, full)))
            λ h.
              either (λ r. r ≡ with_chunk c s) (ltb plan.maximum (s.response_bytes + length c))
                (λ h. absurd (ground (arith, h, fits))) λ h. refl

  pull-last :
      (moment : ℕ × ℕ) (payload : List ℕ) (v : Value) (s : Response)
      → s.finished ≡ false
      → s.releases ≡ 0
      → parse payload ≡ some v
      → is_complete plan s.response_bytes v ≡ true
      → Delivered s.enqueued v
          (pull parse plan moment (frame (a_frame 3 payload)) (frame end_of_stream) s)
  unfolding pull take take_frame take_parsed take_complete at_end conclude finish
  pull-last moment payload v s going kept parsed fine =
      either (Delivered s.enqueued v) s.finished (λ h. absurd (ground (arith, h, going)))
        λ h.
          rw (parsed, fine, going)
            (record {
              content = refl;
              completion = refl;
              stream = refl;
              releases = omega (arith, kept);
            })

  sends-Delivered :
      (moment : ℕ × ℕ) (payload : List ℕ) (v : Value) (chunks : List (List ℕ)) (s : Response)
      → s.finished ≡ false
      → s.releases ≡ 0
      → plan.bodyless ≡ false
      → AllFull chunks
      → s.response_bytes + total chunks ≤ plan.maximum
      → parse payload ≡ some v
      → is_complete plan (s.response_bytes + total chunks) v ≡ true
      → Delivered (s.enqueued ++ chunks) v (run parse plan (sends moment payload chunks) s)
  unfolding run sends total
  sends-Delivered moment payload v [] s going kept has_body full fits parsed fine =
      rw (append-nil s.enqueued) (
        pull-last moment payload v s going kept parsed
          (subst (λ n. is_complete plan n v ≡ true) (omega arith) fine))
  sends-Delivered moment payload v (c ∷ cs) s going kept has_body full fits parsed fine =
      let rest =
        sends-Delivered moment payload v cs (with_chunk c s) going kept has_body full.1
          (omega (arith, fits)) parsed
          (subst (λ n. is_complete plan n v ≡ true) (omega arith) fine) in
      subst (λ r. Delivered (s.enqueued ++ c ∷ cs) v (run parse plan (sends moment payload cs) r))
        (sym (pull-data moment c s going has_body full.0 (omega (arith, fits))))
        (subst (λ l. Delivered l v (run parse plan (sends moment payload cs) (with_chunk c s)))
          (append_assoc s.enqueued (c ∷ []) cs) rest)

  -- A response with a body whose non-empty chunks fit into the maximum, and whose final frame holds
  -- diagnostics that pass the test for that many bytes, completes with these diagnostics: the consumer
  -- has got exactly the chunks in their order, its stream is closed, and the slot is given back once.
  pub run-Delivered :
      (d : Diagnostics) (moment : ℕ × ℕ) (payload : List ℕ) (v : Value) (chunks : List (List ℕ))
      → plan.bodyless ≡ false
      → AllFull chunks
      → total chunks ≤ plan.maximum
      → parse payload ≡ some v
      → is_complete plan (total chunks) v ≡ true
      → Delivered chunks v (run parse plan (sends moment payload chunks) (begin d))
  unfolding begin
  run-Delivered d moment payload v chunks has_body full fits parsed fine =
      sends-Delivered moment payload v chunks (begin d) refl refl has_body full
        (omega (arith, fits)) parsed (subst (λ n. is_complete plan n v ≡ true) (omega arith) fine)
