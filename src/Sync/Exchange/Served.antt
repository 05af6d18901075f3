-- ===== src/Sync/Exchange/Served.antt =====
-- A call of the client of packages/typescript/src/sync that its worker serves.
use ja3proxy.Base.{
  ℕ, ◌+◌, ◌≤◌, ◌≡◌, refl, either, Bool, true, false, ◌||◌, str_eq, [], ◌∷◌, some, min, ◌==◌, arith,
  Bool-cases, inl, inr,
}
use ja3proxy.Errors.{TransportError, Outcome, returned, threw}
use ja3proxy.Wire.Value.{Value, number, whole, lookup, has_string}
use ja3proxy.Protocol.Payloads.Patterns.{max_safe_integer}
use ja3proxy.Sync.Ipc.{object_of, integer, positive_up_to}
use ja3proxy.Sync.Calls.{
  Operation, Posted, SyncClient, is_unavailable, refuse, break_down, call, post, receive,
  receive_packet, judge,
}
use ja3proxy.Sync.Worker.{
  operations, Command, command, operation_of, Reply, Worker, reply, stop, take, on_message, answer,
  on_settled,
}
use ja3proxy.Sync.Ipc.Codec.RoundTrip.{IsSendable, decode-encode}
use ja3proxy.Sync.Exchange.{operation_name, posted_value, reply_value}

-- The message that the next call posts.
abbrev pub next_post : Operation → Value → ℕ → SyncClient → Posted
next_post operation value timeout s = record {
  id = s.sequence + 1;
  operation = operation;
  value = value;
  timeout_ms = min timeout s.operation_timeout_ms;
}

positive_up_to-whole :
    (n max : ℕ)
    → 1 ≤ n
    → n ≤ max
    → n ≤ max_safe_integer
    → positive_up_to max (number (whole n)) ≡ returned n
unfolding positive_up_to
positive_up_to-whole n max low high safe = ground arith

command-posted :
    (p : Posted) (operation_timeout : ℕ)
    → has_string operations (operation_name p.operation) ≡ true
    → 1 ≤ p.id
    → p.id ≤ max_safe_integer
    → 1 ≤ p.timeout_ms
    → p.timeout_ms ≤ operation_timeout
    → operation_timeout ≤ max_safe_integer
    → command operation_timeout (posted_value p)
      ≡ returned (record {
        id = p.id;
        timeout_ms = p.timeout_ms;
        operation = operation_name p.operation;
        value = p.value;
      })
unfolding command operation_of object_of lookup integer
command-posted p operation_timeout known low safe positive within fits =
    rw
      (
        known,
        positive_up_to-whole p.id max_safe_integer low safe safe,
        positive_up_to-whole p.timeout_ms operation_timeout positive within
            (omega (arith, within, fits)),
      )
      refl

-- What the worker makes of a command that it accepts and settles.
settle-command :
    (operation_timeout : ℕ) (v : Value) (c : Command) (content : Outcome Value) (w : Worker)
    → w.stopped ≡ false
    → w.busy ≡ false
    → command operation_timeout v ≡ returned c
    → (on_settled true content (on_message operation_timeout v w)).replies
      ≡ record { id = c.id; content = content } ∷ w.replies
unfolding on_settled on_message take answer reply stop
settle-command operation_timeout v c (threw e) w running idle accepted =
    simp (running, idle, accepted) refl
settle-command operation_timeout v c (returned x) w running idle accepted =
    elim (Bool-cases (str_eq c.operation "close")) [
      | inl closes ↦ simp (running, idle, accepted, closes) refl
      | inr stays ↦ simp (running, idle, accepted, stays) refl
    ]

-- An error that can cross the boundary.
abbrev pub CanReply : Outcome Value → Type 0
CanReply (returned v) = Unit {0}
CanReply (threw e) = IsSendable e.diagnostics × (e.delivery ≡ e.diagnostics.delivery)

refuse-threw :
    (stopped : Bool) (o : Outcome TransportError) (e : TransportError) (s : SyncClient)
    → o ≡ returned e
    → (refuse stopped o s).0 ≡ threw e
unfolding refuse break_down
refuse-threw stopped (threw f) e s h = absurd (ground arith)
refuse-threw stopped (returned f) e s h =
    either (λ (r : Outcome Value × SyncClient). r.0 ≡ threw e) (is_unavailable f || stopped)
      (λ u. ground (arith, h)) λ u. ground (arith, h)

same_number : (n : ℕ) → n == n ≡ true
same_number n = ground arith

receive-reply :
    (id : ℕ) (content : Outcome Value) (stopped : Bool) (s : SyncClient)
    → CanReply content
    → (receive true id
        (record {
          message = some (reply_value (record { id = id; content = content }));
          stopped = stopped;
        }
          ∷ [])
        s).0
      ≡ content
unfolding receive receive_packet judge reply_value object_of lookup
receive-reply id (returned v) stopped s can = rw (same_number id) refl
receive-reply id (threw e) stopped s can =
    rw (same_number id) (refuse-threw stopped _ e s (decode-encode e can.0 can.1))

-- The client and the worker are at rest, and the call keeps to the limits of the messages.
pub record CanServe (operation : Operation) (timeout : ℕ) (s : SyncClient) (w : Worker)
    : Type 0 where
  pub usable : s.closed ≡ false
  pub not_closing : s.closing ≡ false
  pub known : has_string operations (operation_name operation) ≡ true
  pub safe : s.sequence + 1 ≤ max_safe_integer
  pub positive : 1 ≤ min timeout s.operation_timeout_ms
  pub fits : s.operation_timeout_ms ≤ max_safe_integer
  pub running : w.stopped ≡ false
  pub idle : w.busy ≡ false

-- The worker's reply to the call.
abbrev pub serve : Operation → Value → ℕ → Outcome Value → SyncClient → Worker → Worker
serve operation value timeout content s w =
    on_settled true content
      (on_message s.operation_timeout_ms (posted_value (next_post operation value timeout s)) w)

-- A client that is neither closed nor closing, and a worker that runs and is not busy: the worker accepts
-- the message that a call posts, for an operation it knows and a positive timeout, and posts one more
-- reply, with what the operation came to. The call that finds this reply returns or throws exactly
-- that, if an error can cross the boundary.
pub call-serve :
    (operation : Operation) (value : Value) (timeout : ℕ) (content : Outcome Value) (stopped : Bool)
    (s : SyncClient) (w : Worker)
    → CanServe operation timeout s w
    → CanReply content
    → let r : Reply = record { id = s.sequence + 1; content = content } in
      ((serve operation value timeout content s w).replies ≡ r ∷ w.replies)
      × ((call true operation value timeout
            (record { message = some (reply_value r); stopped = stopped } ∷ [])
            s).0
          ≡ content)
unfolding call post
call-serve operation value timeout content stopped s w h can = (
  settle-command s.operation_timeout_ms _ _ content w h.running h.idle (
      command-posted (next_post operation value timeout s) s.operation_timeout_ms h.known
        (omega arith) h.safe h.positive (omega arith) h.fits),
  simp (h.usable, h.not_closing) (receive-reply (s.sequence + 1) content stopped _ can),
)
