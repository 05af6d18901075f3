-- ===== src/Sync/Calls/Own.antt =====
-- What a call of packages/typescript/src/sync/index.ts that returns has received.
use ja3proxy.Base.{
  ℕ, ◌+◌, ◌≡◌, refl, inl, inr, Bool, true, false, not, ◌&&◌, ◌||◌, List, [], ◌∷◌, Option, none,
  some, min, arith, Bool-cases, Option-cases, is_some,
}
use ja3proxy.Errors.{TransportError, Outcome, returned, threw}
use ja3proxy.Wire.Value.{Value, boolean, Entries, lookup}
use ja3proxy.Sync.Ipc.{object_of}
use ja3proxy.Sync.Calls.{
  Operation, SyncClient, Look, is_id, is_unavailable, is_closing, refuse, break_down, judge,
  receive_packet, receive, post, call,
}

-- The first message that is found.
pub first_message : List Look → Option Value
first_message [] = none
first_message (look ∷ looks) = elim look.message [ some v ↦ some v | none ↦ first_message looks ]

-- The first message answers the request `id` with the value.
pub record Answered (id : ℕ) (looks : List Look) (v : Value) : Type 0 where
  pub packet : Entries
  pub message : Value
  pub first : first_message looks ≡ some message
  pub object : object_of message ≡ returned packet
  pub own : is_id id (lookup "id" packet) ≡ true
  pub fine : lookup "ok" packet ≡ boolean true
  pub value : lookup "value" packet ≡ v

break_down-throws :
    (e : TransportError) (s : SyncClient) {v : Value} {s' : SyncClient}
    → ¬ (break_down e s ≡ (returned v, s'))
unfolding break_down
break_down-throws e s h = ground arith

refuse-throws :
    (stopped : Bool) (o : Outcome TransportError) (s : SyncClient) {v : Value} {s' : SyncClient}
    → ¬ (refuse stopped o s ≡ (returned v, s'))
unfolding refuse break_down
refuse-throws stopped (threw e) s h = ground arith
refuse-throws stopped (returned e) s h = elim (Bool-cases (is_unavailable e || stopped)) [
  | inl so ↦ ground (arith, so)
  | inr not_so ↦ ground (arith, not_so)
]

judge-returned :
    (id : ℕ) (stopped : Bool) (fs : Entries) (same : Bool) (ok : Value) (s : SyncClient) {v : Value}
    {s' : SyncClient}
    → judge id stopped fs same ok s ≡ (returned v, s')
    → (same ≡ true) × (ok ≡ boolean true) × (lookup "value" fs ≡ v) × (s' ≡ s)
unfolding judge
judge-returned id stopped fs true (boolean true) s h = ground arith
judge-returned id stopped fs true (boolean false) s h = absurd (refuse-throws stopped _ s h)
judge-returned id stopped fs same ok s h = absurd (break_down-throws _ s h)

receive_packet-returned :
    (id : ℕ) (looks : List Look) (stopped : Bool) (message : Value) (o : Outcome Entries)
    (s : SyncClient) {v : Value} {s' : SyncClient}
    → first_message looks ≡ some message
    → object_of message ≡ o
    → receive_packet id stopped o s ≡ (returned v, s')
    → Answered id looks v × (s' ≡ s)
unfolding receive_packet
receive_packet-returned id looks stopped message (threw e) s first is h = absurd (ground arith)
receive_packet-returned id looks stopped message (returned fs) s first is h =
    let (own, fine, value, same) = judge-returned id stopped fs _ _ s h in
    (
      record {
        packet = fs;
        message = message;
        first = first;
        object = is;
        own = own;
        fine = fine;
        value = value;
      },
      same,
    )

later :
    {id : ℕ} {look : Look} {looks : List Look} {v : Value}
    → look.message ≡ none
    → Answered id looks v
    → Answered id (look ∷ looks) v
unfolding first_message
later empty a = record {
  packet = a.packet;
  message = a.message;
  first = rw empty a.first;
  object = a.object;
  own = a.own;
  fine = a.fine;
  value = a.value;
}

receive-returned :
    (dispatched : Bool) (id : ℕ) (looks : List Look) (s : SyncClient) {v : Value} {s' : SyncClient}
    → receive dispatched id looks s ≡ (returned v, s')
    → Answered id looks v × (s' ≡ s)
unfolding receive first_message break_down
receive-returned dispatched id [] s h = absurd (break_down-throws _ s h)
receive-returned dispatched id (look ∷ looks) s h = elim (Option-cases look.message) [
  | inr (m, found) ↦
      receive_packet-returned id (look ∷ looks) look.stopped m (object_of m) s (rw found refl) refl
        (ground (arith, found))
  | inl empty ↦ elim (Bool-cases (is_some s.failure || look.stopped)) [
    | inl lost ↦ absurd (ground (arith, break_down, empty, lost))
    | inr fine ↦
        let (a, same) = receive-returned dispatched id looks s (ground (arith, empty, fine)) in
        (later empty a, same)
  ]
]

-- The client has posted one more message, under a new identifier, and nothing else has changed.
pub record HasPosted (operation : Operation) (value : Value) (timeout : ℕ) (s s' : SyncClient)
    : Type 0 where
  pub usable : s.closed ≡ false
  pub allowed : s.closing && not (is_closing operation) ≡ false
  pub result : s' ≡ record s {
    sequence = s.sequence + 1;
    posted =
        record {
          id = s.sequence + 1;
          operation = operation;
          value = value;
          timeout_ms = min timeout s.operation_timeout_ms;
        }
        ∷ s.posted;
  }

post-returned :
    (posts : Bool) (operation : Operation) (value : Value) (timeout : ℕ) (looks : List Look)
    (s : SyncClient) {v : Value} {s' : SyncClient}
    → s.closed ≡ false
    → s.closing && not (is_closing operation) ≡ false
    → post posts operation value timeout looks s ≡ (returned v, s')
    → HasPosted operation value timeout s s' × Answered (s.sequence + 1) looks v
unfolding post break_down
post-returned false operation value timeout looks s usable allowed h = absurd (ground arith)
post-returned true operation value timeout looks s usable allowed h =
    let (a, same) = receive-returned true (s.sequence + 1) looks _ h in
    (record { usable = usable; allowed = allowed; result = same }, a)

-- A call that returns a value was made on a client that was not closed, and not closing either unless
-- the operation closes it or a session. It has posted one message, under the next identifier and with
-- a timeout of at most that of the client. The first message found in its time has that identifier,
-- says that it is fine, and holds the value. Nothing else of the client has changed.
pub call-returned :
    (posts : Bool) (operation : Operation) (value : Value) (timeout : ℕ) (looks : List Look)
    (s : SyncClient) {v : Value} {s' : SyncClient}
    → call posts operation value timeout looks s ≡ (returned v, s')
    → HasPosted operation value timeout s s' × Answered (s.sequence + 1) looks v
unfolding call
call-returned posts operation value timeout looks s h = elim (Bool-cases s.closed) [
  | inl so ↦ absurd (ground (arith, so))
  | inr usable ↦ elim (Bool-cases (s.closing && not (is_closing operation))) [
    | inl so ↦ absurd (ground (arith, usable, so))
    | inr allowed ↦
        post-returned posts operation value timeout looks s usable allowed
          (ground (arith, usable, allowed))
  ]
]
