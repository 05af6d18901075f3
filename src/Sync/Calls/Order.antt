-- ===== src/Sync/Calls/Order.antt =====
-- The identifiers that the calls of packages/typescript/src/sync/index.ts post, and why a client is closed.
use ja3proxy.Base.{
  ℕ, ◌+◌, ◌≤◌, ◌<◌, ◌≡◌, either, ◌⊎◌, refl, inl, inr, Bool, true, false, not, ◌&&◌, ◌||◌, List, [],
  ◌∷◌, arith, Bool-cases, Option-cases, is_some,
}
use ja3proxy.Errors.{TransportError, Outcome, returned, threw}
use ja3proxy.Wire.Value.{Value, boolean, Entries}
use ja3proxy.Sync.Ipc.{object_of}
use ja3proxy.Sync.Calls.{
  Operation, close_client, Posted, SyncClient, Look, create, is_unavailable, is_closing, refuse,
  break_down, judge, receive_packet, receive, post, call, on_error, on_exit, close, closed_by,
}

-- What happens to a client: a call, `close`, and the listeners between them.
pub data Action : Type 0 where
  calls : Bool → Operation → Value → ℕ → List Look → Action
  closes : Bool → Value → ℕ → List Look → Action
  worker_error worker_exit : Action

abbrev pub apply : Action → SyncClient → SyncClient
apply (calls posts operation value timeout looks) s = (call posts operation value timeout looks s).1
apply (closes posts options timeout looks) s = (close posts options timeout looks s).1
apply worker_error s = on_error s
apply worker_exit s = on_exit s

unfoldable pub run : List Action → SyncClient → SyncClient
run [] s = s
run (a ∷ rest) s = run rest (apply a s)

-- The identifiers fall strictly from the latest message on, and no timeout is above that of the client.
pub data Descending (max_timeout : ℕ) : ℕ → List Posted → Type 0 where
  no_messages : {n : ℕ} → Descending max_timeout n []
  message :
      {n : ℕ} {p : Posted} {ps : List Posted} (below : ℕ)
      → p.id ≤ n
      → below < p.id
      → p.timeout_ms ≤ max_timeout
      → Descending max_timeout below ps
      → Descending max_timeout n (p ∷ ps)

pub record IsOrdered (s : SyncClient) : Type 0 where
  pub falling : Descending s.operation_timeout_ms s.sequence s.posted
  pub reason : s.closed ≡ true → is_some s.failure || s.cleanup_complete ≡ true

-- Nothing was posted, and a client that has closed has a failure.
record Kept (s s' : SyncClient) : Type 0 where
  limit : s'.operation_timeout_ms ≡ s.operation_timeout_ms
  sequence : s'.sequence ≡ s.sequence
  posted : s'.posted ≡ s.posted
  cleaned : s'.cleanup_complete ≡ s.cleanup_complete
  failed : is_some s.failure ≡ true → is_some s'.failure ≡ true
  reason : (s'.closed ≡ s.closed) ⊎ (is_some s'.failure ≡ true)

same-Kept : (s : SyncClient) → Kept s s
same-Kept s = record {
  limit = refl;
  sequence = refl;
  posted = refl;
  cleaned = refl;
  failed = λ h. h;
  reason = inl refl;
}

break_down-Kept : (e : TransportError) (s : SyncClient) → Kept s (break_down e s).1
unfolding break_down
break_down-Kept e s = record {
  limit = refl;
  sequence = refl;
  posted = refl;
  cleaned = refl;
  failed = λ h. refl;
  reason = inr refl;
}

refuse-Kept :
    (stopped : Bool) (o : Outcome TransportError) (s : SyncClient) → Kept s (refuse stopped o s).1
unfolding refuse
refuse-Kept stopped (threw e) s = same-Kept s
refuse-Kept stopped (returned e) s = elim (Bool-cases (is_unavailable e || stopped)) [
  | inl so ↦ rw so (break_down-Kept e s)
  | inr not_so ↦ rw not_so (same-Kept s)
]

judge-Kept :
    (id : ℕ) (stopped : Bool) (fs : Entries) (same : Bool) (ok : Value) (s : SyncClient)
    → Kept s (judge id stopped fs same ok s).1
unfolding judge
judge-Kept id stopped fs true (boolean true) s = same-Kept s
judge-Kept id stopped fs true (boolean false) s = refuse-Kept stopped _ s
judge-Kept id stopped fs same ok s = break_down-Kept _ s

receive_packet-Kept :
    (id : ℕ) (stopped : Bool) (o : Outcome Entries) (s : SyncClient)
    → Kept s (receive_packet id stopped o s).1
unfolding receive_packet
receive_packet-Kept id stopped (threw e) s = same-Kept s
receive_packet-Kept id stopped (returned fs) s = judge-Kept id stopped fs _ _ s

receive-Kept :
    (dispatched : Bool) (id : ℕ) (looks : List Look) (s : SyncClient)
    → Kept s (receive dispatched id looks s).1
unfolding receive
receive-Kept dispatched id [] s = break_down-Kept _ s
receive-Kept dispatched id (look ∷ looks) s = elim (Option-cases look.message) [
  | inr (m, found) ↦ simp found (receive_packet-Kept id look.stopped (object_of m) s)
  | inl empty ↦ elim (Bool-cases (is_some s.failure || look.stopped)) [
    | inl lost ↦ simp (empty, lost) (break_down-Kept _ s)
    | inr fine ↦ simp (empty, fine) (receive-Kept dispatched id looks s)
  ]
]

or_left : (a b c : Bool) → (a ≡ true → b ≡ true) → a || c ≡ true → b || c ≡ true
or_left true b c f h = rw (f refl) refl
or_left false true c f h = refl
or_left false false c f h = h

or_true : (a b : Bool) → a ≡ true → a || b ≡ true
or_true a b h = rw h refl

or_right : (a : Bool) → a || true ≡ true
or_right true = refl
or_right false = refl

Kept-IsOrdered : {s s' : SyncClient} → Kept s s' → IsOrdered s → IsOrdered s'
Kept-IsOrdered {s} {s'} k o = record {
  falling = rw (k.limit, k.sequence, k.posted) o.falling;
  reason = λ h. elim k.reason [
    | inl same ↦ rw k.cleaned (
        or_left (is_some s.failure) (is_some s'.failure) s.cleanup_complete k.failed
          (o.reason (rw (← same) h)))
    | inr failed ↦ or_true (is_some s'.failure) s'.cleanup_complete failed
  ];
}

raised : {m n : ℕ} {ps : List Posted} → Descending m n ps → Descending m (n + 1) ps
raised no_messages = no_messages
raised (message below first under within rest) =
    message below (omega (arith, first)) under within rest

post-IsOrdered :
    (posts : Bool) (operation : Operation) (value : Value) (timeout : ℕ) (looks : List Look)
    (s : SyncClient)
    → s.closed ≡ false
    → IsOrdered s
    → IsOrdered (post posts operation value timeout looks s).1
unfolding post break_down
post-IsOrdered false operation value timeout looks s usable o = record {
  falling = raised o.falling;
  reason = λ h. refl;
}
post-IsOrdered true operation value timeout looks s usable o =
    Kept-IsOrdered (receive-Kept true (s.sequence + 1) looks _) (record {
      falling = message s.sequence (omega arith) (omega arith) (omega arith) o.falling;
      reason = λ h. absurd (ground (arith, usable));
    })

call-IsOrdered :
    (posts : Bool) (operation : Operation) (value : Value) (timeout : ℕ) (looks : List Look)
    (s : SyncClient)
    → IsOrdered s
    → IsOrdered (call posts operation value timeout looks s).1
unfolding call
call-IsOrdered posts operation value timeout looks s o = elim (Bool-cases s.closed) [
  | inl so ↦ simp so o
  | inr usable ↦ elim (Bool-cases (s.closing && not (is_closing operation))) [
    | inl so ↦ simp (usable, so) o
    | inr allowed ↦
        simp (usable, allowed) (post-IsOrdered posts operation value timeout looks s usable o)
  ]
]

closed_by-IsOrdered : (r : Outcome Value × SyncClient) → IsOrdered r.1 → IsOrdered (closed_by r).1
unfolding closed_by
closed_by-IsOrdered (returned v, s) o = record {
  falling = o.falling;
  reason = λ h. or_right (is_some s.failure);
}
closed_by-IsOrdered (threw e, s) o = o

on_error-IsOrdered : (s : SyncClient) → IsOrdered s → IsOrdered (on_error s)
unfolding on_error
on_error-IsOrdered s o = record { falling = o.falling; reason = λ h. refl }

close-IsOrdered :
    (posts : Bool) (options : Value) (timeout : ℕ) (looks : List Look) (s : SyncClient)
    → IsOrdered s
    → IsOrdered (close posts options timeout looks s).1
unfolding close
close-IsOrdered posts options timeout looks s o =
    either (λ (r : Outcome (Unit {0}) × SyncClient). IsOrdered r.1) s.closed (λ h. o)
      λ h.
        closed_by-IsOrdered
          (call posts close_client options timeout looks (record s { closing = true }))
          (call-IsOrdered posts close_client options timeout looks (record s { closing = true })
            (record { falling = o.falling; reason = o.reason }))

apply-IsOrdered : (a : Action) (s : SyncClient) → IsOrdered s → IsOrdered (apply a s)
unfolding on_exit
apply-IsOrdered (calls posts operation value timeout looks) s o =
    call-IsOrdered posts operation value timeout looks s o
apply-IsOrdered (closes posts options timeout looks) s o =
    close-IsOrdered posts options timeout looks s o
apply-IsOrdered worker_error s o = on_error-IsOrdered s o
apply-IsOrdered worker_exit s o = either IsOrdered s.closed (λ h. o) λ h. on_error-IsOrdered s o

run_from-IsOrdered :
    (actions : List Action) (s : SyncClient) → IsOrdered s → IsOrdered (run actions s)
unfolding run
run_from-IsOrdered [] s o = o
run_from-IsOrdered (a ∷ rest) s o = run_from-IsOrdered rest (apply a s) (apply-IsOrdered a s o)

create-IsOrdered : (timeout : ℕ) → IsOrdered (create timeout)
unfolding create
create-IsOrdered timeout = record { falling = no_messages; reason = λ h. absurd (ground arith) }

-- After any sequence of calls of a new client, of its close and of the listeners on its worker, the
-- identifiers of the posted messages fall strictly from the latest on, none is above the counter, and
-- no timeout is above that of the client. A closed client has a failure, which its later calls throw,
-- or has completed its cleanup.
pub run-IsOrdered : (timeout : ℕ) (actions : List Action) → IsOrdered (run actions (create timeout))
run-IsOrdered timeout actions =
    run_from-IsOrdered actions (create timeout) (create-IsOrdered timeout)
