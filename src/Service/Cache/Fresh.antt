-- ===== src/Service/Cache/Fresh.antt =====
-- Where the answers of capabilities() in packages/typescript/src/service.ts come from.
use ja3proxy.Base.{
  ℕ, ◌+◌, ◌<◌, ◌≤◌, ◌≡◌, refl, sym, subst, ◌∙◌, inl, inr, Bool, true, false, List, [], ◌∷◌, Option,
  none, some, ltb, arith, Bool-cases, if◌then◌else◌, ltb→lt,
}
use ja3proxy.Errors.{TransportError, Outcome, returned, threw}
use ja3proxy.Wire.Value.{Value}
use ja3proxy.Protocol.Payloads.Capabilities.{valid_capabilities}
use ja3proxy.Service.Cache.{
  Service, Cached, answered, Event, call, answer, shut, create, ask, loaded, accept, load,
  ask_cached, close, step, run, copy_capabilities, default_control_limit,
}

-- An event of the history answered with `raw` at the time `at`.
pub data Answered (at : ℕ) (raw : Value) : List Event → Type 0 where
  latest : {es : List Event} → Answered at raw (answer at (returned raw) ∷ es)
  earlier : {e : Event} {es : List Event} → Answered at raw es → Answered at raw (e ∷ es)

-- The value that is kept was sent by the service, passed its check, and expires `ttl` later.
pub record From (ttl : ℕ) (es : List Event) (c : Cached) : Type 0 where
  pub at : ℕ
  pub raw : Value
  pub sent : Answered at raw es
  pub checked : valid_capabilities raw ≡ true
  pub copied : c.value ≡ copy_capabilities raw
  pub expiry : c.expires ≡ at + ttl

abbrev pub IsSound : ℕ → List Event → Option Cached → Type 0
IsSound ttl es none = Unit {0}
IsSound ttl es (some c) = From ttl es c

pub record Invariant (ttl : ℕ) (es : List Event) (s : Service) : Type 0 where
  pub same_ttl : s.ttl_ms ≡ ttl
  pub sound : IsSound ttl es s.cached
  pub limited : s.control_limit ≤ default_control_limit

IsSound-later :
    (ttl : ℕ) (e : Event) (es : List Event) (c : Option Cached)
    → IsSound ttl es c
    → IsSound ttl (e ∷ es) c
IsSound-later ttl e es none h = tt
IsSound-later ttl e es (some c) h = record {
  at = h.at;
  raw = h.raw;
  sent = earlier h.sent;
  checked = h.checked;
  copied = h.copied;
  expiry = h.expiry;
}

load_keeps :
    (s : Service)
    → ((load s).0.ttl_ms ≡ s.ttl_ms)
      × ((load s).0.cached ≡ s.cached)
      × ((load s).0.control_limit ≡ s.control_limit)
unfolding load
load_keeps s = elim (Bool-cases s.loading) [ inl e ↦ ground arith | inr e ↦ ground arith ]

ask_cached_keeps :
    (now : ℕ) (s : Service) (c : Option Cached)
    → ((ask_cached now s c).0.ttl_ms ≡ s.ttl_ms)
      × ((ask_cached now s c).0.cached ≡ s.cached)
      × ((ask_cached now s c).0.control_limit ≡ s.control_limit)
unfolding ask_cached
ask_cached_keeps now s none = load_keeps s
ask_cached_keeps now s (some c) = elim (Bool-cases (ltb now c.expires)) [
  | inl e ↦ rw e (refl, refl, refl)
  | inr e ↦ rw e (load_keeps s)
]

ask_keeps :
    (refusal : Option TransportError) (now : ℕ) (s : Service)
    → ((ask refusal now s).0.ttl_ms ≡ s.ttl_ms)
      × ((ask refusal now s).0.cached ≡ s.cached)
      × ((ask refusal now s).0.control_limit ≡ s.control_limit)
unfolding ask
ask_keeps (some e) now s = (refl, refl, refl)
ask_keeps none now s = ask_cached_keeps now s s.cached

keep :
    {ttl : ℕ} (e : Event) (es : List Event) (s t : Service)
    → Invariant ttl es s
    → t.ttl_ms ≡ s.ttl_ms
    → t.cached ≡ s.cached
    → t.control_limit ≡ s.control_limit
    → Invariant ttl (e ∷ es) t
keep {ttl} e es s t v same cache limit = record {
  same_ttl = omega (arith, v.same_ttl, same);
  sound = rw cache (IsSound-later ttl e es s.cached v.sound);
  limited = omega (arith, v.limited, limit);
}

forget :
    {ttl : ℕ} (es : List Event) (s : Service)
    → Invariant ttl es s
    → Invariant ttl (shut ∷ es) (close s)
unfolding close
forget es s v = record { same_ttl = v.same_ttl; sound = tt; limited = v.limited }

accept-Invariant :
    {ttl : ℕ} (now : ℕ) (raw : Value) (es : List Event) (s : Service)
    → Invariant ttl es s
    → Invariant ttl (answer now (returned raw) ∷ es) (accept now raw s).0
unfolding accept
accept-Invariant {ttl} now raw es s v = elim (Bool-cases (valid_capabilities raw)) [
  | inl valid ↦ rw valid (record {
    same_ttl = v.same_ttl;
    sound = record {
      at = now;
      raw = raw;
      sent = latest;
      checked = valid;
      copied = refl;
      expiry = omega (arith, v.same_ttl);
    };
    limited = omega arith;
  })
  | inr invalid ↦
      rw invalid
        (keep (answer now (returned raw)) es s (record s { loading = false }) v refl refl refl)
]

answer-Invariant :
    {ttl : ℕ} (now : ℕ) (reply : Outcome Value) (es : List Event) (s : Service)
    → Invariant ttl es s
    → Invariant ttl (answer now reply ∷ es) (loaded now reply s).0
unfolding loaded
answer-Invariant now (returned raw) es s v = accept-Invariant now raw es s v
answer-Invariant now (threw e) es s v =
    keep (answer now (threw e)) es s (record s { loading = false }) v refl refl refl

either-Invariant :
    {ttl : ℕ} {es : List Event} {s t : Service} (b : Bool)
    → Invariant ttl es s
    → Invariant ttl es t
    → Invariant ttl es (if b then s else t)
either-Invariant true v w = v
either-Invariant false v w = w

step-Invariant :
    {ttl : ℕ} (e : Event) (es : List Event) (s : Service)
    → Invariant ttl es s
    → Invariant ttl (e ∷ es) (step e s)
unfolding step
step-Invariant (call refusal now) es s v =
    let kept = ask_keeps refusal now s in
    keep (call refusal now) es s (ask refusal now s).0 v kept.0 kept.1 kept.2
step-Invariant (answer now reply) es s v =
    either-Invariant s.loading (answer-Invariant now reply es s v)
      (keep (answer now reply) es s s v refl refl refl)
step-Invariant shut es s v = forget es s v

run-Invariant : (ttl : ℕ) (es : List Event) → Invariant ttl es (run es (create ttl))
unfolding run create
run-Invariant ttl [] = record { same_ttl = refl; sound = tt; limited = omega arith }
run-Invariant ttl (e ∷ es) = step-Invariant e es (run es (create ttl)) (run-Invariant ttl es)

ask_cached-answered :
    (now : ℕ) (s : Service) (o : Option Cached) {v : Value}
    → (ask_cached now s o).1 ≡ answered v
    → (c : Cached) × (o ≡ some c) × (now < c.expires) × (c.value ≡ v)
unfolding ask_cached load
ask_cached-answered now s none h = elim (Bool-cases s.loading) [
  | inl e ↦ absurd (ground arith)
  | inr e ↦ absurd (ground arith)
]
ask_cached-answered now s (some c) h = elim (Bool-cases (ltb now c.expires)) [
  | inl e ↦ (c, refl, ltb→lt now c.expires e, ground arith)
  | inr e ↦ elim (Bool-cases s.loading) [
    | inl l ↦ absurd (ground arith)
    | inr l ↦ absurd (ground arith)
  ]
]

-- After any history of calls and answers, a value that capabilities() takes from its cache is a copy
-- of one that the service sent before and that passed its check, and less than the time to live ago.
pub ask_fresh :
    (ttl now : ℕ) (refusal : Option TransportError) (es : List Event) {v : Value}
    → (ask refusal now (run es (create ttl))).1 ≡ answered v
    → (at : ℕ) × (raw : Value) × Answered at raw es
      × (valid_capabilities raw ≡ true)
      × (v ≡ copy_capabilities raw)
      × (now < at + ttl)
unfolding ask
ask_fresh ttl now (some e) es h = absurd (ground arith)
ask_fresh ttl now none es h =
    let (c, is_cached, young, same) =
      ask_cached-answered now (run es (create ttl)) (run es (create ttl)).cached h in
    let held : From ttl es c = subst (IsSound ttl es) is_cached (run-Invariant ttl es).sound in
    (
      held.at,
      held.raw,
      held.sent,
      held.checked,
      sym same ∙ held.copied,
      omega (arith, held.expiry, young),
    )
