-- ===== src/Service/Cache/Flight.antt =====
-- The control calls that capabilities() in packages/typescript/src/service.ts starts.
use ja3proxy.Base.{
  ℕ, ◌+◌, ◌≡◌, refl, inl, inr, Bool, false, List, [], ◌∷◌, Option, none, some, ltb, arith,
  Bool-cases, if◌then◌else◌,
}
use ja3proxy.Errors.{TransportError, Outcome, returned, threw}
use ja3proxy.Wire.Value.{Value}
use ja3proxy.Service.Cache.{
  Service, Cached, Event, call, answer, shut, create, ask, loaded, accept, load, ask_cached, close,
  step, run, is_started,
}

abbrev pub one_if : Bool → ℕ
one_if b = if b then 1 else 0

-- The control calls for capabilities that a history starts, and those that it sees answered.
pub starts : ℕ → List Event → ℕ
starts ttl [] = 0
starts ttl (call refusal now ∷ es) =
    one_if (is_started (ask refusal now (run es (create ttl))).1) + starts ttl es
starts ttl (e ∷ es) = starts ttl es

pub answers : ℕ → List Event → ℕ
answers ttl [] = 0
answers ttl (answer now reply ∷ es) = one_if (run es (create ttl)).loading + answers ttl es
answers ttl (e ∷ es) = answers ttl es

load_count :
    (s : Service) → one_if (load s).0.loading ≡ one_if (is_started (load s).1) + one_if s.loading
unfolding load is_started
load_count s = ground arith

ask_cached_count :
    (now : ℕ) (s : Service) (o : Option Cached)
    → one_if (ask_cached now s o).0.loading
      ≡ one_if (is_started (ask_cached now s o).1) + one_if s.loading
unfolding ask_cached is_started
ask_cached_count now s none = load_count s
ask_cached_count now s (some c) = elim (Bool-cases (ltb now c.expires)) [
  | inl young ↦ rw young (omega arith)
  | inr old ↦ rw old (load_count s)
]

ask_count :
    (refusal : Option TransportError) (now : ℕ) (s : Service)
    → one_if (ask refusal now s).0.loading
      ≡ one_if (is_started (ask refusal now s).1) + one_if s.loading
unfolding ask is_started
ask_count (some e) now s = omega arith
ask_count none now s = ask_cached_count now s s.cached

accept_ends : (now : ℕ) (raw : Value) (s : Service) → (accept now raw s).0.loading ≡ false
unfolding accept
accept_ends now raw s = ground arith

loaded_ends :
    (now : ℕ) (reply : Outcome Value) (s : Service) → (loaded now reply s).0.loading ≡ false
unfolding loaded
loaded_ends now (returned raw) s = accept_ends now raw s
loaded_ends now (threw e) s = refl

answer_count :
    (now : ℕ) (reply : Outcome Value) (s : Service) → (step (answer now reply) s).loading ≡ false
unfolding step
answer_count now reply s = ground (arith, loaded_ends now reply s)

-- In any history as many control calls for capabilities were started as were answered, and one more
-- just while one is under way: callers that come while it is under way share it.
pub single_flight :
    (ttl : ℕ) (es : List Event)
    → starts ttl es ≡ answers ttl es + one_if (run es (create ttl)).loading
unfolding starts answers run create
single_flight ttl [] = refl
single_flight ttl (call refusal now ∷ es) =
    unfold step in omega (arith, ask_count refusal now (run es (create ttl)), single_flight ttl es)
single_flight ttl (answer now reply ∷ es) =
    rw (answer_count now reply (run es (create ttl))) (omega (arith, single_flight ttl es))
single_flight ttl (shut ∷ es) = unfold step close in single_flight ttl es
