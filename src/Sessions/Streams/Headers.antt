-- ===== src/Sessions/Streams/Headers.antt =====
-- The headers that a session of packages/typescript/src/sessions.ts sends with a stream.
use ja3proxy.Base.{
  ◌≡◌, refl, subst, inl, inr, Bool, true, false, ◌&&◌, ◌||◌, String, eq_iff, List, [], ◌∷◌, ◌++◌,
  All, Option, none, some, arith, Bool-cases,
}
use ja3proxy.Errors.{returned}
use ja3proxy.Protocol.Payloads.Patterns.{header_name, one_line}
use ja3proxy.Protocol.Headers.{is_named, is_among, valid_pairs, untraced, headers_from}
use ja3proxy.Sessions.Streams.{any_named, differs, agent_headers, bound_headers, prepare}

any_named-append :
    (wanted : String) (xs ys : List (String × String))
    → any_named wanted (xs ++ ys) ≡ (any_named wanted xs || any_named wanted ys)
unfolding any_named
any_named-append wanted [] ys = ground arith
any_named-append wanted (x ∷ xs) ys = ground (arith, any_named-append wanted xs ys)

differs-append :
    (agent : String) (xs ys : List (String × String))
    → differs agent (xs ++ ys) ≡ (differs agent xs || differs agent ys)
unfolding differs
differs-append agent [] ys = ground arith
differs-append agent (x ∷ xs) ys = ground (arith, differs-append agent xs ys)

agent_one :
    (agent : String)
    → (any_named "user-agent" (("user-agent", agent) ∷ []) ≡ true)
      × (differs agent (("user-agent", agent) ∷ []) ≡ false)
      × (any_named "cookie" (("user-agent", agent) ∷ []) ≡ false)
unfolding any_named differs is_named
agent_one agent = (refl, ground (arith, eq_iff agent agent), refl)

-- The headers bind the session's user agent: there is one, and none names another.
abbrev pub Binds : Option String → List (String × String) → Type 0
Binds none hs = Unit {0}
Binds (some agent) hs = (any_named "user-agent" hs ≡ true) × (differs agent hs ≡ false)

-- The caller's headers, in front of the one that may be added.
pub data Extends (hs : List (String × String))
    : Option String → List (String × String) → Type 0 where
  same_headers : {agent : Option String} → Extends hs agent hs
  with_agent :
      {out : List (String × String)} (agent : String)
      → out ≡ hs ++ ("user-agent", agent) ∷ []
      → Extends hs (some agent) out

record Fits (hs : List (String × String)) (agent : Option String) (out : List (String × String))
    : Type 0 where
  binds : Binds agent out
  extends : Extends hs agent out
  cookies : any_named "cookie" out ≡ any_named "cookie" hs

sent : {out xs : List (String × String)} → returned xs ≡ returned out → xs ≡ out
sent h = ground arith

added :
    (agent : String) (hs : List (String × String))
    → differs agent hs ≡ false
    → Fits hs (some agent) (hs ++ ("user-agent", agent) ∷ [])
added agent hs agrees =
    let one = agent_one agent in
    record {
      binds = (
        ground (arith, any_named-append "user-agent" hs (("user-agent", agent) ∷ []), one.0),
        ground (arith, differs-append agent hs (("user-agent", agent) ∷ []), one.1, agrees),
      );
      extends = with_agent agent refl;
      cookies = ground (arith, any_named-append "cookie" hs (("user-agent", agent) ∷ []), one.2);
    }

agent_headers-Fits :
    (agent : Option String) (hs : List (String × String)) {out : List (String × String)}
    → agent_headers agent hs ≡ returned out
    → Fits hs agent out
unfolding agent_headers
agent_headers-Fits none hs {out} h =
    subst (Fits hs none) (sent h) (record { binds = tt; extends = same_headers; cookies = refl })
agent_headers-Fits (some agent) hs {out} h = elim (Bool-cases (differs agent hs)) [
  | inl other ↦ absurd (ground (arith, other))
  | inr agrees ↦ elim (Bool-cases (any_named "user-agent" hs)) [
    | inl named ↦
        subst (Fits hs (some agent)) (sent (ground (arith, agrees, named)))
          (record { binds = (named, agrees); extends = same_headers; cookies = refl })
    | inr bare ↦
        subst (Fits hs (some agent)) (sent (ground (arith, agrees, bare))) (added agent hs agrees)
  ]
]

bound_headers-Fits :
    (managed : Bool) (agent : Option String) (hs : List (String × String))
    {out : List (String × String)}
    → bound_headers managed agent hs ≡ returned out
    → ((managed && any_named "cookie" out) ≡ false) × Fits hs agent out
unfolding bound_headers
bound_headers-Fits managed agent hs {out} h = elim (Bool-cases (managed && any_named "cookie" hs)) [
  | inl cookie ↦ absurd (ground (arith, cookie))
  | inr fine ↦
      let fits = agent_headers-Fits agent hs {out = out} (ground (arith, fine)) in
      (rw fits.cookies fine, fits)
]

-- A header that carries a trace.
abbrev pub traces : String × String → Bool
traces h = is_named "traceparent" h || is_named "tracestate" h || is_named "baggage" h

-- The second list is the first one without the headers that carry a trace.
pub data Forwarded : List (String × String) → List (String × String) → Type 0 where
  no_headers : Forwarded [] []
  drops :
      {h : String × String} {hs ks : List (String × String)}
      → traces h ≡ true
      → Forwarded hs ks
      → Forwarded (h ∷ hs) ks
  keeps :
      {h : String × String} {hs ks : List (String × String)}
      → traces h ≡ false
      → Forwarded hs ks
      → Forwarded (h ∷ hs) (h ∷ ks)

untraced-Forwarded : (hs : List (String × String)) → Forwarded hs (untraced hs)
unfolding untraced is_among
untraced-Forwarded [] = no_headers
untraced-Forwarded (h ∷ hs) = elim (Bool-cases (traces h)) [
  | inl traced ↦
      subst (Forwarded (h ∷ hs)) (ground (arith, traced)) (drops traced (untraced-Forwarded hs))
  | inr plain ↦
      subst (Forwarded (h ∷ hs)) (ground (arith, plain)) (keeps plain (untraced-Forwarded hs))
]

-- Every header has a token as its name, and its value is one line.
abbrev pub AllValid : List (String × String) → Type 0
AllValid hs = All (λ h. (header_name h.0 ≡ true) × (one_line h.1 ≡ true)) hs

valid_pairs-AllValid : (hs : List (String × String)) → valid_pairs hs ≡ true → AllValid hs
unfolding valid_pairs
valid_pairs-AllValid [] h = tt
valid_pairs-AllValid (x ∷ hs) h =
    ((ground (arith, h), ground (arith, h)), valid_pairs-AllValid hs (ground (arith, h)))

-- The headers `out` that a session sends for the caller's headers `hs`; `kept` are those it forwards.
pub record Sends (managed : Bool) (agent : Option String) (hs out : List (String × String))
    : Type 0 where
  pub valid : AllValid hs
  pub kept : List (String × String)
  pub forwards : Forwarded hs kept
  pub extends : Extends kept agent out
  pub cookies : (managed && any_named "cookie" out) ≡ false
  pub binds : Binds agent out

kept-Sends :
    (managed : Bool) (agent : Option String) (hs : List (String × String))
    {out : List (String × String)}
    → valid_pairs hs ≡ true
    → bound_headers managed agent (untraced hs) ≡ returned out
    → Sends managed agent hs out
kept-Sends managed agent hs {out} valid h =
    let (cookies, fits) = bound_headers-Fits managed agent (untraced hs) {out = out} h in
    record {
      valid = valid_pairs-AllValid hs valid;
      kept = untraced hs;
      forwards = untraced-Forwarded hs;
      extends = fits.extends;
      cookies = cookies;
      binds = fits.binds;
    }

-- A request of a session that gets as far as `host.stream`: all headers of the caller were valid; those
-- that carry a trace (traceparent, tracestate, baggage) are removed and the others stand first, in
-- their order and as they were; behind them only the session's user agent may be added. A managed
-- session sends no cookie header, and where the session has a user agent, the request names that one
-- and no other.
pub prepare_headers :
    (managed : Bool) (agent : Option String) (hs : List (String × String))
    {out : List (String × String)}
    → prepare managed agent hs ≡ returned out
    → Sends managed agent hs out
unfolding prepare headers_from
prepare_headers managed agent hs {out} h = elim (Bool-cases (valid_pairs hs)) [
  | inl valid ↦ kept-Sends managed agent hs valid (ground (arith, h, valid))
  | inr bad ↦ absurd (ground (arith, h, bad))
]
