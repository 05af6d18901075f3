-- ===== src/Sessions/Streams.antt =====
-- packages/typescript/src/sessions.ts: stream. `prepare` makes the headers for `host.stream`, `accept`
-- is what stands behind it, with the session's `info` from before; an error on either side, or in a
-- completion, comes to `failed`.
pub mod Headers
mod Tests
use ja3proxy.Base.{
  ℕ, ◌+◌, Bool, true, false, not, ◌&&◌, ◌||◌, String, str_eq, List, [], ◌∷◌, ◌++◌, map, Option,
  none, some, ltb, ◌==◌, if◌then◌else◌,
}
use ja3proxy.Errors.{
  Code, Kind, TransportError, Outcome, foreign, safe_error, initial_diagnostics, returned, threw,
  local_error,
}
use ja3proxy.Protocol.Headers.{is_named, headers_from}
use ja3proxy.Sessions.{World, Info, Exec, apply_revision, mark_lost}

unfoldable pub any_named : String → List (String × String) → Bool
unfolding is_named
any_named wanted [] = false
any_named wanted (h ∷ hs) = is_named wanted h || any_named wanted hs

-- `values.some(([, value]) => value !== userAgent)`
unfoldable pub differs : String → List (String × String) → Bool
unfolding is_named
differs agent [] = false
differs agent (h ∷ hs) = is_named "user-agent" h && not (str_eq h.1 agent) || differs agent hs

-- The tests of the headers, and the header that a bound user agent adds.
unfoldable pub agent_headers :
    Option String → List (String × String) → Outcome (List (String × String))
unfolding differs any_named
agent_headers none hs = returned hs
agent_headers (some agent) hs =
    if differs agent hs
    then threw (local_error Code.context_conflict none)
    else returned (if any_named "user-agent" hs then hs else hs ++ ("user-agent", agent) ∷ [])

-- The headers that headersFrom gives.
unfoldable pub bound_headers :
    Bool → Option String → List (String × String) → Outcome (List (String × String))
unfolding agent_headers any_named
bound_headers managed agent hs =
    if managed && any_named "cookie" hs
    then threw (local_error Code.invalid_request (some Kind.invalid_input))
    else agent_headers agent hs

-- The caller's headers up to `host.stream`. A TypeError of headersFrom is thrown as safeError has it.
unfoldable pub prepare :
    Bool → Option String → List (String × String) → Outcome (List (String × String))
unfolding bound_headers
prepare managed agent hs = elim (headers_from hs) [
  | none ↦ threw (safe_error foreign initial_diagnostics false)
  | some kept ↦ bound_headers managed agent kept
]

-- The parts of the metadata of an exchange that the session reads.
pub record Exchange : Type 0 where
  pub context_id : Option String
  pub cookie_revision : Option ℕ

abbrev pub is_current : Option String → String → Bool
is_current none id = false
is_current (some c) id = str_eq c id

-- `!nonnegativeInteger(cookieRevision) || cookieRevision < revision`
abbrev pub is_stale : Option ℕ → ℕ → Bool
is_stale none n = true
is_stale (some r) n = ltb r n

unfoldable pub apply : Option ℕ → String → Exec (Unit {0})
apply none id w = (returned tt, w)
apply (some r) id w = apply_revision r id w

unfoldable pub accept : Bool → Info → Exchange → Exec (Unit {0})
unfolding apply
accept managed current x w =
    if not (is_current x.context_id current.context_id)
      || (managed && is_stale x.cookie_revision current.revision)
    then (threw (local_error Code.protocol_error none), w)
    else apply x.cookie_revision current.context_id w

unfoldable pub failed : TransportError → Info → World → World
failed e current w = record w { session = mark_lost e current.context_id w.session }
