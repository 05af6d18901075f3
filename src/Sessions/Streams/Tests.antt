-- ===== src/Sessions/Streams/Tests.antt =====
-- Headers that sessions of packages/typescript/src/sessions.ts accept and refuse.
use ja3proxy.Base.{◌≡◌, refl, true, false, [], ◌∷◌, List, String, none, some}
use ja3proxy.Errors.{
  Code, Kind, returned, threw, local_error, safe_error, foreign, initial_diagnostics,
}
use ja3proxy.Protocol.Payloads.Patterns.{header_name, one_line}
use ja3proxy.Protocol.Headers.{is_named, is_among, valid_pairs, untraced, headers_from}
use ja3proxy.Sessions.Streams.{any_named, differs, agent_headers, bound_headers, prepare}
use ja3proxy.Sessions.Streams.Headers.{Sends, prepare_headers}

runs : Unit {0}
unfolding prepare bound_headers agent_headers any_named differs is_named is_among valid_pairs
    untraced headers_from header_name one_line
runs = tt

abbrev given : List (String × String)
given = ("x", "y") ∷ ("TraceParent", "00") ∷ ("z", "w") ∷ []

accepts :
    prepare true (some "a") given ≡ returned (("x", "y") ∷ ("z", "w") ∷ ("user-agent", "a") ∷ [])
unfolding runs
accepts = refl

prepare_headers_example :
    Sends true (some "a") given (("x", "y") ∷ ("z", "w") ∷ ("user-agent", "a") ∷ [])
prepare_headers_example = prepare_headers true (some "a") given accepts

refuses :
    (prepare true none (("CooKie", "y") ∷ [])
      ≡ threw (local_error Code.invalid_request (some Kind.invalid_input)))
    × (prepare false (some "a") (("User-Agent", "b") ∷ [])
        ≡ threw (local_error Code.context_conflict none))
    × (prepare false none (("a b", "c") ∷ [])
        ≡ threw (safe_error foreign initial_diagnostics false))
unfolding runs
refuses = (refl, refl, refl)
