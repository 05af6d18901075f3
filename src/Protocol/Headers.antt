-- ===== src/Protocol/Headers.antt =====
-- packages/typescript/src/protocol.ts: headersFrom, for the pairs that it takes from any of its inputs.
use ja3proxy.Base.{
  ℕ, ◌+◌, Bool, true, false, not, ◌&&◌, ◌||◌, String, List, [], ◌∷◌, map, Option, none, some, ◌==◌,
  if◌then◌else◌,
}
use ja3proxy.Protocol.Payloads.Patterns.{codes, is_upper, header_name, one_line}

abbrev pub to_lower : ℕ → ℕ
to_lower c = if is_upper c then c + 32 else c

abbrev pub same_codes : List ℕ → List ℕ → Bool
same_codes [] [] = true
same_codes (c ∷ cs) (d ∷ ds) = c == d && same_codes cs ds
same_codes _ _ = false

-- `name.toLowerCase() === wanted`, of a name that headerPairs has accepted, which is ASCII.
unfoldable pub is_named : String → String × String → Bool
is_named wanted (name, value) = same_codes (map to_lower (codes name)) (codes wanted)

-- headerPairs, of pairs of texts.
unfoldable pub valid_pairs : List (String × String) → Bool
valid_pairs [] = true
valid_pairs (h ∷ hs) = header_name h.0 && one_line h.1 && valid_pairs hs

-- `wanted.includes(name.toLowerCase())`
unfoldable pub is_among : List String → String × String → Bool
unfolding is_named
is_among [] h = false
is_among (wanted ∷ rest) h = is_named wanted h || is_among rest h

unfoldable pub untraced : List (String × String) → List (String × String)
unfolding is_among
untraced [] = []
untraced (h ∷ hs) =
    let rest = untraced hs in
    if not (is_among ("traceparent" ∷ "tracestate" ∷ "baggage" ∷ []) h) then h ∷ rest else rest

-- headersFrom; `none` is its TypeError.
unfoldable pub headers_from : List (String × String) → Option (List (String × String))
unfolding valid_pairs untraced
headers_from hs = if not (valid_pairs hs) then none else some (untraced hs)
