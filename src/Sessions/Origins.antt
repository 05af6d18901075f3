-- ===== src/Sessions/Origins.antt =====
-- packages/typescript/src/sessions.ts: normalizedOrigins.
pub mod Normal
mod Tests
use ja3proxy.Base.{
  Bool, true, false, ◌&&◌, String, str_eq, List, [], ◌∷◌, Option, none, some, if◌then◌else◌,
}
use ja3proxy.Platform.{Url}
use ja3proxy.Errors.{Code, Kind, Outcome, returned, threw, local_error}
use ja3proxy.Wire.Value.{has_string}
use ja3proxy.Sessions.{add}

abbrev pub invalid : {A : Type 0} → Outcome A
invalid = threw (local_error Code.invalid_request (some Kind.invalid_input))

abbrev pub is_origin : Url → Bool
is_origin u =
    has_string ("http" ∷ "https" ∷ []) u.protocol
    && str_eq u.username ""
    && str_eq u.password ""
    && str_eq u.search ""
    && str_eq u.hash ""
    && str_eq u.pathname "/"

pub parsed_origin : Option Url → Outcome String
parsed_origin none = invalid
parsed_origin (some u) = if is_origin u then returned u.origin else invalid

pub prepend : Outcome String → Outcome (List String) → Outcome (List String)
prepend (threw e) rest = threw e
prepend (returned u) (threw e) = threw e
prepend (returned u) (returned us) = returned (u ∷ us)

-- `origins.map(…)`
pub mapped : (String → Option Url) → List String → Outcome (List String)
unfolding prepend parsed_origin
mapped parse [] = returned []
mapped parse (s ∷ ss) = prepend (parsed_origin (parse s)) (mapped parse ss)

-- `Array.from(new Set(…))`, behind the elements that the set already has.
pub collect : List String → List String → List String
collect seen [] = seen
collect seen (u ∷ us) = collect (add u seen) us

unique : Outcome (List String) → Outcome (List String)
unfolding collect
unique (threw e) = threw e
unique (returned us) = returned (collect [] us)

abbrev is_empty : List String → Bool
is_empty [] = true
is_empty _ = false

-- normalizedOrigins
pub normalized_origins : (String → Option Url) → List String → Bool → Outcome (List String)
unfolding mapped unique
normalized_origins parse origins managed =
    if managed && is_empty origins then invalid else unique (mapped parse origins)
