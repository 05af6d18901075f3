-- ===== src/Sync/Ipc.antt =====
-- packages/typescript/src/sync/ipc.ts: the tests of values that callers and the worker pass. Values are
-- plain objects with enumerable data properties, which is what `object` admits; the classes URL and
-- Headers are left out, and so are byte arrays: a body is an argument of its own.
pub mod Requests
pub mod Options
pub mod Config
pub mod Codec
use ja3proxy.Base.{
  ℕ, Bool, true, false, not, ◌&&◌, ◌||◌, String, str_eq, List, [], ◌∷◌, Option, none, some, ltb,
  leb, if◌then◌else◌,
}
use ja3proxy.Platform.{Url}
use ja3proxy.Errors.{Code, Kind, Outcome, returned, threw, local_error}
use ja3proxy.Wire.Value.{
  Value, number, string, array, object, whole, Number, Elements, no_elements, element, Entries,
  no_entries, entry, member, is_undefined, has_string, equals_one,
}
use ja3proxy.Protocol.Payloads.Patterns.{text_length, max_safe_integer, is_lower}
use ja3proxy.Sync.{◌>>=◌, ◌>>◌}

abbrev pub max_timeout_ms : ℕ
max_timeout_ms = 2147483647

abbrev pub max_metadata_bytes : ℕ
max_metadata_bytes = 1048576

-- invalid
abbrev pub invalid : {A : Type 0} → Outcome A
invalid = threw (local_error Code.invalid_request (some Kind.invalid_input))

abbrev pub reject_unless : Bool → Outcome (Unit {0})
reject_unless true = returned tt
reject_unless false = invalid

-- object
unfoldable pub object_of : Value → Outcome Entries
object_of (object fs) = returned fs
object_of v = invalid

-- `Object.keys(value).some(key => !allowed.includes(key))`
unfoldable pub only : List String → Entries → Bool
only allowed no_entries = true
only allowed (entry key v fs) = has_string allowed key && only allowed fs

-- keys
unfoldable pub keys : Entries → List String → Outcome (Unit {0})
unfolding only
keys fs allowed = reject_unless (only allowed fs)

-- text
unfoldable pub text : Value → ℕ → Outcome String
text (string s) max =
    if ltb 0 (text_length s) && leb (text_length s) max then returned s else invalid
text v max = invalid

unfoldable pub positive_up_to : ℕ → Value → Outcome ℕ
positive_up_to maximum (number (whole n)) =
    if leb n max_safe_integer && ltb 0 n && leb n maximum then returned n else invalid
positive_up_to maximum v = invalid

-- integer
unfoldable pub integer : Value → ℕ → ℕ → Outcome ℕ
unfolding positive_up_to
integer v fallback maximum =
    positive_up_to maximum (if is_undefined v then number (whole fallback) else v)

-- `...(v === undefined ? {} : { key: integer(v, 1, maximum) })`
unfoldable pub optional_integer : Value → ℕ → Outcome (Option ℕ)
optional_integer v maximum =
    if is_undefined v then returned none else (do n ← integer v 1 maximum; returned (some n))

unfoldable pub optional_text : Value → ℕ → Outcome (Option String)
optional_text v max =
    if is_undefined v then returned none else (do s ← text v max; returned (some s))

web_url : Option Url → Outcome String
web_url none = invalid
web_url (some u) =
    if has_string ("http" ∷ "https" ∷ []) u.protocol && str_eq u.username "" && str_eq u.password ""
    then returned u.href
    else invalid

-- url; the parser is what the class URL does with a text.
unfoldable pub url : (String → Option Url) → Value → Outcome String
unfolding web_url
url parse v = do s ← text v max_metadata_bytes; web_url (parse s)
